-- ===== src/Wg/Kernel/Device.antt =====
-- wgctrl-rs/src/backends/kernel.rs: devices, as the C library is asked for and told of them. A text
-- of C is its bytes. The functions of the library, which act on the state of the kernel, are
-- parameters.
use innernet.Prelude.{
  ℕ, zero, suc, ◌-◌, ◌≤◌, ◌<◌, String, ◌≡◌, refl, ap, inl, inr, Bool, true, false, not, Option,
  none, some, List, [], ◌∷◌, ◌++◌, arith, leb, if◌then◌else◌, Bool-cases, ◌==◌, nat_eq, string_eq,
  option_eq, length, contains, append-nil,
}
use innernet.Wg.{Key, zero_key, DeviceInfo}
use innernet.Wg.DeviceBuilder.{DeviceConfigBuilder}
use innernet.Wg.Kernel.Pointers.{Pointer}
use innernet.Wg.Kernel.{
  Heap, has_flag, set_flag, is_some, or_default, nonzero, parse_peers, encode_peers,
}

abbrev pub wgdevice_replace_peers : ℕ
wgdevice_replace_peers = 1

abbrev pub wgdevice_has_private_key : ℕ
wgdevice_has_private_key = 2

abbrev pub wgdevice_has_public_key : ℕ
wgdevice_has_public_key = 4

abbrev pub wgdevice_has_listen_port : ℕ
wgdevice_has_listen_port = 8

abbrev pub wgdevice_has_fwmark : ℕ
wgdevice_has_fwmark = 16

pub record WgDevice : Type 0 where
  pub name : List ℕ
  pub ifindex : ℕ
  pub flags : ℕ
  pub public_key : Key
  pub private_key : Key
  pub fwmark : ℕ
  pub listen_port : ℕ
  pub first_peer : Pointer
  pub last_peer : Pointer

-- The bytes before the first that is 0; without one, the code panics.
unfoldable pub parse_device_name : List ℕ → Option (List ℕ)
parse_device_name [] = none
parse_device_name (c ∷ name) = elim (c == 0) [
  | true ↦ some []
  | false ↦ elim (parse_device_name name) [ none ↦ none | some rest ↦ some (c ∷ rest) ]
]

abbrev pub zeros : ℕ → List ℕ
zeros zero = []
zeros (suc n) = 0 ∷ zeros n

-- The slice `result[..len]` panics beyond 16.
unfoldable pub encode_name : List ℕ → Option (List ℕ)
encode_name name = if leb (length name) 16 then some (name ++ zeros (16 - length name)) else none

-- A text with no byte that is 0.
abbrev pub IsText : List ℕ → Type 0
IsText bytes = contains 0 bytes ≡ false

-- `CString::new`
abbrev pub is_c_string : List ℕ → Bool
is_c_string bytes = not (contains 0 bytes)

abbrev pub then_parse : Option (List ℕ) → Option (List ℕ)
then_parse none = none
then_parse (some cs) = parse_device_name cs

leb→le : (a b : ℕ) → leb a b ≡ true → a ≤ b
leb→le a b h = ground arith

leb→gt : (a b : ℕ) → leb a b ≡ false → b < a
leb→gt a b h = ground arith

parse_device_name-append :
    (name rest : List ℕ) → IsText name → parse_device_name (name ++ 0 ∷ rest) ≡ some name
unfolding parse_device_name
parse_device_name-append [] rest t = refl
parse_device_name-append (c ∷ name) rest t = elim (Bool-cases (contains 0 name)) [
  | inl u ↦ ground (arith, u)
  | inr u ↦ ground (arith, u, parse_device_name-append name rest u)
]

parse_device_name-none : (name : List ℕ) → IsText name → parse_device_name name ≡ none
unfolding parse_device_name
parse_device_name-none [] t = refl
parse_device_name-none (c ∷ name) t = elim (Bool-cases (contains 0 name)) [
  | inl u ↦ ground (arith, u)
  | inr u ↦ ground (arith, u, parse_device_name-none name u)
]

-- A name with no byte that is 0 comes back from the 16 bytes of a device exactly where it has at
-- most 15; one of 16 has no byte left that ends it, and one that is longer does not fit, and both
-- end in a panic.
pub parse_device_name-encode_name :
    (name : List ℕ)
    → IsText name
    → then_parse (encode_name name) ≡ (if leb (length name) 15 then some name else none)
unfolding encode_name
parse_device_name-encode_name name t = elim (Bool-cases (leb (length name) 15)) [
  | inl short ↦
      let less : 16 - length name ≡ suc (15 - length name) =
        omega (arith, leb→le (length name) 15 short) in
      let padded : zeros (16 - length name) ≡ 0 ∷ zeros (15 - length name) = ap zeros less in
      ground (arith, short, padded, parse_device_name-append name (zeros (15 - length name)) t)
  | inr long ↦ elim (Bool-cases (leb (length name) 16)) [
    | inl fits ↦
        let less : 16 - length name ≡ 0 = omega (arith, leb→gt (length name) 15 long) in
        let full : zeros (16 - length name) ≡ [] = ap zeros less in
        ground (arith, long, fits, full, append-nil name, parse_device_name-none name t)
    | inr over ↦ ground (arith, long, over)
  ]
]

-- `From<&wg_device> for DeviceInfo`; a text is made of the bytes of the name unchecked.
unfoldable pub from_wg_device : (List ℕ → String) → Heap → WgDevice → Option DeviceInfo
unfolding parse_peers parse_device_name
from_wg_device from_utf8 heap raw = elim (parse_device_name raw.name) [
  | none ↦ none
  | some name ↦ elim (parse_peers heap raw.first_peer raw.last_peer) [
    | none ↦ none
    | some peers ↦ some (record {
      name = from_utf8 name;
      public_key = if has_flag raw.flags wgdevice_has_public_key then some raw.public_key else none;
      private_key =
          if has_flag raw.flags wgdevice_has_private_key then some raw.private_key else none;
      fwmark = nonzero raw.fwmark;
      listen_port = nonzero raw.listen_port;
      peers = peers;
      linked_name = none;
    })
  ]
]

unfoldable pub device_flags : DeviceConfigBuilder → ℕ
device_flags builder =
    let f1 = set_flag (is_some builder.public_key) wgdevice_has_public_key 0 in
    let f2 = set_flag (is_some builder.private_key) wgdevice_has_private_key f1 in
    let f3 = set_flag (is_some builder.fwmark) wgdevice_has_fwmark f2 in
    let f4 = set_flag (is_some builder.listen_port) wgdevice_has_listen_port f3 in
    set_flag builder.replaces_peers wgdevice_replace_peers f4

-- The structure that `apply` fills.
unfoldable pub wg_device : DeviceConfigBuilder → List ℕ → Pointer → Pointer → WgDevice
unfolding device_flags
wg_device builder name first_peer last_peer = record {
  name = name;
  ifindex = 0;
  flags = device_flags builder;
  public_key = or_default zero_key builder.public_key;
  private_key = or_default zero_key builder.private_key;
  fwmark = or_default 0 builder.fwmark;
  listen_port = or_default 0 builder.listen_port;
  first_peer = first_peer;
  last_peer = last_peer;
}

-- What a function of C returns: 0, -17 (`EEXIST`), or something else.
pub data Code : Type 0 where
  success exists_already failure : Code

pub data Outcome (A : Type 0) : Type 0 where
  done : A → Outcome A
  last_os_error nul_error panicked : Outcome A

-- The library, on the state of the kernel.
pub record WgctrlSys (K : Type 0) : Type 0 where
  pub wg_add_device : List ℕ → K → K × Code
  pub wg_set_device : WgDevice → Heap → K → K × Code
  pub wg_get_device : List ℕ → K → Option (WgDevice × Heap)
  pub wg_del_device : List ℕ → K → K × Code

abbrev pub io_result : Code → Outcome Unit
io_result success = done tt
io_result _ = last_os_error

abbrev pub empty_heap : Heap
empty_heap = record { allowedips = []; peers = [] }

module _ {K : Type 0} (sys : WgctrlSys K) where
  -- Once the interface is there.
  unfoldable pub set_device : DeviceConfigBuilder → List ℕ → K → K × Outcome Unit
  unfolding encode_peers encode_name wg_device
  set_device builder iface k = elim (encode_name iface) [
    | none ↦ (k, panicked)
    | some name ↦
        let peers = encode_peers builder.peers empty_heap none none in
        let r = sys.wg_set_device (wg_device builder name peers.1 peers.2) peers.0 k in
        (r.0, io_result r.1)
  ]

  abbrev pub added : DeviceConfigBuilder → List ℕ → K × Code → K × Outcome Unit
  added builder iface (k, success) = set_device builder iface k
  added builder iface (k, exists_already) = set_device builder iface k
  added builder iface (k, failure) = (k, last_os_error)

  unfoldable pub apply : DeviceConfigBuilder → List ℕ → K → K × Outcome Unit
  unfolding set_device
  apply builder iface k =
      if is_c_string iface then added builder iface (sys.wg_add_device iface k) else (k, nul_error)

  unfoldable pub get_by_name : (List ℕ → String) → List ℕ → K → Outcome DeviceInfo
  unfolding from_wg_device
  get_by_name from_utf8 name k =
      if not (is_c_string name) then nul_error else elim (sys.wg_get_device name k) [
        | none ↦ last_os_error
        | some (device, heap) ↦ elim (from_wg_device from_utf8 heap device) [
          | none ↦ panicked
          | some info ↦ done info
        ]
      ]

  unfoldable pub delete_interface : List ℕ → K → K × Outcome Unit
  delete_interface iface k =
      if is_c_string iface
      then (let r = sys.wg_del_device iface k in (r.0, io_result r.1))
      else (k, nul_error)
