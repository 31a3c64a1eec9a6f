-- ===== src/Wg/Kernel/Applies.antt =====
-- What `apply` hands to the C library.
use innernet.Prelude.{
  ℕ, ◌≤◌, String, ◌≡◌, refl, ◌≢◌, inl, inr, Bool, none, some, List, map, arith, if◌then◌else◌,
  Option-cases, length, reverse,
}
use innernet.Wg.{DeviceInfo}
use innernet.Wg.DeviceBuilder.{DeviceConfigBuilder}
use innernet.Wg.Kernel.Pointers.{Pointer}
use innernet.Wg.Kernel.Encodes.{described, parse_peers-encode_peers}
use innernet.Wg.Kernel.{Heap, has_flag, set_flag, is_some, nonzero, encode_peers}
use innernet.Wg.Kernel.Device.{
  IsText, WgDevice, Code, success, exists_already, failure, Outcome, nul_error, WgctrlSys,
  io_result, encode_name, parse_device_name, apply, set_device, wg_device, device_flags,
  from_wg_device, empty_heap, parse_device_name-encode_name, added, is_c_string,
}

-- A configuration as the description of a device: a mark or a port of 0 is none.
pub device_info : DeviceConfigBuilder → String → DeviceInfo
device_info b name = record {
  name = name;
  public_key = b.public_key;
  private_key = b.private_key;
  fwmark = elim b.fwmark [ none ↦ none | some n ↦ nonzero n ];
  listen_port = elim b.listen_port [ none ↦ none | some n ↦ nonzero n ];
  peers = reverse (map described b.peers);
  linked_name = none;
}

flag_public :
    (a b c d e : Bool)
    → has_flag (set_flag e 1 (set_flag d 8 (set_flag c 16 (set_flag b 2 (set_flag a 4 0))))) 4 ≡ a
flag_public a b c d e = ground arith

flag_private :
    (a b c d e : Bool)
    → has_flag (set_flag e 1 (set_flag d 8 (set_flag c 16 (set_flag b 2 (set_flag a 4 0))))) 2 ≡ b
flag_private a b c d e = ground arith

from_wg_device-wg_device :
    (from_utf8 : List ℕ → String) (b : DeviceConfigBuilder) (iface name : List ℕ)
    → parse_device_name name ≡ some iface
    → let r : Heap × Pointer × Pointer = encode_peers b.peers empty_heap none none in
      from_wg_device from_utf8 r.0 (wg_device b name r.1 r.2)
      ≡ some (device_info b (from_utf8 iface))
unfolding from_wg_device wg_device device_flags device_info
from_wg_device-wg_device from_utf8 b iface name named = ground (
  arith,
  named,
  parse_peers-encode_peers b.peers empty_heap,
  flag_public (is_some b.public_key) (is_some b.private_key) (is_some b.fwmark)
      (is_some b.listen_port) b.replaces_peers,
  flag_private (is_some b.public_key) (is_some b.private_key) (is_some b.fwmark)
      (is_some b.listen_port) b.replaces_peers,
)

-- The name of a device that fits.
fitting :
    (iface : List ℕ)
    → IsText iface
    → length iface ≤ 15
    → (name : List ℕ) × (encode_name iface ≡ some name) × (parse_device_name name ≡ some iface)
fitting iface text short = elim (Option-cases (encode_name iface)) [
  | inl e ↦ ground (arith, e, parse_device_name-encode_name iface text, short)
  | inr (name, e) ↦ (name, e, ground (arith, e, parse_device_name-encode_name iface text, short))
]

-- Where the interface is there, or can be added, and its name is a text of at most 15 bytes, `apply`
-- hands the library one device, and returns what the library says of it. That device, read as one of
-- the library's, has the name, the keys, the mark and the port of the configuration (none for a 0),
-- and its peers in the opposite order.
pub apply-hands :
    {K : Type 0} (sys : WgctrlSys K) (from_utf8 : List ℕ → String) (b : DeviceConfigBuilder)
    (iface : List ℕ) (k : K)
    → IsText iface
    → length iface ≤ 15
    → (sys.wg_add_device iface k).1 ≢ failure
    → (raw : WgDevice) × (heap : Heap) × (from_wg_device from_utf8 heap raw
        ≡ some (device_info b (from_utf8 iface)))
      × (apply sys b iface k ≡ (
          let r : K × Code = sys.wg_set_device raw heap (sys.wg_add_device iface k).0 in
          (r.0, io_result r.1)))
unfolding apply set_device
apply-hands {K} sys from_utf8 b iface k text short there =
    let (name, e, named) = fitting iface text short in
    let r = encode_peers b.peers empty_heap none none in
    (
      wg_device b name r.1 r.2,
      r.0,
      from_wg_device-wg_device from_utf8 b iface name named,
      reached name e (sys.wg_add_device iface k) there,
    )
  where
    handed : List ℕ → K → K × Outcome Unit
    handed name k' =
        let r = encode_peers b.peers empty_heap none none in
        let t = sys.wg_set_device (wg_device b name r.1 r.2) r.0 k' in (t.0, io_result t.1)

    reached :
        (name : List ℕ)
        → encode_name iface ≡ some name
        → (a : K × Code) → a.1 ≢ failure
        → (if is_c_string iface then added sys b iface a else (k, nul_error)) ≡ handed name a.0
    reached name e (k', success) ok = ground (arith, e, text)
    reached name e (k', exists_already) ok = ground (arith, e, text)
    reached name e (k', failure) ok = absurd (ok refl)
