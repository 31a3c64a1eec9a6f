-- ===== src/Wg/Userspace.antt =====
-- wgctrl-rs/src/backends/userspace.rs: the answer of a userspace WireGuard to `get=1`, line by line.
-- What the standard library and the package `hex` parse are parameters.
pub mod Reports
pub mod Requests
pub mod Answers
pub mod Roundtrip
pub mod Tests
pub mod RequestTests
use innernet.Prelude.{
  ℕ, ◌*◌, String, Bool, not, Option, none, some, List, [], ◌∷◌, ◌++◌, ltb, if◌then◌else◌, ◌==◌,
  nat_eq, string_eq, option_eq, length,
}
use innernet.Net.{IpAddr, SocketAddr}
use innernet.Wg.{Key, AllowedIp, PeerConfig, PeerStats, PeerInfo, DeviceInfo}

pub record Parsers : Type 0 where
  pub split_pair : String → Option (String × String)
  pub split_slash : String → List String
  pub hex_decode : String → Option (List ℕ)
  pub parse_ip : String → Option IpAddr
  pub parse_socket : String → Option SocketAddr
  pub parse_u8 : String → Option ℕ
  pub parse_u16 : String → Option ℕ
  pub parse_u32 : String → Option ℕ
  pub parse_u64 : String → Option ℕ
  pub is_errno : String → Bool
  pub generate_public : Key → Key

-- An error of the operating system carries the text of its number.
pub data Parsed (A : Type 0) : Type 0 where
  done : A → Parsed A
  invalid_data panicked : Parsed A
  os_error : String → Parsed A

pub record ConfigParser : Type 0 where
  pub device_info : DeviceInfo
  pub current_peer : Option PeerInfo

unfoldable pub new_peer_info : Key → PeerInfo
new_peer_info public_key = record {
  config = record {
    public_key = public_key;
    preshared_key = none;
    endpoint = none;
    persistent_keepalive_interval = none;
    allowed_ips = [];
  };
  stats = record { last_handshake_time = none; rx_bytes = 0; tx_bytes = 0 };
}

-- `resolve_tun(name).ok()` is an argument.
unfoldable pub new : String → Option String → ConfigParser
new name linked_name = record {
  device_info = record {
    name = name;
    public_key = none;
    private_key = none;
    fwmark = none;
    listen_port = none;
    peers = [];
    linked_name = linked_name;
  };
  current_peer = none;
}

-- The keys that `add_pair` tells apart.
pub data Field : Type 0 where
  private_key listen_port fwmark public_key preshared_key tx_bytes rx_bytes : Field
  last_handshake_time_sec allowed_ip persistent_keepalive_interval endpoint errno : Field
  ignored : Field

unfoldable pub field : String → Field
field key =
    if key == "private_key"
    then private_key
    else if key == "listen_port"
    then listen_port
    else if key == "fwmark"
    then fwmark
    else if key == "public_key"
    then public_key
    else if key == "preshared_key"
    then preshared_key
    else if key == "tx_bytes"
    then tx_bytes
    else if key == "rx_bytes"
    then rx_bytes
    else if key == "last_handshake_time_sec"
    then last_handshake_time_sec
    else if key == "allowed_ip"
    then allowed_ip
    else if key == "persistent_keepalive_interval"
    then persistent_keepalive_interval
    else if key == "endpoint"
    then endpoint
    else if key == "errno"
    then errno
    else ignored

-- A peer that is finished joins the peers of the device.
abbrev pub finish : Option PeerInfo → DeviceInfo → DeviceInfo
finish none d = d
finish (some finished_peer) d = record d { peers = d.peers ++ finished_peer ∷ [] }

-- Parse, or fail with InvalidData.
abbrev pub or_invalid : {A : Type 0} → Option A → (A → Parsed ConfigParser) → Parsed ConfigParser
or_invalid none next = invalid_data
or_invalid (some a) next = next a

abbrev pub change_peer : ConfigParser → (PeerInfo → PeerInfo) → Parsed ConfigParser
change_peer p f = elim p.current_peer [
  | none ↦ invalid_data
  | some peer ↦ done (record p { current_peer = some (f peer) })
]

abbrev pub set_config : (PeerConfig → PeerConfig) → PeerInfo → PeerInfo
set_config f peer = record peer { config = f peer.config }

abbrev pub set_stats : (PeerStats → PeerStats) → PeerInfo → PeerInfo
set_stats f peer = record peer { stats = f peer.stats }

module _ (s : Parsers) where
  -- `Key::from_hex`
  unfoldable pub from_hex : String → Option Key
  from_hex text = elim (s.hex_decode text) [
    | none ↦ none
    | some bytes ↦ if length bytes == 32 then some (record { bytes = bytes }) else none
  ]

  -- `FromStr` of `AllowedIp`: an address and the length of a prefix.
  abbrev pub allowed_of : Option IpAddr → Option ℕ → Option AllowedIp
  allowed_of (some address) (some cidr) = some (record { address = address; cidr = cidr })
  allowed_of _ _ = none

  abbrev pub allowed_parts : List String → Option AllowedIp
  allowed_parts (ip ∷ (cidr ∷ [])) = allowed_of (s.parse_ip ip) (s.parse_u8 cidr)
  allowed_parts _ = none

  unfoldable pub parse_allowed_ip : String → Option AllowedIp
  parse_allowed_ip text = allowed_parts (s.split_slash text)

  abbrev pub end_stream : ConfigParser → String → Parsed ConfigParser
  end_stream p value =
      if not (value == "0")
      then (if s.is_errno value then os_error value else panicked)
      else done (record { device_info = finish p.current_peer p.device_info; current_peer = none })

  unfoldable pub add_field : Field → String → ConfigParser → Parsed ConfigParser
  add_field private_key value p = or_invalid (from_hex value) λ key. done (record p {
    device_info = record (p.device_info) {
      private_key = some key;
      public_key = some (s.generate_public key);
    };
  })
  add_field listen_port value p =
      or_invalid (s.parse_u16 value)
        λ port. done (record p { device_info = record (p.device_info) { listen_port = some port } })
  add_field fwmark value p =
      or_invalid (s.parse_u32 value)
        λ mark. done (record p { device_info = record (p.device_info) { fwmark = some mark } })
  add_field public_key value p = or_invalid (from_hex value) λ key. done (record {
    device_info = finish p.current_peer p.device_info;
    current_peer = some (new_peer_info key);
  })
  add_field preshared_key value p =
      or_invalid (from_hex value)
        λ key. change_peer p (set_config (λ c. record c { preshared_key = some key }))
  add_field tx_bytes value p =
      or_invalid (s.parse_u64 value) λ n. change_peer p (set_stats (λ c. record c { tx_bytes = n }))
  add_field rx_bytes value p =
      or_invalid (s.parse_u64 value) λ n. change_peer p (set_stats (λ c. record c { rx_bytes = n }))
  add_field last_handshake_time_sec value p = or_invalid (s.parse_u64 value) λ seconds.
      if ltb 0 seconds
      then change_peer p
          (set_stats (λ c. record c { last_handshake_time = some (seconds * 1000000000) }))
      else done p
  add_field allowed_ip value p =
      or_invalid (parse_allowed_ip value)
        λ ip. change_peer p (set_config (λ c. record c { allowed_ips = c.allowed_ips ++ ip ∷ [] }))
  add_field persistent_keepalive_interval value p =
      or_invalid (s.parse_u16 value)
        λ n. change_peer p (set_config (λ c. record c { persistent_keepalive_interval = some n }))
  add_field endpoint value p =
      or_invalid (s.parse_socket value)
        λ addr. change_peer p (set_config (λ c. record c { endpoint = some addr }))
  add_field errno value p = end_stream p value
  add_field ignored value p = done p

  unfoldable pub add_pair : ConfigParser → String → String → Parsed ConfigParser
  add_pair p key value = add_field (field key) value p

  unfoldable pub add_line : ConfigParser → String → Parsed ConfigParser
  add_line p line = elim (s.split_pair line) [
    | none ↦ invalid_data
    | some pair ↦ add_pair p pair.0 pair.1
  ]

  abbrev pub and_then :
      Parsed ConfigParser → (ConfigParser → Parsed ConfigParser) → Parsed ConfigParser
  and_then (done p) next = next p
  and_then invalid_data next = invalid_data
  and_then panicked next = panicked
  and_then (os_error e) next = os_error e

  -- The loop of `get_by_name`, on the lines before the empty one.
  unfoldable pub add_lines : List String → ConfigParser → Parsed ConfigParser
  add_lines [] p = done p
  add_lines (line ∷ rest) p = and_then (add_line p line) (add_lines rest)
