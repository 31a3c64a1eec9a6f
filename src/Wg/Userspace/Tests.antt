-- ===== src/Wg/Userspace/Tests.antt =====
-- The parser on the answer of a device with one peer.
use innernet.Prelude.{
  ℕ, String, ◌≡◌, refl, true, Option, none, some, List, [], ◌∷◌, map, if◌then◌else◌, ◌==◌, nat_eq,
  string_eq, option_eq,
}
use innernet.Net.{v4}
use innernet.Wg.Userspace.{
  Parsers, ConfigParser, done, new, new_peer_info, field, from_hex, add_field, add_pair, add_line,
  add_lines,
}
use innernet.Wg.{PeerInfo}
use innernet.Wg.Userspace.Reports.{named}
use innernet.Wg.Userspace.Reports.Ends.{IsLast, add_lines-peers}

abbrev bytes : List ℕ
bytes =
    7 ∷ 0 ∷ 0 ∷ 0 ∷ 0 ∷ 0 ∷ 0 ∷ 0 ∷ 0 ∷ 0 ∷ 0 ∷ 0 ∷ 0 ∷ 0 ∷ 0 ∷ 0 ∷ 0 ∷ 0 ∷ 0 ∷ 0 ∷ 0 ∷ 0 ∷ 0 ∷ 0
    ∷ 0 ∷ 0 ∷ 0 ∷ 0 ∷ 0 ∷ 0 ∷ 0 ∷ 0 ∷ []

abbrev split : String → Option (String × String)
split line =
    if line == "public_key=aa"
    then some ("public_key", "aa")
    else if line == "rx_bytes=5"
    then some ("rx_bytes", "5")
    else if line == "errno=0"
    then some ("errno", "0")
    else none

abbrev parsers : Parsers
parsers = record {
  split_pair = split;
  split_slash = λ text. text ∷ [];
  hex_decode = λ text. some bytes;
  parse_ip = λ text. some (v4 0);
  parse_socket = λ text. none;
  parse_u8 = λ text. some 5;
  parse_u16 = λ text. some 5;
  parse_u32 = λ text. some 5;
  parse_u64 = λ text. some 5;
  is_errno = λ text. true;
  generate_public = λ key. key;
}

abbrev answer : List String
answer = "public_key=aa" ∷ "rx_bytes=5" ∷ "errno=0" ∷ []

abbrev result : ConfigParser
result = record {
  device_info = record {
    name = "wg0";
    public_key = none;
    private_key = none;
    fwmark = none;
    listen_port = none;
    peers =
        record {
          config = record {
            public_key = record { bytes = bytes };
            preshared_key = none;
            endpoint = none;
            persistent_keepalive_interval = none;
            allowed_ips = [];
          };
          stats = record { last_handshake_time = none; rx_bytes = 5; tx_bytes = 0 };
        }
        ∷ [];
    linked_name = none;
  };
  current_peer = none;
}

parses : add_lines parsers answer (new "wg0" none) ≡ done result
unfolding new new_peer_info field from_hex add_field add_pair add_line add_lines
parses = refl

ends : IsLast parsers "errno=0"
unfolding field
ends = (("errno", "0"), refl, refl, refl)

add_lines-peers_example :
    (result.current_peer ≡ none)
    × (map (λ (peer : PeerInfo). peer.config.public_key) result.device_info.peers
        ≡ named parsers ("public_key=aa" ∷ "rx_bytes=5" ∷ []))
add_lines-peers_example =
    add_lines-peers parsers ("public_key=aa" ∷ "rx_bytes=5" ∷ []) "errno=0" "wg0" none result ends
      parses
