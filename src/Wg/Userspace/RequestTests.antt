-- ===== src/Wg/Userspace/RequestTests.antt =====
-- A request with one peer, read back.
use innernet.Prelude.{
  ◌≡◌, refl, true, false, none, some, List, [], ◌∷◌, map, ◌==◌, nat_eq, string_eq, option_eq, find,
}
use innernet.Net.{v4}
use innernet.Wg.{Key}
use innernet.Wg.PeerBuilder.{PeerConfigBuilder}
use innernet.Wg.DeviceBuilder.{DeviceConfigBuilder}
use innernet.Wg.Userspace.{Parsers, done, new, add_lines, from_hex, parse_allowed_ip}
use innernet.Wg.Userspace.Requests.{
  Printers, Line, text, request, peer_lines, all_peer_lines, allowed_lines, reported, apply, answer,
  applied, invalid_input,
}
use innernet.Wg.Userspace.Answers.{closed, IsPeerRead, IsRead}
use innernet.Wg.Userspace.Roundtrip.{add_lines-request}

abbrev key : Key
key = record {
  bytes =
      7 ∷ 0 ∷ 0 ∷ 0 ∷ 0 ∷ 0 ∷ 0 ∷ 0 ∷ 0 ∷ 0 ∷ 0 ∷ 0 ∷ 0 ∷ 0 ∷ 0 ∷ 0 ∷ 0 ∷ 0 ∷ 0 ∷ 0 ∷ 0 ∷ 0 ∷ 0 ∷ 0
      ∷ 0 ∷ 0 ∷ 0 ∷ 0 ∷ 0 ∷ 0 ∷ 0 ∷ 0 ∷ [];
}

abbrev printers : Printers
printers = record {
  hex_encode = λ bytes. "07";
  show = λ n. "5";
  show_socket = λ a. "10.0.0.1:5";
  show_ip = λ a. "10.0.0.1";
}

abbrev written : List Line
written =
    ("set", "1")
    ∷ ("private_key", "07")
    ∷ ("fwmark", "5")
    ∷ ("listen_port", "5")
    ∷ ("replace_peers", "true")
    ∷ ("public_key", "07")
    ∷ ("replace_allowed_ips", "true")
    ∷ ("remove", "true")
    ∷ ("preshared_key", "07")
    ∷ ("endpoint", "10.0.0.1:5")
    ∷ ("persistent_keepalive_interval", "5")
    ∷ ("allowed_ip", "10.0.0.1/5")
    ∷ ("errno", "0")
    ∷ []

abbrev parsers : Parsers
parsers = record {
  split_pair = λ line. find (λ pair. text pair == line) written;
  split_slash = λ line. "10.0.0.1" ∷ "5" ∷ [];
  hex_decode = λ line. some key.bytes;
  parse_ip = λ line. some (v4 167772161);
  parse_socket = λ line. some (record { ip = v4 167772161; port = 5 });
  parse_u8 = λ line. some 5;
  parse_u16 = λ line. some 5;
  parse_u32 = λ line. some 5;
  parse_u64 = λ line. some 5;
  is_errno = λ line. true;
  generate_public = λ k. k;
}

abbrev peer : PeerConfigBuilder
peer = record {
  public_key = key;
  preshared_key = some key;
  endpoint = some (record { ip = v4 167772161; port = 5 });
  persistent_keepalive_interval = some 5;
  allowed_ips = record { address = v4 167772161; cidr = 5 } ∷ [];
  replace_allowed_ips = true;
  remove_me = true;
}

abbrev builder : DeviceConfigBuilder
builder = record {
  public_key = none;
  private_key = some key;
  fwmark = some 5;
  listen_port = some 5;
  peers = peer ∷ [];
  replaces_peers = true;
}

is_written : closed parsers printers builder ≡ written
unfolding request
is_written = refl

peer-IsPeerRead : IsPeerRead parsers printers peer
unfolding from_hex parse_allowed_ip
peer-IsPeerRead = record {
  public_key = refl;
  preshared_key = λ k got. got;
  endpoint = λ a got. got;
  persistent_keepalive_interval = λ n got. got;
  allowed_ips = (refl, tt);
}

builder-IsRead : IsRead parsers printers builder
unfolding from_hex request all_peer_lines peer_lines allowed_lines
builder-IsRead = record {
  lines = (
    refl,
    (
      refl,
      (refl, (refl, (refl, (refl, (refl, (refl, (refl, (refl, (refl, (refl, (refl, tt))))))))))),
    ),
  );
  private_key = λ k got. got;
  fwmark = λ n got. got;
  listen_port = λ n got. got;
  peers = (peer-IsPeerRead, tt);
}

is_applied :
    apply printers (λ line. some (some ("errno", "0"))) false (some true) true builder ≡ applied
unfolding apply answer
is_applied = refl

is_refused :
    apply printers (λ line. some (some ("errno", "22"))) true none true builder ≡ invalid_input
unfolding apply answer
is_refused = refl

add_lines-request_example :
    add_lines parsers (map text (closed parsers printers builder)) (new "wg0" none)
    ≡ done (record { device_info = reported (λ k. k) "wg0" none builder; current_peer = none })
add_lines-request_example = add_lines-request parsers printers builder "wg0" none builder-IsRead
