-- ===== src/Wg/Userspace/Requests.antt =====
-- wgctrl-rs/src/backends/userspace.rs: `apply`, the request to a device, and what it would read of it.
-- A line is its key and its value; the texts of numbers, keys and addresses are made by parameters.
use innernet.Prelude.{
  ℕ, String, Bool, true, false, Option, none, some, List, [], ◌∷◌, ◌++◌, map, if◌then◌else◌, ◌==◌,
  nat_eq, string_eq, option_eq,
}
use Prim.Native.String.{◌++◌ as string_append}
use innernet.Net.{IpAddr, SocketAddr}
use innernet.Wg.{Key, AllowedIp, DeviceInfo}
use innernet.Wg.PeerBuilder.{PeerConfigBuilder, into_peer_config}
use innernet.Wg.DeviceBuilder.{DeviceConfigBuilder}

pub record Printers : Type 0 where
  pub hex_encode : List ℕ → String
  pub show : ℕ → String
  pub show_socket : SocketAddr → String
  pub show_ip : IpAddr → String

abbrev pub Line : Type 0
Line = String × String

-- `{key}={value}`
abbrev pub text : Line → String
text (key, value) = string_append key (string_append "=" value)

abbrev pub when : Bool → Line → List Line
when b line = if b then line ∷ [] else []

module _ (t : Printers) where
  abbrev pub line_of : {A : Type 0} → String → (A → String) → Option A → List Line
  line_of key f none = []
  line_of key f (some a) = (key, f a) ∷ []

  abbrev pub hex : Key → String
  hex k = t.hex_encode k.bytes

  abbrev pub show_allowed : AllowedIp → String
  show_allowed ip = string_append (t.show_ip ip.address) (string_append "/" (t.show ip.cidr))

  unfoldable pub allowed_lines : List AllowedIp → List Line
  allowed_lines ips = map (λ ip. ("allowed_ip", show_allowed ip)) ips

  unfoldable pub peer_lines : PeerConfigBuilder → List Line
  unfolding allowed_lines
  peer_lines peer =
      ("public_key", hex peer.public_key)
      ∷ (when peer.replace_allowed_ips ("replace_allowed_ips", "true")
          ++ (when peer.remove_me ("remove", "true")
              ++ (line_of "preshared_key" hex peer.preshared_key
                  ++ (line_of "endpoint" t.show_socket peer.endpoint
                      ++ (line_of "persistent_keepalive_interval" t.show
                            peer.persistent_keepalive_interval
                          ++ allowed_lines peer.allowed_ips)))))

  unfoldable pub all_peer_lines : List PeerConfigBuilder → List Line
  unfolding peer_lines
  all_peer_lines [] = []
  all_peer_lines (peer ∷ peers) = peer_lines peer ++ all_peer_lines peers

  unfoldable pub request : DeviceConfigBuilder → List Line
  unfolding all_peer_lines
  request builder =
      ("set", "1")
      ∷ (line_of "private_key" hex builder.private_key
          ++ (line_of "fwmark" t.show builder.fwmark
              ++ (line_of "listen_port" t.show builder.listen_port
                  ++ (when builder.replaces_peers ("replace_peers", "true")
                      ++ all_peer_lines builder.peers))))

  -- The text that is written: every line, and an empty one.
  abbrev pub joined : List Line → String
  joined [] = "\n"
  joined (line ∷ lines) = string_append (text line) (string_append "\n" (joined lines))

-- How `apply` ends; `passed_on` is an error of the operating system.
pub data Applied : Type 0 where
  applied invalid_input other address_not_available passed_on : Applied

-- The answer is one line, cut at the first `=`; `none` is a line with no `=`.
unfoldable pub answer : Option Line → Applied
answer none = other
answer (some (key, value)) =
    if key == "errno" then (if value == "0" then applied else invalid_input) else other

-- Writing the request and reading the first line of the answer may fail.
abbrev pub exchange : Option (Option Line) → Applied
exchange none = passed_on
exchange (some line) = answer line

-- The socket is opened, or else `wireguard-go` is run, with a status, and the socket opened then.
unfoldable pub apply :
    Printers
    → (String → Option (Option Line))
    → Bool
    → Option Bool
    → Bool
    → DeviceConfigBuilder
    → Applied
unfolding request
apply t send true status reopens builder = exchange (send (joined t (request t builder)))
apply t send false none reopens builder = passed_on
apply t send false (some false) reopens builder = address_not_available
apply t send false (some true) false builder = passed_on
apply t send false (some true) true builder = exchange (send (joined t (request t builder)))

-- What a device that takes the request would report of itself.
unfoldable pub reported : (Key → Key) → String → Option String → DeviceConfigBuilder → DeviceInfo
reported generate_public name linked_name b = record {
  name = name;
  public_key = elim b.private_key [ none ↦ none | some key ↦ some (generate_public key) ];
  private_key = b.private_key;
  fwmark = b.fwmark;
  listen_port = b.listen_port;
  peers =
      map
        (λ p. record {
          config = into_peer_config p;
          stats = record { last_handshake_time = none; rx_bytes = 0; tx_bytes = 0 };
        })
        b.peers;
  linked_name = linked_name;
}
