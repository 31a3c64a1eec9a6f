-- ===== src/Shared/Commands.antt =====
-- shared/src/wg.rs on Linux: what brings an interface up, and what changes its port. A command of the
-- system is its arguments; a text of an address is made by the parameter `show`.
use innernet.Prelude.{ℕ, String, Bool, false, Option, none, some, List, [], ◌∷◌, if◌then◌else◌}
use innernet.Net.{IpAddr, is_ipv4, SocketAddr, IpNetwork}
use innernet.Wg.{Base64, Key, from_base64}
use innernet.Wg.PeerBuilder
use innernet.Wg.DeviceBuilder
use innernet.Wg.DeviceBuilder.{DeviceConfigBuilder}

-- The commands that `set_addr` runs: an error of the first ends it, one of the second is ignored.
module _ (show : IpNetwork → String) where
  unfoldable pub set_addr : String → IpNetwork → List (List String)
  set_addr interface addr =
      ("ip" ∷ "address" ∷ "replace" ∷ show addr ∷ "dev" ∷ interface ∷ [])
      ∷ ("ip" ∷ "link" ∷ "set" ∷ "mtu" ∷ "1420" ∷ "up" ∷ "dev" ∷ interface ∷ [])
      ∷ []

  -- An error of the command is ignored, and the result is `Ok(false)`.
  unfoldable pub add_route : String → IpNetwork → List String × Bool
  add_route interface cidr = ("ip" ∷ "route" ∷ "add" ∷ show cidr ∷ "dev" ∷ interface ∷ [], false)

-- The configuration that `up` applies: `none` for the error of a peer's key that is none, and for the
-- panic of a private key that is none.
abbrev pub with_private_key : DeviceConfigBuilder → Option Key → Option DeviceConfigBuilder
with_private_key device none = none
with_private_key device (some key) = some (DeviceBuilder.set_private_key device key)

abbrev pub with_port : Option ℕ → DeviceConfigBuilder → DeviceConfigBuilder
with_port none device = device
with_port (some port) device = DeviceBuilder.set_listen_port device port

abbrev pub server_peer : Key → IpAddr → SocketAddr → DeviceConfigBuilder
server_peer key address endpoint =
    let prefix : ℕ = if is_ipv4 address then 32 else 128 in
    DeviceBuilder.add_peer DeviceBuilder.new (
      PeerBuilder.set_endpoint (PeerBuilder.add_allowed_ip (PeerBuilder.new key) address prefix)
        endpoint)

module _ (base64 : Base64) where
  abbrev pub with_peer : Option (String × IpAddr × SocketAddr) → Option DeviceConfigBuilder
  with_peer none = some DeviceBuilder.new
  with_peer (some (public_key, address, endpoint)) = elim (from_base64 base64 public_key) [
    | none ↦ none
    | some key ↦ some (server_peer key address endpoint)
  ]

  unfoldable pub up_config :
      String → Option ℕ → Option (String × IpAddr × SocketAddr) → Option DeviceConfigBuilder
  up_config private_key listen_port peer = elim (with_peer peer) [
    | none ↦ none
    | some device ↦ with_private_key (with_port listen_port device) (from_base64 base64 private_key)
  ]

unfoldable pub set_listen_port : Option ℕ → DeviceConfigBuilder
set_listen_port none = DeviceBuilder.randomize_listen_port DeviceBuilder.new
set_listen_port (some port) = DeviceBuilder.set_listen_port DeviceBuilder.new port
