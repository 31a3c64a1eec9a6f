-- ===== src/Wg/DeviceBuilder.antt =====
-- wgctrl-rs/src/config.rs: `DeviceConfigBuilder`, what is to be changed of one interface.
use innernet.Prelude.{ℕ, Bool, true, false, Option, none, some, List, [], ◌∷◌, ◌++◌}
use innernet.Wg.{Key, zero_key, KeyPair}
use innernet.Wg.PeerBuilder
use innernet.Wg.PeerBuilder.{PeerConfigBuilder}

pub record DeviceConfigBuilder : Type 0 where
  pub public_key : Option Key
  pub private_key : Option Key
  pub fwmark : Option ℕ
  pub listen_port : Option ℕ
  pub peers : List PeerConfigBuilder
  pub replaces_peers : Bool

unfoldable pub new : DeviceConfigBuilder
new = record {
  public_key = none;
  private_key = none;
  fwmark = none;
  listen_port = none;
  peers = [];
  replaces_peers = false;
}

unfoldable pub set_public_key : DeviceConfigBuilder → Key → DeviceConfigBuilder
set_public_key b key = record b { public_key = some key }

unfoldable pub set_private_key : DeviceConfigBuilder → Key → DeviceConfigBuilder
set_private_key b key = record b { private_key = some key }

unfoldable pub set_keypair : DeviceConfigBuilder → KeyPair → DeviceConfigBuilder
unfolding set_public_key set_private_key
set_keypair b pair = set_private_key (set_public_key b pair.public) pair.private

unfoldable pub unset_public_key : DeviceConfigBuilder → DeviceConfigBuilder
unfolding set_public_key
unset_public_key b = set_public_key b zero_key

unfoldable pub unset_private_key : DeviceConfigBuilder → DeviceConfigBuilder
unfolding set_private_key
unset_private_key b = set_private_key b zero_key

unfoldable pub set_fwmark : DeviceConfigBuilder → ℕ → DeviceConfigBuilder
set_fwmark b fwmark = record b { fwmark = some fwmark }

unfoldable pub unset_fwmark : DeviceConfigBuilder → DeviceConfigBuilder
unfolding set_fwmark
unset_fwmark b = set_fwmark b 0

unfoldable pub set_listen_port : DeviceConfigBuilder → ℕ → DeviceConfigBuilder
set_listen_port b port = record b { listen_port = some port }

unfoldable pub randomize_listen_port : DeviceConfigBuilder → DeviceConfigBuilder
unfolding set_listen_port
randomize_listen_port b = set_listen_port b 0

unfoldable pub add_peer : DeviceConfigBuilder → PeerConfigBuilder → DeviceConfigBuilder
add_peer b peer = record b { peers = b.peers ++ peer ∷ [] }

unfoldable pub add_peer_with :
    DeviceConfigBuilder → Key → (PeerConfigBuilder → PeerConfigBuilder) → DeviceConfigBuilder
unfolding add_peer
add_peer_with b pubkey builder = add_peer b (builder (PeerBuilder.new pubkey))

unfoldable pub add_peers : DeviceConfigBuilder → List PeerConfigBuilder → DeviceConfigBuilder
add_peers b peers = record b { peers = b.peers ++ peers }

unfoldable pub replace_peers : DeviceConfigBuilder → DeviceConfigBuilder
replace_peers b = record b { replaces_peers = true }

unfoldable pub remove_peer_by_key : DeviceConfigBuilder → Key → DeviceConfigBuilder
unfolding add_peer
remove_peer_by_key b public_key =
    let peer = PeerBuilder.new public_key in add_peer b (record peer { remove_me = true })
