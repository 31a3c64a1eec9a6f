-- ===== src/Wg/PeerBuilder.antt =====
-- wgctrl-rs/src/config.rs: `PeerConfigBuilder`, what is to be changed of one peer.
use innernet.Prelude.{ℕ, ◌≡◌, Bool, true, false, Option, none, some, List, [], ◌∷◌, ◌++◌, arith}
use innernet.Net.{IpAddr, v4, v6, SocketAddr}
use innernet.Wg.{Key, zero_key, AllowedIp, PeerConfig}

pub record PeerConfigBuilder : Type 0 where
  pub public_key : Key
  pub preshared_key : Option Key
  pub endpoint : Option SocketAddr
  pub persistent_keepalive_interval : Option ℕ
  pub allowed_ips : List AllowedIp
  pub replace_allowed_ips : Bool
  pub remove_me : Bool

unfoldable pub new : Key → PeerConfigBuilder
new key = record {
  public_key = key;
  preshared_key = none;
  endpoint = none;
  persistent_keepalive_interval = none;
  allowed_ips = [];
  replace_allowed_ips = false;
  remove_me = false;
}

unfoldable pub set_preshared_key : PeerConfigBuilder → Key → PeerConfigBuilder
set_preshared_key b key = record b { preshared_key = some key }

unfoldable pub unset_preshared_key : PeerConfigBuilder → PeerConfigBuilder
unfolding set_preshared_key
unset_preshared_key b = set_preshared_key b zero_key

unfoldable pub set_endpoint : PeerConfigBuilder → SocketAddr → PeerConfigBuilder
set_endpoint b address = record b { endpoint = some address }

unfoldable pub set_persistent_keepalive_interval : PeerConfigBuilder → ℕ → PeerConfigBuilder
set_persistent_keepalive_interval b interval = record b {
  persistent_keepalive_interval = some interval;
}

unfoldable pub disable_persistent_keepalive : PeerConfigBuilder → PeerConfigBuilder
unfolding set_persistent_keepalive_interval
disable_persistent_keepalive b = set_persistent_keepalive_interval b 0

unfoldable pub add_allowed_ip : PeerConfigBuilder → IpAddr → ℕ → PeerConfigBuilder
add_allowed_ip b address cidr = record b {
  allowed_ips = b.allowed_ips ++ record { address = address; cidr = cidr } ∷ [];
}

unfoldable pub add_allowed_ips : PeerConfigBuilder → List AllowedIp → PeerConfigBuilder
add_allowed_ips b ips = record b { allowed_ips = b.allowed_ips ++ ips }

unfoldable pub allow_all_ips : PeerConfigBuilder → PeerConfigBuilder
unfolding add_allowed_ip
allow_all_ips b = add_allowed_ip (add_allowed_ip b (v4 0) 0) (v6 0) 0

unfoldable pub replace_allowed_ips : PeerConfigBuilder → PeerConfigBuilder
replace_allowed_ips b = record b { replace_allowed_ips = true }

unfoldable pub remove : PeerConfigBuilder → PeerConfigBuilder
remove b = record b { remove_me = true }

unfoldable pub into_peer_config : PeerConfigBuilder → PeerConfig
into_peer_config b = record {
  public_key = b.public_key;
  preshared_key = b.preshared_key;
  endpoint = b.endpoint;
  persistent_keepalive_interval = b.persistent_keepalive_interval;
  allowed_ips = b.allowed_ips;
}

-- `if let Some(x) = … { builder = builder.set(x) }`
abbrev pub set_some :
    {A : Type 0}
    → (PeerConfigBuilder → A → PeerConfigBuilder)
    → Option A
    → PeerConfigBuilder
    → PeerConfigBuilder
set_some set none b = b
set_some set (some x) b = set b x

unfoldable pub from_peer_config : PeerConfig → PeerConfigBuilder
unfolding new set_preshared_key set_endpoint set_persistent_keepalive_interval replace_allowed_ips
    add_allowed_ips
from_peer_config config =
    let b0 = new config.public_key in
    let b1 = set_some set_preshared_key config.preshared_key b0 in
    let b2 = set_some set_endpoint config.endpoint b1 in
    let b3 = set_some set_persistent_keepalive_interval config.persistent_keepalive_interval b2 in
    add_allowed_ips (replace_allowed_ips b3) config.allowed_ips

-- A configuration turned into a builder and back is unchanged, and the builder replaces the
-- allowed addresses and removes nothing.
into_peer_config-from_peer_config :
    (c : PeerConfig)
    → (into_peer_config (from_peer_config c) ≡ c)
      × ((from_peer_config c).replace_allowed_ips ≡ true)
      × ((from_peer_config c).remove_me ≡ false)
unfolding into_peer_config from_peer_config
into_peer_config-from_peer_config c = ground arith
