-- ===== src/Wg/Kernel.antt =====
-- wgctrl-rs/src/backends/kernel.rs: the structures that the C library takes and gives, and their
-- conversions. A cell of the heap is what `Box::into_raw` left there. A number in network order is
-- the number that its bytes spell, so `to_be` and `from_be` are not seen; `none` is a panic or a
-- fault.
pub mod Pointers
pub mod Encodes
pub mod Device
pub mod Applies
pub mod Enumerate
mod Tests
use innernet.Prelude.{
  ℕ, ◌+◌, ◌*◌, ◌/◌, ◌%◌, ◌^◌, Bool, true, false, Option, none, some, List, [], ◌∷◌, ◌++◌,
  if◌then◌else◌, ◌==◌, nat_eq, string_eq, option_eq, length,
}
use innernet.Net.{IpAddr, v4, v6, SocketAddr}
use innernet.Wg.{Key, zero_key, AllowedIp, PeerConfig, PeerInfo, DeviceInfo}
use innernet.Wg.PeerBuilder.{PeerConfigBuilder}
use innernet.Wg.DeviceBuilder.{DeviceConfigBuilder}
use innernet.Wg.Kernel.Pointers.{Pointer, or_first, parse}

-- The families on Linux, and the flags of wireguard.h, each of one bit.
abbrev pub af_inet : ℕ
af_inet = 2

abbrev pub af_inet6 : ℕ
af_inet6 = 10

abbrev pub wgpeer_remove_me : ℕ
wgpeer_remove_me = 1

abbrev pub wgpeer_replace_allowedips : ℕ
wgpeer_replace_allowedips = 2

abbrev pub wgpeer_has_public_key : ℕ
wgpeer_has_public_key = 4

abbrev pub wgpeer_has_preshared_key : ℕ
wgpeer_has_preshared_key = 8

abbrev pub wgpeer_has_persistent_keepalive_interval : ℕ
wgpeer_has_persistent_keepalive_interval = 16

-- `flags & bit` is not zero, and `flags |= bit`.
abbrev pub has_flag : ℕ → ℕ → Bool
has_flag flags bit = flags / bit % 2 == 1

abbrev pub set_flag : Bool → ℕ → ℕ → ℕ
set_flag wanted bit flags =
    if wanted then (if has_flag flags bit then flags else flags + bit) else flags

-- The union of an IPv4 address and an IPv6 address is its 16 bytes: the first four are `ip4`.
pub record WgAllowedip : Type 0 where
  pub family : ℕ
  pub address : ℕ
  pub cidr : ℕ
  pub next_allowedip : Pointer

-- The union of `sockaddr_in` and `sockaddr_in6`: bytes 0, 2, 4 to 8 (`sin_addr`, and the flow
-- information of IPv6), 8 to 24 (`sin6_addr`) and 24 to 28.
pub record WgEndpoint : Type 0 where
  pub sa_family : ℕ
  pub port : ℕ
  pub sin_addr : ℕ
  pub sin6_addr : ℕ
  pub sin6_scope_id : ℕ

pub record WgPeer : Type 0 where
  pub flags : ℕ
  pub public_key : Key
  pub preshared_key : Key
  pub endpoint : WgEndpoint
  pub tv_sec : ℕ
  pub tv_nsec : ℕ
  pub rx_bytes : ℕ
  pub tx_bytes : ℕ
  pub persistent_keepalive_interval : ℕ
  pub first_allowedip : Pointer
  pub last_allowedip : Pointer
  pub next_peer : Pointer

pub record Heap : Type 0 where
  pub allowedips : List WgAllowedip
  pub peers : List WgPeer

unfoldable pub from_wg_allowedip : WgAllowedip → Option AllowedIp
from_wg_allowedip raw =
    if raw.family == af_inet
    then some (record { address = v4 (raw.address / 2 ^ 96); cidr = raw.cidr })
    else if raw.family == af_inet6
    then some (record { address = v6 raw.address; cidr = raw.cidr })
    else none

unfoldable pub parse_allowed_ips : List WgAllowedip → WgPeer → Option (List AllowedIp)
unfolding parse
parse_allowed_ips cells peer =
    parse from_wg_allowedip (λ ip. ip.next_allowedip) cells peer.first_allowedip peer.last_allowedip

unfoldable pub parse_endpoint : WgEndpoint → Option (Option SocketAddr)
parse_endpoint endpoint =
    if endpoint.sa_family == af_inet
    then some (some (record { ip = v4 endpoint.sin_addr; port = endpoint.port }))
    else if endpoint.sa_family == af_inet6
    then some (some (record { ip = v6 endpoint.sin6_addr; port = endpoint.port }))
    else if endpoint.sa_family == 0
    then some none
    else none

abbrev pub nonzero : ℕ → Option ℕ
nonzero n = if n == 0 then none else some n

abbrev pub peer_info : WgPeer → Option SocketAddr → List AllowedIp → PeerInfo
peer_info raw endpoint allowed_ips = record {
  config = record {
    public_key = raw.public_key;
    preshared_key =
        if has_flag raw.flags wgpeer_has_preshared_key then some raw.preshared_key else none;
    endpoint = endpoint;
    persistent_keepalive_interval = nonzero raw.persistent_keepalive_interval;
    allowed_ips = allowed_ips;
  };
  stats = record {
    last_handshake_time = nonzero (raw.tv_sec * 1000000000 + raw.tv_nsec);
    rx_bytes = raw.rx_bytes;
    tx_bytes = raw.tx_bytes;
  };
}

unfoldable pub from_wg_peer : List WgAllowedip → WgPeer → Option PeerInfo
unfolding parse_allowed_ips parse_endpoint
from_wg_peer cells raw = elim (parse_endpoint raw.endpoint) [
  | none ↦ none
  | some endpoint ↦ elim (parse_allowed_ips cells raw) [
    | none ↦ none
    | some allowed_ips ↦ some (peer_info raw endpoint allowed_ips)
  ]
]

unfoldable pub parse_peers : Heap → Pointer → Pointer → Option (List PeerInfo)
unfolding parse from_wg_peer
parse_peers heap first_peer last_peer =
    parse (from_wg_peer heap.allowedips) (λ peer. peer.next_peer) heap.peers first_peer last_peer

-- One turn of the loop of `encode_allowedips`.
abbrev pub wg_allowedip : AllowedIp → Pointer → WgAllowedip
wg_allowedip ip next = elim ip.address [
  | v4 a ↦ record { family = af_inet; address = a * 2 ^ 96; cidr = ip.cidr; next_allowedip = next }
  | v6 a ↦ record { family = af_inet6; address = a; cidr = ip.cidr; next_allowedip = next }
]

unfoldable pub encode_allowedips :
    List AllowedIp → Heap → Pointer → Pointer → Heap × Pointer × Pointer
encode_allowedips [] heap first_ip last_ip = (heap, first_ip, last_ip)
encode_allowedips (ip ∷ ips) heap first_ip last_ip =
    encode_allowedips ips
      (record heap { allowedips = heap.allowedips ++ wg_allowedip ip first_ip ∷ [] })
      (some (length heap.allowedips)) (or_first last_ip (length heap.allowedips))

-- The address of IPv6 is written to a copy of the structure, that of the block `unsafe { … }`.
unfoldable pub encode_endpoint : Option SocketAddr → WgEndpoint
encode_endpoint none = record {
  sa_family = 0;
  port = 0;
  sin_addr = 0;
  sin6_addr = 0;
  sin6_scope_id = 0;
}
encode_endpoint (some s) = elim s.ip [
  | v4 a ↦ record {
    sa_family = af_inet;
    port = s.port;
    sin_addr = a;
    sin6_addr = 0;
    sin6_scope_id = 0;
  }
  | v6 a ↦ record {
    sa_family = af_inet6;
    port = s.port;
    sin_addr = 0;
    sin6_addr = 0;
    sin6_scope_id = 0;
  }
]

abbrev pub is_some : {A : Type 0} → Option A → Bool
is_some none = false
is_some (some x) = true

abbrev pub or_default : {A : Type 0} → A → Option A → A
or_default d none = d
or_default d (some x) = x

unfoldable pub peer_flags : PeerConfigBuilder → ℕ
peer_flags peer =
    let f0 = wgpeer_has_public_key in
    let f1 = set_flag (is_some peer.preshared_key) wgpeer_has_preshared_key f0 in
    let f2 =
      set_flag (is_some peer.persistent_keepalive_interval) wgpeer_has_persistent_keepalive_interval
        f1 in
    let f3 = set_flag peer.replace_allowed_ips wgpeer_replace_allowedips f2 in
    set_flag peer.remove_me wgpeer_remove_me f3

-- One turn of the loop of `encode_peers`, once the allowed addresses are on the heap.
unfoldable pub wg_peer : PeerConfigBuilder → Pointer → Pointer → Pointer → WgPeer
unfolding encode_endpoint peer_flags
wg_peer peer first_allowedip last_allowedip next = record {
  flags = peer_flags peer;
  public_key = peer.public_key;
  preshared_key = or_default zero_key peer.preshared_key;
  endpoint = encode_endpoint peer.endpoint;
  tv_sec = 0;
  tv_nsec = 0;
  rx_bytes = 0;
  tx_bytes = 0;
  persistent_keepalive_interval = or_default 0 peer.persistent_keepalive_interval;
  first_allowedip = first_allowedip;
  last_allowedip = last_allowedip;
  next_peer = next;
}

unfoldable pub encode_peers :
    List PeerConfigBuilder → Heap → Pointer → Pointer → Heap × Pointer × Pointer
unfolding encode_allowedips wg_peer
encode_peers [] heap first_peer last_peer = (heap, first_peer, last_peer)
encode_peers (peer ∷ peers) heap first_peer last_peer =
    let ips = encode_allowedips peer.allowed_ips heap none none in
    encode_peers peers
      (record (ips.0) { peers = ips.0.peers ++ wg_peer peer ips.1 ips.2 first_peer ∷ [] })
      (some (length ips.0.peers)) (or_first last_peer (length ips.0.peers))
