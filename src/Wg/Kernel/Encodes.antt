-- ===== src/Wg/Kernel/Encodes.antt =====
-- What `encode_peers` puts on the heap, read back by `parse_peers`.
use innernet.Prelude.{
  ℕ, ◌*◌, ◌/◌, ◌^◌, ◌≡◌, refl, sym, ap, ◌∙◌, subst, inl, inr, Bool, Option, none, some, List, [],
  ◌∷◌, ◌++◌, map, arith, Option-cases, length, reverse, reverse_aux, append_assoc, append-nil,
}
use innernet.Net.{IpAddr, v4, v6, SocketAddr}
use innernet.Wg.{AllowedIp, PeerInfo}
use innernet.Wg.PeerBuilder.{PeerConfigBuilder}
use innernet.Wg.Kernel.Pointers.{
  Pointer, or_first, parse-append, Holds, Holds-nil, Holds-push, parse-Holds, Holds-read,
}
use innernet.Wg.Kernel.{
  WgAllowedip, WgPeer, Heap, from_wg_allowedip, wg_allowedip, parse_allowed_ips, parse_endpoint,
  parse_peers, nonzero, from_wg_peer, encode_allowedips, encode_endpoint, encode_peers, wg_peer,
  peer_info, peer_flags, has_flag, set_flag, is_some,
}

from_wg_allowedip-wg_allowedip :
    (ip : AllowedIp) (next : Pointer) → from_wg_allowedip (wg_allowedip ip next) ≡ some ip
unfolding from_wg_allowedip
from_wg_allowedip-wg_allowedip ip next = by_family ip.address ip.cidr
  where
    by_family :
        (address : IpAddr) (cidr : ℕ)
        → let made : AllowedIp = record { address = address; cidr = cidr } in
          from_wg_allowedip (wg_allowedip made next) ≡ some made
    by_family (v4 a) cidr =
        let whole : a * 2 ^ 96 / 2 ^ 96 ≡ a = omega arith in
        ap (λ x. some (record { address = v4 x; cidr = cidr })) whole
    by_family (v6 a) cidr = refl

next-wg_allowedip : (ip : AllowedIp) (next : Pointer) → (wg_allowedip ip next).next_allowedip ≡ next
next-wg_allowedip ip next = by_family ip.address ip.cidr
  where
    by_family :
        (address : IpAddr) (cidr : ℕ)
        → (wg_allowedip (record { address = address; cidr = cidr }) next).next_allowedip ≡ next
    by_family (v4 a) cidr = refl
    by_family (v6 a) cidr = refl

-- The list of allowed addresses from `first` to `last`.
abbrev HoldsIps : Heap → Pointer → Pointer → List AllowedIp → Type 0
HoldsIps heap first last ips =
    Holds from_wg_allowedip (λ ip. ip.next_allowedip) heap.allowedips first last ips

-- The loop leaves the cells that are there, and links the addresses in the opposite order.
abbrev IsEncoded : Heap → Heap × Pointer × Pointer → List AllowedIp → Type 0
IsEncoded heap r ips =
    HoldsIps r.0 r.1 r.2 ips
    × ((more : List WgAllowedip) × (r.0.allowedips ≡ heap.allowedips ++ more))
    × (r.0.peers ≡ heap.peers)

encode_allowedips-IsEncoded :
    (ips : List AllowedIp) (heap : Heap) (first last : Pointer) (done : List AllowedIp)
    → HoldsIps heap first last done
    → IsEncoded heap (encode_allowedips ips heap first last) (reverse_aux ips done)
unfolding encode_allowedips
encode_allowedips-IsEncoded [] heap first last done h =
    (h, ([], sym (append-nil heap.allowedips)), refl)
encode_allowedips-IsEncoded (ip ∷ ips) heap first last done h =
    let node = wg_allowedip ip first in
    let heap' = record heap { allowedips = heap.allowedips ++ node ∷ [] } in
    let pushed =
      Holds-push from_wg_allowedip (λ (c : WgAllowedip). c.next_allowedip) heap.allowedips first
        last done node ip h (from_wg_allowedip-wg_allowedip ip first)
        (next-wg_allowedip ip first) in
    let (held, (more, grown), same) =
      encode_allowedips-IsEncoded ips heap' (some (length heap.allowedips))
        (or_first last (length heap.allowedips)) (ip ∷ done) pushed in
    (held, (node ∷ more, grown ∙ append_assoc heap.allowedips (node ∷ []) more), same)

-- What the other side receives of an endpoint.
pub received : Option SocketAddr → Option SocketAddr
received none = none
received (some s) = elim s.ip [ v4 a ↦ some s | v6 a ↦ some (record s { ip = v6 0 }) ]

parse_endpoint-encode_endpoint :
    (e : Option SocketAddr) → parse_endpoint (encode_endpoint e) ≡ some (received e)
unfolding parse_endpoint encode_endpoint received
parse_endpoint-encode_endpoint none = refl
parse_endpoint-encode_endpoint (some s) = by_family s.ip s.port
  where
    by_family :
        (ip : IpAddr) (port : ℕ)
        → let e : Option SocketAddr = some (record { ip = ip; port = port }) in
          parse_endpoint (encode_endpoint e) ≡ some (received e)
    by_family (v4 a) port = refl
    by_family (v6 a) port = refl

-- What the other side receives of a peer: its allowed addresses in the opposite order, and no
-- keepalive of 0.
pub described : PeerConfigBuilder → PeerInfo
described b = record {
  config = record {
    public_key = b.public_key;
    preshared_key = b.preshared_key;
    endpoint = received b.endpoint;
    persistent_keepalive_interval = elim b.persistent_keepalive_interval [
      | none ↦ none
      | some n ↦ nonzero n
    ];
    allowed_ips = reverse b.allowed_ips;
  };
  stats = record { last_handshake_time = none; rx_bytes = 0; tx_bytes = 0 };
}

has_preshared_key :
    (a b c d : Bool) → has_flag (set_flag d 1 (set_flag c 2 (set_flag b 16 (set_flag a 8 4)))) 8 ≡ a
has_preshared_key a b c d = ground arith

peer_info-wg_peer :
    (b : PeerConfigBuilder) (f l next : Pointer)
    → peer_info (wg_peer b f l next) (received b.endpoint) (reverse b.allowed_ips) ≡ described b
unfolding wg_peer described peer_flags
peer_info-wg_peer b f l next = ground (
  arith,
  has_preshared_key (is_some b.preshared_key) (is_some b.persistent_keepalive_interval)
      b.replace_allowed_ips b.remove_me,
)

from_wg_peer-append :
    (cells more : List WgAllowedip) (peer : WgPeer) (info : PeerInfo)
    → from_wg_peer cells peer ≡ some info
    → from_wg_peer (cells ++ more) peer ≡ some info
unfolding from_wg_peer parse_allowed_ips
from_wg_peer-append cells more peer info h = elim (Option-cases (parse_endpoint peer.endpoint)) [
  | inl e ↦ ground (arith, e)
  | inr (endpoint, e) ↦ elim (Option-cases (parse_allowed_ips cells peer)) [
    | inl a ↦ ground (arith, e, a)
    | inr (ips, a) ↦ ground (
      arith,
      e,
      a,
      parse-append from_wg_allowedip (λ (ip : WgAllowedip). ip.next_allowedip) cells more
          peer.first_allowedip peer.last_allowedip ips a,
    )
  ]
]

from_wg_peer-wg_peer :
    (b : PeerConfigBuilder) (heap : Heap) (f l next : Pointer)
    → HoldsIps heap f l (reverse b.allowed_ips)
    → from_wg_peer heap.allowedips (wg_peer b f l next) ≡ some (described b)
unfolding from_wg_peer parse_allowed_ips wg_peer
from_wg_peer-wg_peer b heap f l next h = ground (
  arith,
  parse_endpoint-encode_endpoint b.endpoint,
  peer_info-wg_peer b f l next,
  parse-Holds from_wg_allowedip (λ (ip : WgAllowedip). ip.next_allowedip) heap.allowedips f l
      (reverse b.allowed_ips) h,
)

abbrev HoldsPeers : Heap → Pointer → Pointer → List PeerInfo → Type 0
HoldsPeers heap first last infos =
    Holds (from_wg_peer heap.allowedips) (λ peer. peer.next_peer) heap.peers first last infos

HoldsPeers-grown :
    (heap heap' : Heap) (first last : Pointer) (done : List PeerInfo) (more : List WgAllowedip)
    → heap'.allowedips ≡ heap.allowedips ++ more
    → heap'.peers ≡ heap.peers
    → HoldsPeers heap first last done
    → HoldsPeers heap' first last done
HoldsPeers-grown heap heap' first last done more grown same h =
    subst
      (λ ps. Holds (from_wg_peer heap'.allowedips) (λ (p : WgPeer). p.next_peer) ps first last done)
      (sym same)
      (Holds-read (from_wg_peer heap.allowedips) (from_wg_peer heap'.allowedips)
        (λ (p : WgPeer). p.next_peer) heap.peers first last done
        (λ peer info r.
          subst (λ cells. from_wg_peer cells peer ≡ some info) (sym grown)
            (from_wg_peer-append heap.allowedips more peer info r))
        h)

encode_peers-Holds :
    (bs : List PeerConfigBuilder) (heap : Heap) (first last : Pointer) (done : List PeerInfo)
    → HoldsPeers heap first last done
    → let r : Heap × Pointer × Pointer = encode_peers bs heap first last in
      HoldsPeers r.0 r.1 r.2 (reverse_aux (map described bs) done)
unfolding encode_peers wg_peer
encode_peers-Holds [] heap first last done h = h
encode_peers-Holds (b ∷ bs) heap first last done h =
    let ips = encode_allowedips b.allowed_ips heap none none in
    let (held, (more, grown), same) =
      encode_allowedips-IsEncoded b.allowed_ips heap none none []
        (Holds-nil from_wg_allowedip (λ (ip : WgAllowedip). ip.next_allowedip) heap.allowedips) in
    let node = wg_peer b ips.1 ips.2 first in
    let before : HoldsPeers ips.0 first last done =
      HoldsPeers-grown heap ips.0 first last done more grown same h in
    let pushed =
      Holds-push (from_wg_peer ips.0.allowedips) (λ (p : WgPeer). p.next_peer) ips.0.peers first
        last done node (described b) before (from_wg_peer-wg_peer b ips.0 ips.1 ips.2 first held)
        refl in
    encode_peers-Holds bs (record (ips.0) { peers = ips.0.peers ++ node ∷ [] })
      (some (length ips.0.peers)) (or_first last (length ips.0.peers)) (described b ∷ done) pushed

-- The peers of a configuration, put on the heap for the C library and read back as those of a
-- device, are read to their end, and come back in the opposite order, each with its keys, its
-- keepalive (none for 0), its allowed addresses in the opposite order, and its endpoint: that of
-- IPv4 as it was, and of an endpoint of IPv6 only the port, with `::` as its address.
pub parse_peers-encode_peers :
    (bs : List PeerConfigBuilder) (heap : Heap)
    → let r : Heap × Pointer × Pointer = encode_peers bs heap none none in
      parse_peers r.0 r.1 r.2 ≡ some (reverse (map described bs))
unfolding parse_peers
parse_peers-encode_peers bs heap =
    let r = encode_peers bs heap none none in
    parse-Holds (from_wg_peer r.0.allowedips) (λ (p : WgPeer). p.next_peer) r.0.peers r.1 r.2
      (reverse (map described bs))
      (encode_peers-Holds bs heap none none []
        (Holds-nil (from_wg_peer heap.allowedips) (λ (p : WgPeer). p.next_peer) heap.peers))
