-- ===== src/Client/Show/Sort.antt =====
-- client/src/main.rs: the order in which `show` prints the peers of a device.
use innernet.Prelude.{
  ℕ, suc, Bool, true, false, ◌&&◌, Option, none, some, List, [], ◌∷◌, map, ltb, leb, if◌then◌else◌,
  ◌==◌, nat_eq, string_eq, option_eq, find,
}
use innernet.Net.{IpAddr, v4, v6}
use innernet.Shared.{Peer}
use innernet.Wg.{Base64, PeerInfo, to_base64}
use innernet.Client.Show.Texts.{Printed, shown, panicked}

-- `Reverse` of the last handshake: the latest is first, and none at all is last.
abbrev pub recent : PeerInfo → ℕ
recent peer = elim peer.stats.last_handshake_time [ none ↦ 0 | some at ↦ suc at ]

abbrev pub ip_leb : IpAddr → IpAddr → Bool
ip_leb (v4 x) (v4 y) = leb x y
ip_leb (v4 x) (v6 y) = true
ip_leb (v6 x) (v4 y) = false
ip_leb (v6 x) (v6 y) = leb x y

abbrev pub key_leb : PeerInfo × IpAddr → PeerInfo × IpAddr → Bool
key_leb a b =
    if ltb (recent b.0) (recent a.0) then true else (recent a.0 == recent b.0) && ip_leb a.1 b.1

-- The sort is stable: of equal peers the first stays first.
unfoldable pub insert : PeerInfo × IpAddr → List (PeerInfo × IpAddr) → List (PeerInfo × IpAddr)
insert a [] = a ∷ []
insert a (b ∷ rest) = let later = insert a rest in if key_leb a b then a ∷ b ∷ rest else b ∷ later

unfoldable pub sort : List (PeerInfo × IpAddr) → List (PeerInfo × IpAddr)
unfolding insert
sort [] = []
sort (a ∷ rest) = insert a (sort rest)

module _ (base64 : Base64) where
  abbrev pub known : List Peer → PeerInfo → Option Peer
  known peers peer = find (λ p. p.public_key == to_base64 base64 peer.config.public_key) peers

  -- Each peer with its key; `none` when a peer is not in the store.
  unfoldable pub keyed : List Peer → List PeerInfo → Option (List (PeerInfo × IpAddr))
  keyed peers [] = some []
  keyed peers (peer ∷ rest) =
      let later = keyed peers rest in
      elim (known peers peer) [
        | none ↦ none
        | some our_peer ↦ elim later [
          | none ↦ none
          | some pairs ↦ some ((peer, our_peer.ip) ∷ pairs)
        ]
      ]

  -- The key of a peer that is not in the store is the panic of `unwrap`; of fewer than two peers no
  -- key is asked for.
  unfoldable pub sort_by_key : List Peer → List PeerInfo → Printed (List PeerInfo)
  unfolding sort keyed
  sort_by_key peers [] = shown []
  sort_by_key peers (peer ∷ []) = shown (peer ∷ [])
  sort_by_key peers device_peers = elim (keyed peers device_peers) [
    | none ↦ panicked
    | some pairs ↦ shown (map (λ a. a.0) (sort pairs))
  ]
