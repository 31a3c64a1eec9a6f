-- ===== src/Server/Endpoints.antt =====
-- server/src/endpoints.rs: the thread that looks at the interface once a second, and notes from
-- where each peer was last heard.
use innernet.Prelude.{
  String, ◌≡◌, refl, inl, inr, Option, none, some, List, [], ◌∷◌, arith, if◌then◌else◌, Bool-cases,
  Option-cases, ◌==◌, ==_iff, nat_eq, string_eq, option_eq,
}
use innernet.Net.{SocketAddr}
use innernet.Wg.{Base64, to_base64, PeerInfo, DeviceInfo}
use innernet.Server.Api.{lookup}

-- `DashMap::insert`: the value of a key is replaced.
unfoldable pub insert :
    String → SocketAddr → List (String × SocketAddr) → List (String × SocketAddr)
insert k v [] = (k, v) ∷ []
insert k v (entry ∷ m) = if entry.0 == k then (k, v) ∷ m else entry ∷ insert k v m

module _ (base64 : Base64) where
  abbrev pub note_peer : PeerInfo → List (String × SocketAddr) → List (String × SocketAddr)
  note_peer peer endpoints = elim peer.config.endpoint [
    | none ↦ endpoints
    | some endpoint ↦ insert (to_base64 base64 peer.config.public_key) endpoint endpoints
  ]

  unfoldable pub note_peers :
      List PeerInfo → List (String × SocketAddr) → List (String × SocketAddr)
  note_peers [] endpoints = endpoints
  note_peers (peer ∷ peers) endpoints = note_peers peers (note_peer peer endpoints)

  -- One turn of the loop; `none` is a device that cannot be read.
  unfoldable pub watch : Option DeviceInfo → List (String × SocketAddr) → List (String × SocketAddr)
  unfolding note_peers
  watch none endpoints = endpoints
  watch (some info) endpoints = note_peers info.peers endpoints

lookup-insert :
    (j k : String) (v : SocketAddr) (m : List (String × SocketAddr))
    → lookup j (insert k v m) ≡ (if j == k then some v else lookup j m)
unfolding lookup insert
lookup-insert j k v [] = ground (arith, ==_iff j k, ==_iff k j)
lookup-insert j k v (entry ∷ m) = elim (Bool-cases (entry.0 == k)) [
  | inl e ↦ ground (arith, e, ==_iff entry.0 k, ==_iff j k, ==_iff k j)
  | inr e ↦ ground (arith, e, ==_iff entry.0 k, ==_iff j k, ==_iff entry.0 j, lookup-insert j k v m)
]

abbrev pub or_else : Option SocketAddr → Option SocketAddr → Option SocketAddr
or_else (some v) o = some v
or_else none o = o

-- What the interface says of a key: the endpoint of the last peer with this key that has one.
module _ (base64 : Base64) where
  pub heard : String → List PeerInfo → Option SocketAddr
  heard key [] = none
  heard key (peer ∷ peers) = elim (heard key peers) [
    | some endpoint ↦ some endpoint
    | none ↦ if to_base64 base64 peer.config.public_key == key then peer.config.endpoint else none
  ]

  lookup-note_peer :
      (key : String) (peer : PeerInfo) (m : List (String × SocketAddr))
      → lookup key (note_peer base64 peer m) ≡ or_else (heard key (peer ∷ [])) (lookup key m)
  unfolding heard
  lookup-note_peer key peer m = elim (Option-cases peer.config.endpoint) [
    | inl e ↦ ground (arith, e)
    | inr (v, e) ↦ ground (
      arith,
      e,
      ==_iff key (to_base64 base64 peer.config.public_key),
      ==_iff (to_base64 base64 peer.config.public_key) key,
      lookup-insert key (to_base64 base64 peer.config.public_key) v m,
    )
  ]

  lookup-note_peers :
      (key : String) (peers : List PeerInfo) (m : List (String × SocketAddr))
      → lookup key (note_peers base64 peers m) ≡ or_else (heard key peers) (lookup key m)
  unfolding heard note_peers
  lookup-note_peers key [] m = refl
  lookup-note_peers key (peer ∷ peers) m =
      ground
        (arith, lookup-note_peers key peers (note_peer base64 peer m), lookup-note_peer key peer m)

  -- After a look at the interface, the endpoint known for a key is that of the last peer with this
  -- key that has one; where there is none, or the interface cannot be read, it is the one known before.
  pub lookup-watch :
      (key : String) (device : Option DeviceInfo) (m : List (String × SocketAddr))
      → lookup key (watch base64 device m) ≡ elim device [
        | none ↦ lookup key m
        | some info ↦ or_else (heard key info.peers) (lookup key m)
      ]
  unfolding watch
  lookup-watch key none m = refl
  lookup-watch key (some info) m = lookup-note_peers key info.peers m
