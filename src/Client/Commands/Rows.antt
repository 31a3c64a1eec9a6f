-- ===== src/Client/Commands/Rows.antt =====
-- The rows of the server that `enable_or_disable_peer` is about.
use innernet.Prelude.{
  ℕ, String, ◌≡◌, refl, sym, ap, ◌∙◌, subst, ◌⊎◌, inl, inr, Bool, true, not, some, List, [], ◌∷◌,
  map, arith, if◌then◌else◌, Bool-cases, Option-cases, ◌==◌, ==_iff, nat_eq, string_eq, option_eq,
  In, find, filter, In-filter, In-map_inv, DistinctBy, DistinctBy-unique, find-key,
}
use innernet.Net.{SocketAddr}
use innernet.Shared.{Peer, PeerContents}
use innernet.Shared.Prompts.{nth, is_eligible}
use innernet.Shared.Prompts.Offers.{nth-In}
use innernet.Server.Db.{
  ok_or, query_returned_no_rows, ServerError, Connection, invalid_query, database,
  constraint_violation, ok, err, PeerRow, Packages,
}
use innernet.Server.Db.Invariant.{WellFormed}
use innernet.Server.Api.{
  execute, ServerState, Reply, replied, rejected, nothing, inject_endpoint, inject_endpoints,
  lookup,
}
use innernet.Server.Api.Admin
use innernet.Server.Db.Peers
use innernet.Server.Db.Peers.{
  map_ok, from_row, updated_contents, set_row, renames_onto, is_valid_name, map_ok,
}

-- The peers that an administrator is sent.
abbrev pub listed : ServerState → List Peer
listed s = inject_endpoints s.endpoints (map from_row s.conn.peers)

-- A row with the endpoint that was sent with it, and enabled or not.
abbrev pub switched : Bool → ServerState → PeerRow → PeerRow
switched enable s p = record p {
  endpoint = (inject_endpoint s.endpoints (from_row p)).endpoint;
  is_disabled = not enable;
}

-- What is listed is a row, with an endpoint where one is known.
pub listed_row :
    (s : ServerState) (enable : Bool) (index : ℕ) (peer : Peer)
    → nth (filter (is_eligible enable) (listed s)) index ≡ some peer
    → (p : PeerRow) × In p s.conn.peers
      × (peer ≡ inject_endpoint s.endpoints (from_row p))
      × (is_eligible enable peer ≡ true)
unfolding inject_endpoints
listed_row s enable index peer h =
    let (i, eligible) =
      (In-filter (is_eligible enable) (listed s) peer).0
        (nth-In (filter (is_eligible enable) (listed s)) index h) in
    let (q, j, e) = In-map_inv (inject_endpoint s.endpoints) (map from_row s.conn.peers) peer i in
    let (p, k, f) = In-map_inv from_row s.conn.peers q j in
    (p, k, e ∙ ap (inject_endpoint s.endpoints) f, eligible)

-- What an injection leaves alone.
pub injected :
    (endpoints : List (String × SocketAddr)) (p : PeerRow)
    → let q : Peer = inject_endpoint endpoints (from_row p) in
      (q.id ≡ p.id)
      × (q.name ≡ p.name)
      × (q.is_admin ≡ p.is_admin)
      × (q.is_disabled ≡ p.is_disabled)
unfolding from_row
injected endpoints p = elim (Option-cases p.endpoint) [
  | inr (e, h) ↦ ground (arith, h)
  | inl h ↦ elim (Option-cases (lookup p.public_key endpoints)) [
    | inl n ↦ ground (arith, h, n)
    | inr (e, n) ↦ ground (arith, h, n)
  ]
]

map-ext :
    {A B : Type 0} (f g : A → B) (xs : List A)
    → ((a : A) → In a xs → f a ≡ g a)
    → map f xs ≡ map g xs
map-ext f g [] h = refl
map-ext f g (x ∷ xs) h = ground (arith, h x (inl refl), map-ext f g xs (λ a i. h a (inr i)))

-- The state after the peer was enabled or disabled.
abbrev pub after_switch : Bool → PeerRow → ServerState → ServerState
after_switch enable p s = record s {
  conn = record (s.conn) {
    peers = map (λ q. if q.id == p.id then switched enable s q else q) s.conn.peers;
  };
}

set_row-switched :
    (enable : Bool) (p : PeerRow) (s : ServerState)
    → let sent : PeerContents = record ((inject_endpoint s.endpoints (from_row p)).contents) {
      is_disabled = not enable;
    } in
      set_row (updated_contents (from_row p).contents sent) p ≡ switched enable s p
unfolding from_row
set_row-switched enable p s =
    let (_, name, admin, _) = injected s.endpoints p in ground (arith, name, admin)

rows_switched :
    (enable : Bool) (p : PeerRow) (s : ServerState)
    → DistinctBy (λ (q : PeerRow). q.id) s.conn.peers
    → In p s.conn.peers
    → let sent : PeerContents = record ((inject_endpoint s.endpoints (from_row p)).contents) {
      is_disabled = not enable;
    } in
      map
        (λ q. if q.id == p.id then set_row (updated_contents (from_row p).contents sent) q else q)
        s.conn.peers
      ≡ (after_switch enable p s).conn.peers
rows_switched enable p s ids i = map-ext _ _ s.conn.peers (λ q j. elim (Bool-cases (q.id == p.id)) [
  | inr other ↦ ground (arith, other)
  | inl hit ↦
      let same : q ≡ p =
        DistinctBy-unique (λ (r : PeerRow). r.id) s.conn.peers q p ids j i
          ((==_iff q.id p.id).0 hit) in
      rw same (ap (λ r. if p.id == p.id then r else p) (set_row-switched enable p s))
])

update-cases :
    (pk : Packages) (self : Peer) (contents : PeerContents) (conn : Connection)
    → ((e : ServerError) × (Peers.update pk self contents conn ≡ (conn, err e)))
      ⊎ (Peers.update pk self contents conn ≡ (
        record conn {
          peers =
              map
                (λ q.
                  if q.id == self.id
                  then set_row (updated_contents self.contents contents) q
                  else q)
                conn.peers;
        },
        ok (record self { contents = updated_contents self.contents contents }),
      ))
unfolding Peers.update
update-cases pk self contents conn = elim (Bool-cases (is_valid_name pk contents.name)) [
  | inr bad ↦ inl (invalid_query, ground (arith, bad))
  | inl good ↦ elim (Bool-cases (renames_onto self.id contents.name conn.peers)) [
    | inl taken ↦ inl (database constraint_violation, ground (arith, good, taken))
    | inr free ↦ inr (ground (arith, good, free))
  ]
]

update_peer-got :
    (pk : Packages) (id : ℕ) (self : Peer) (form : PeerContents) (s : ServerState)
    → Peers.get id s.conn ≡ ok self
    → Admin.update_peer pk id form s
      ≡ execute (Peers.update pk self form) (λ _ t. (t, replied 204 nothing)) s
unfolding Admin.update_peer
update_peer-got pk id self form s e = ground (arith, e)

update_peer-refused :
    (pk : Packages) (self : Peer) (form : PeerContents) (s : ServerState) (e : ServerError)
    → Peers.update pk self form s.conn ≡ (s.conn, err e)
    → execute (Peers.update pk self form) (λ _ t. (t, replied 204 nothing)) s ≡ (s, rejected e)
update_peer-refused pk self form s e u = ground (arith, u)

update_peer-done :
    (pk : Packages) (self changed : Peer) (form : PeerContents) (s : ServerState)
    (conn : Connection)
    → Peers.update pk self form s.conn ≡ (conn, ok changed)
    → execute (Peers.update pk self form) (λ _ t. (t, replied 204 nothing)) s
      ≡ (record s { conn = conn }, replied 204 nothing)
update_peer-done pk self changed form s conn u = ground (arith, u)

-- An update by what was listed of a row switches the row, or is refused.
pub update_switched :
    (pk : Packages) (enable : Bool) (p : PeerRow) (s : ServerState)
    → WellFormed pk.net s.conn
    → In p s.conn.peers
    → let peer : Peer = inject_endpoint s.endpoints (from_row p) in
      let r : ServerState × Reply =
        Admin.update_peer pk peer.id (record (peer.contents) { is_disabled = not enable }) s in
      ((e : ServerError) × (r ≡ (s, rejected e)))
      ⊎ (r ≡ (after_switch enable p s, replied 204 nothing))
unfolding Peers.get from_row
update_switched pk enable p s wf i =
    let peer : Peer = inject_endpoint s.endpoints (from_row p) in
    let sent : PeerContents = record (peer.contents) { is_disabled = not enable } in
    let found : find (λ (q : PeerRow). q.id == peer.id) s.conn.peers ≡ some p =
      subst (λ k. find (λ (q : PeerRow). q.id == k) s.conn.peers ≡ some p)
        (sym (injected s.endpoints p).0)
        (find-key (λ (q : PeerRow). q.id) s.conn.peers p wf.members.ids i) in
    let gotten : Peers.get peer.id s.conn ≡ ok (from_row p) =
      ap (λ o. map_ok from_row (ok_or o (database query_returned_no_rows))) found in
    let step = update_peer-got pk peer.id (from_row p) sent s gotten in
    elim (update-cases pk (from_row p) sent s.conn) [
      | inl (e, u) ↦ inl (e, step ∙ update_peer-refused pk (from_row p) sent s e u)
      | inr u ↦ inr (
          step
          ∙ update_peer-done pk (from_row p) _ sent s _ u
          ∙ ap (λ rows. (record s { conn = record (s.conn) { peers = rows } }, replied 204 nothing))
              (rows_switched enable p s wf.members.ids i))
    ]
