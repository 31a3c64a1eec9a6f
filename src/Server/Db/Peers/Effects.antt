-- ===== src/Server/Db/Peers/Effects.antt =====
-- What the statements on peers change, beside keeping the database well formed.
use innernet.Prelude.{
  ℕ, String, ◌≡◌, refl, ◌≢◌, inl, inr, true, false, not, ◌&&◌, List, [], ◌∷◌, map, arith,
  if◌then◌else◌, Bool-cases, ◌==◌, ==_iff, nat_eq, string_eq, option_eq, any,
}
use innernet.Shared.{Peer, PeerContents}
use innernet.Server.Db.{not_found, err, ok, PeerRow, Connection, Packages}
use innernet.Server.Db.Peers.{
  set_row, updated_contents, renames_onto, is_valid_name, update, redeem, to_redeem,
}

-- The columns that an update may not change.
abbrev pub IsSamePeer : PeerRow → PeerRow → Type 0
IsSamePeer p q =
    (q.id ≡ p.id)
    × (q.ip ≡ p.ip)
    × (q.cidr_id ≡ p.cidr_id)
    × (q.public_key ≡ p.public_key)
    × (q.is_redeemed ≡ p.is_redeemed)

-- What an update makes of a row: the row of the peer has the new name, endpoint and flags; any other
-- is as it was.
abbrev pub IsUpdated : ℕ → PeerContents → PeerRow → PeerRow → Type 0
IsUpdated id contents p q =
    IsSamePeer p q
    × (p.id ≢ id → q ≡ p)
    × (p.id ≡ id
        → (q.name ≡ contents.name)
          × (q.endpoint ≡ contents.endpoint)
          × (q.is_admin ≡ contents.is_admin)
          × (q.is_disabled ≡ contents.is_disabled))

-- As many rows, related one by one.
abbrev pub Pointwise : (PeerRow → PeerRow → Type 0) → List PeerRow → List PeerRow → Type 0
Pointwise R [] [] = Unit
Pointwise R (p ∷ ps) (q ∷ qs) = R p q × Pointwise R ps qs
Pointwise R _ _ = ⊥

set_row-IsUpdated :
    (self contents : PeerContents) (id : ℕ) (p : PeerRow)
    → IsUpdated id contents p (if p.id == id then set_row (updated_contents self contents) p else p)
set_row-IsUpdated self contents id p = elim (Bool-cases (p.id == id)) [
  | inl t ↦ rw t (
    (refl, refl, refl, refl, refl),
    (λ differ. absurd (differ ((==_iff p.id id).0 t))),
    λ _. (refl, refl, refl, refl),
  )
  | inr f ↦ rw f (
    (refl, refl, refl, refl, refl),
    (λ _. refl),
    λ same. let t = (==_iff p.id id).1 same in ground (arith, t, f),
  )
]

map-Pointwise :
    (R : PeerRow → PeerRow → Type 0) (f : PeerRow → PeerRow) (ps : List PeerRow)
    → ((p : PeerRow) → R p (f p))
    → Pointwise R ps (map f ps)
map-Pointwise R f [] h = tt
map-Pointwise R f (p ∷ ps) h = (h p, map-Pointwise R f ps h)

-- An update that succeeds was given a valid name, leaves CIDRs and associations alone, and leaves
-- every peer in its place, with its id, address, CIDR, key and redemption, and all else of every peer
-- but the one that it is about; that one has the name, the endpoint and the flags that were asked for.
pub update-IsSamePeer :
    (pk : Packages) (self changed : Peer) (contents : PeerContents) (conn conn' : Connection)
    → update pk self contents conn ≡ (conn', ok changed)
    → (is_valid_name pk contents.name ≡ true)
      × (conn'.cidrs ≡ conn.cidrs)
      × (conn'.associations ≡ conn.associations)
      × Pointwise (IsUpdated self.id contents) conn.peers conn'.peers
unfolding update
update-IsSamePeer pk self changed contents conn conn' h =
    let new : PeerContents = updated_contents self.contents contents in
    let f : PeerRow → PeerRow = λ p. if p.id == self.id then set_row new p else p in
    elim (Bool-cases (is_valid_name pk contents.name)) [
      | inr invalid ↦ ground (arith, invalid)
      | inl valid ↦ elim (Bool-cases (renames_onto self.id new.name conn.peers)) [
        | inl taken ↦ ground (arith, valid, taken)
        | inr free ↦
            let after : conn' ≡ record conn { peers = map f conn.peers } =
              ground (arith, valid, free) in
            rw after (
              valid,
              refl,
              refl,
              map-Pointwise (IsUpdated self.id contents) f conn.peers
                  (set_row-IsUpdated self.contents contents self.id),
            )
      ]
    ]

none_to_redeem :
    (id : ℕ) (pubkey : String) (rows : List PeerRow)
    → any (to_redeem id) (
        map
          (λ p. if to_redeem id p then record p { is_redeemed = true; public_key = pubkey } else p)
          rows)
      ≡ false
none_to_redeem id pubkey [] = refl
none_to_redeem id pubkey (p ∷ rows) =
    let rest = none_to_redeem id pubkey rows in
    elim (Bool-cases (to_redeem id p)) [
      | inl t ↦ rw (t, rest) (ground arith)
      | inr f ↦ rw (f, rest, f) refl
    ]

-- An invitation is redeemed at most once: after a redemption that succeeded, every further one of
-- the same peer fails with NotFound and changes nothing.
pub redeem_once :
    (self redeemed later : Peer) (pubkey other : String) (conn conn' : Connection)
    → redeem self pubkey conn ≡ (conn', ok redeemed)
    → later.id ≡ self.id
    → redeem later other conn' ≡ (conn', err not_found)
unfolding redeem
redeem_once self redeemed later pubkey other conn conn' h same =
    elim (Bool-cases (any (to_redeem self.id) conn.peers)) [
      | inr none_open ↦ ground (arith, none_open)
      | inl open_one ↦
          elim (Bool-cases
            (any (λ (p : PeerRow). not (p.id == self.id) && (p.public_key == pubkey)) conn.peers)) [
              | inl taken ↦ ground (arith, open_one, taken)
              | inr free ↦
                  let after : conn'.peers
                      ≡ map
                          (λ p.
                            if to_redeem self.id p
                            then record p { is_redeemed = true; public_key = pubkey }
                            else p)
                          conn.peers =
                    ground (arith, open_one, free) in
                  let closed : any (to_redeem later.id) conn'.peers ≡ false =
                    rw (same, after) (none_to_redeem self.id pubkey conn.peers) in
                  rw closed refl
            ]
    ]
