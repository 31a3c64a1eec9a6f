-- ===== src/Server/Db/Access/Allowed.antt =====
-- `get_all_allowed_peers` against a description of who may be seen.
use innernet.Prelude.{
  ℕ, ◌≡◌, refl, sym, subst, ◌↔◌, inl, inr, true, false, some, List, [], ◌∷◌, map, arith, nat_eq,
  string_eq, option_eq, In, filter, In-filter, In-map, In-map_inv, contains_iff,
}
use innernet.Net.{Ipnetwork}
use innernet.Shared.{Cidr, Peer}
use innernet.Server.Db.{PeerRow, Connection}
use innernet.Server.Db.Invariant.{WellFormed}
use innernet.Server.Db.Peers.{from_row}
use innernet.Server.Db.Access.{
  infra_cidr_id, parent_of, associated, Queue, start, descend, is_shown, allowed_rows, up_fuel,
  down_fuel, get_all_allowed_peers,
}
use innernet.Server.Db.Access.Sees.{
  Linked, forth, back, Sees, its_own, infra, linked, below, IsEnd, associated_sound,
  associated_complete, length-associated,
}
use innernet.Server.Db.Access.Up.{parent_of-total, parent_of_iff}
use innernet.Server.Db.Access.Pushes.{push_all-seen, push_all-pending_inv, push_all-new}
use innernet.Server.Db.Access.Measure.{push_all-measure, measure-nil, descend-total}
use innernet.Server.Db.Access.Down.{descend-closure, descend-least}

module _ (net : Ipnetwork) (conn : Connection) (w : WellFormed net conn) (own : ℕ) where
  abbrev empty : Queue
  empty = record { pending = []; seen = [] }

  tables :
      (above : List ℕ) × (ids : List ℕ) × (parent_of (up_fuel own) conn.cidrs (some own)
        ≡ some above)
      × (descend (down_fuel conn) conn.cidrs (start own (associated above conn.associations))
          ≡ some ids)
  tables =
      let (above, up_done) =
        parent_of-total net conn.cidrs w.tree.parents (up_fuel own) own (omega arith) in
      let ends = associated above conn.associations in
      let few = length-associated above conn.associations in
      let work = push_all-measure conn.cidrs empty (own ∷ infra_cidr_id ∷ ends) in
      let first = measure-nil conn.cidrs in
      let (ids, down_done) =
        descend-total conn.cidrs (down_fuel conn) (start own ends)
          (omega (arith, few, work, first)) in
      (above, ids, up_done, down_done)

  module _ (above ids : List ℕ)
      (up_done : parent_of (up_fuel own) conn.cidrs (some own) ≡ some above)
      (down_done : descend
          (down_fuel conn)
          conn.cidrs
          (start own (associated above conn.associations))
        ≡ some ids) where
    abbrev ends : List ℕ
    ends = associated above conn.associations

    end_iff : (x : ℕ) → In x ends → Sees conn own x
    end_iff x i =
        let lies_above = parent_of_iff conn.cidrs w.tree.ids (up_fuel own) own above in
        let (a, j, e) = associated_sound above conn.associations x i in
        elim e [
          | inl (k, same) ↦
              linked a.cidr_id_1 ((lies_above a.cidr_id_1 up_done).0 k) (forth a j refl (sym same))
          | inr (k, same) ↦
              linked a.cidr_id_2 ((lies_above a.cidr_id_2 up_done).0 k) (back a j refl (sym same))
        ]

    started : (x : ℕ) → In x (own ∷ infra_cidr_id ∷ ends) → Sees conn own x
    started x (inl e) = its_own e
    started x (inr (inl e)) = infra e
    started x (inr (inr i)) = end_iff x i

    sound : (x : ℕ) → In x ids → Sees conn own x
    sound =
        let first : List ℕ = own ∷ infra_cidr_id ∷ ends in
        descend-least conn.cidrs (Sees conn own) (λ c p i e s. below c p i e refl s)
          (down_fuel conn) (start own ends) ids down_done
          (
            (λ x i. elim ((push_all-seen empty first x).0 i) [
              | inl z ↦ absurd z
              | inr j ↦ started x j
            ]),
            λ x i. elim (push_all-pending_inv empty first x i) [
              | inl z ↦ absurd z
              | inr j ↦ started x j
            ],
          )

    closure :
        ((x : ℕ) → In x (start own ends).seen → In x ids)
        × ((c : Cidr) (p : ℕ) → In c conn.cidrs → c.parent ≡ some p → In p ids → In c.id ids)
    closure =
        let first : List ℕ = own ∷ infra_cidr_id ∷ ends in
        descend-closure conn.cidrs (down_fuel conn) (start own ends) ids down_done
          (λ c p i e j. elim (push_all-new empty first p j) [ inl z ↦ absurd z | inr k ↦ inl k ])

    at-IsEnd : {x : ℕ} (a : ℕ) → In a above → Linked conn a x → IsEnd above conn.associations x
    at-IsEnd a i (forth b j e f) = (b, j, inl (subst (λ y. In y above) (sym e) i, sym f))
    at-IsEnd a i (back b j e f) = (b, j, inr (subst (λ y. In y above) (sym e) i, sym f))

    complete : (x : ℕ) → Sees conn own x → In x ids
    complete x (its_own e) =
        let first : List ℕ = own ∷ infra_cidr_id ∷ ends in
        closure.0 x ((push_all-seen empty first x).1 (inr (inl e)))
    complete x (infra e) =
        let first : List ℕ = own ∷ infra_cidr_id ∷ ends in
        closure.0 x ((push_all-seen empty first x).1 (inr (inr (inl e))))
    complete x (linked a up_to link) =
        let first : List ℕ = own ∷ infra_cidr_id ∷ ends in
        let i = (parent_of_iff conn.cidrs w.tree.ids (up_fuel own) own above a up_done).1 up_to in
        closure.0 x (
          (push_all-seen empty first x).1
            (inr (inr (inr (associated_complete above conn.associations x (at-IsEnd a i link))))))
    complete x (below c p i e same s) =
        subst (λ y. In y ids) same (closure.1 c p i e (complete p s))

-- In a well formed database the query ends, and its result is exactly the peers that are enabled,
-- have redeemed their invitation, and belong to a CIDR that the peer's own CIDR sees: its own, the
-- infra CIDR, those that an association joins with its own or one above, and all below those.
pub get_all_allowed_peers_iff :
    (net : Ipnetwork) (conn : Connection) (self : Peer)
    → WellFormed net conn
    → (shown : List Peer) × (get_all_allowed_peers self conn ≡ some shown)
      × ((q : Peer)
          → In q shown ↔ (
              (p : PeerRow) × In p conn.peers
              × (q ≡ from_row p)
              × (p.is_disabled ≡ false)
              × (p.is_redeemed ≡ true)
              × Sees conn self.cidr_id p.cidr_id))
unfolding get_all_allowed_peers allowed_rows
get_all_allowed_peers_iff net conn self w =
    let (above, ids, up_done, down_done) = tables net conn w self.cidr_id in
    let shown : List PeerRow = filter (is_shown ids) conn.peers in
    (
      map from_row shown,
      ground (arith, up_done, down_done),
      λ q. (
        (λ i.
            let (p, j, e) = In-map_inv from_row shown q i in
            let (k, t) = (In-filter (is_shown ids) conn.peers p).0 j in
            (
              p,
              k,
              e,
              ground arith,
              ground arith,
              sound net conn w self.cidr_id above ids up_done down_done p.cidr_id
                  ((contains_iff p.cidr_id ids).0 (ground arith)),
            )),
        λ (p, k, e, enabled, redeemed, sees).
            subst (λ x. In x (map from_row shown)) (sym e)
              (In-map from_row shown p (
                (In-filter (is_shown ids) conn.peers p).1 (
                  k,
                  let listed = (contains_iff p.cidr_id ids).1 (
                        complete net conn w self.cidr_id above ids up_done down_done p.cidr_id
                          sees) in
                      ground arith,
                ))),
      ),
    )
