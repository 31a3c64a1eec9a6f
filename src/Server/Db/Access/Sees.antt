-- ===== src/Server/Db/Access/Sees.antt =====
-- Which CIDRs a peer may see, and what the table `associated` holds.
use innernet.Prelude.{
  ℕ, ◌*◌, ◌≤◌, ◌≡◌, refl, ap, ◌∙◌, subst, ◌⊎◌, inl, inr, true, some, List, [], ◌∷◌, arith,
  Bool-cases, nat_eq, string_eq, option_eq, length, In, contains, contains_iff,
}
use innernet.Shared.{Cidr, Association}
use innernet.Server.Db.{Connection}
use innernet.Server.Db.Access.{infra_cidr_id, associated}
use innernet.Server.Db.Access.Up.{Above}

-- An association joins the two CIDRs, in either order.
pub data Linked (conn : Connection) (x y : ℕ) : Type 0 where
  forth :
      (a : Association)
      → In a conn.associations
      → a.cidr_id_1 ≡ x
      → a.cidr_id_2 ≡ y
      → Linked conn x y
  back :
      (a : Association)
      → In a conn.associations
      → a.cidr_id_2 ≡ x
      → a.cidr_id_1 ≡ y
      → Linked conn x y

-- Which CIDRs a peer of the CIDR `own` sees: its own, the infra CIDR, those that an association
-- joins with its own or one above, and all that lie below one that it sees.
pub data Sees (conn : Connection) (own : ℕ) : ℕ → Type 0 where
  its_own : {id : ℕ} → id ≡ own → Sees conn own id
  infra : {id : ℕ} → id ≡ infra_cidr_id → Sees conn own id
  linked :
      {id : ℕ} (above : ℕ) → Above conn.cidrs above own → Linked conn above id → Sees conn own id
  below :
      {id : ℕ} (c : Cidr) (p : ℕ)
      → In c conn.cidrs
      → c.parent ≡ some p
      → c.id ≡ id
      → Sees conn own p
      → Sees conn own id

-- The end of an association with a listed CIDR.
abbrev pub IsEnd : List ℕ → List Association → ℕ → Type 0
IsEnd ids as' x =
    (a : Association) × In a as'
    × ((In a.cidr_id_1 ids × (x ≡ a.cidr_id_2)) ⊎ (In a.cidr_id_2 ids × (x ≡ a.cidr_id_1)))

pub associated_sound :
    (ids : List ℕ) (rows : List Association) (x : ℕ) → In x (associated ids rows) → IsEnd ids rows x
unfolding associated
associated_sound ids [] x i = elim i [ ]
associated_sound ids (a ∷ rows) x i =
    let deeper : In x (associated ids rows) → IsEnd ids (a ∷ rows) x =
      λ j. let (b, k, e) = associated_sound ids rows x j in (b, inr k, e) in
    elim (Bool-cases (contains a.cidr_id_2 ids)) [
      | inl second ↦ elim (Bool-cases (contains a.cidr_id_1 ids)) [
        | inl first ↦
            elim (let k : In x (a.cidr_id_1 ∷ a.cidr_id_2 ∷ associated ids rows) =
                rw (second, first) at i in
              k) [
                | inl e ↦ (a, inl refl, inr ((contains_iff _ ids).0 second, e))
                | inr (inl e) ↦ (a, inl refl, inl ((contains_iff _ ids).0 first, e))
                | inr (inr j) ↦ deeper j
              ]
        | inr no_first ↦
            elim (let k : In x (a.cidr_id_1 ∷ associated ids rows) = rw (second, no_first) at i in
              k) [
                | inl e ↦ (a, inl refl, inr ((contains_iff _ ids).0 second, e))
                | inr j ↦ deeper j
              ]
      ]
      | inr no_second ↦ elim (Bool-cases (contains a.cidr_id_1 ids)) [
        | inl first ↦
            elim (let k : In x (a.cidr_id_2 ∷ associated ids rows) = rw (no_second, first) at i in
              k) [ inl e ↦ (a, inl refl, inl ((contains_iff _ ids).0 first, e)) | inr j ↦ deeper j ]
        | inr no_first ↦ deeper (rw (no_second, no_first) at i)
      ]
    ]

pub associated_complete :
    (ids : List ℕ) (rows : List Association) (x : ℕ) → IsEnd ids rows x → In x (associated ids rows)
unfolding associated
associated_complete ids [] x (a, i, e) = elim i [ ]
associated_complete ids (b ∷ rows) x (a, inl s, inl (i, e)) =
    let hit : contains b.cidr_id_1 ids ≡ true =
      (contains_iff _ ids).1 (subst (λ (y : Association). In y.cidr_id_1 ids) s i) in
    let same : x ≡ b.cidr_id_2 = e ∙ ap (λ (y : Association). y.cidr_id_2) s in
    rw hit (elim (Bool-cases (contains b.cidr_id_2 ids)) [
      | inl t ↦ rw t (inr (inl same))
      | inr f ↦ rw f (inl same)
    ])
associated_complete ids (b ∷ rows) x (a, inl s, inr (i, e)) =
    let hit : contains b.cidr_id_2 ids ≡ true =
      (contains_iff _ ids).1 (subst (λ (y : Association). In y.cidr_id_2 ids) s i) in
    rw hit (inl (e ∙ ap (λ (y : Association). y.cidr_id_1) s))
associated_complete ids (b ∷ rows) x (a, inr i, e) =
    let rest = associated_complete ids rows x (a, i, e) in
    elim (Bool-cases (contains b.cidr_id_2 ids)) [
      | inl t ↦ elim (Bool-cases (contains b.cidr_id_1 ids)) [
        | inl u ↦ rw (t, u) (inr (inr rest))
        | inr u ↦ rw (t, u) (inr rest)
      ]
      | inr t ↦ elim (Bool-cases (contains b.cidr_id_1 ids)) [
        | inl u ↦ rw (t, u) (inr rest)
        | inr u ↦ rw (t, u) rest
      ]
    ]

pub length-associated :
    (ids : List ℕ) (rows : List Association) → length (associated ids rows) ≤ 2 * length rows
unfolding associated
length-associated ids [] = omega arith
length-associated ids (a ∷ rows) = ground (arith, length-associated ids rows)
