-- ===== src/Server/Db/Access/Pushes.antt =====
-- What the queue of `associated_subcidrs` holds after rows were put in.
use innernet.Prelude.{
  ℕ, ◌≡◌, sym, subst, ◌↔◌, ◌⊎◌, inl, inr, Bool, some, List, [], ◌∷◌, map, Bool-cases, ◌==◌, ==_iff,
  nat_eq, string_eq, option_eq, In, In-append_left, In-append_right, In-append, filter, In-filter,
  In-map, In-map_inv, contains, contains_iff,
}
use innernet.Shared.{Cidr}
use innernet.Server.Db.Access.{Queue, push, push_all, children}

-- The children of a CIDR are rows of the table.
pub children_iff :
    (cidrs : List Cidr) (p id : ℕ)
    → In id (children cidrs p) ↔ ((c : Cidr) × In c cidrs × (c.parent ≡ some p) × (id ≡ c.id))
unfolding children
children_iff cidrs p id =
    let test : Cidr → Bool = λ c. c.parent == some p in
    (
      (λ i.
          let (c, j, e) = In-map_inv (λ (c : Cidr). c.id) (filter test cidrs) id i in
          let (k, q) = (In-filter test cidrs c).0 j in (c, k, (==_iff c.parent (some p)).0 q, e)),
      λ (c, k, q, e).
          subst (λ x. In x (map (λ (d : Cidr). d.id) (filter test cidrs))) (sym e)
            (In-map (λ (d : Cidr). d.id) (filter test cidrs) c
              ((In-filter test cidrs c).1 (k, (==_iff c.parent (some p)).1 q))),
    )

abbrev pub step : List Cidr → ℕ → List ℕ → List ℕ → Queue
step cidrs id rest seen = push_all (record { pending = rest; seen = seen }) (children cidrs id)

-- What a push does to the two lists.
pub push-seen : (q : Queue) (id x : ℕ) → In x (push q id).seen ↔ (In x q.seen ⊎ (x ≡ id))
unfolding push
push-seen q id x = elim (Bool-cases (contains id q.seen)) [
  | inl old ↦ rw old (
    (λ i. inl i),
    λ h. elim h [
      | inl i ↦ i
      | inr e ↦ subst (λ y. In y q.seen) (sym e) ((contains_iff id q.seen).0 old)
    ],
  )
  | inr new ↦ rw new (
    (λ i. elim i [ inl e ↦ inr e | inr j ↦ inl j ]),
    λ h. elim h [ inl i ↦ inr i | inr e ↦ inl e ],
  )
]

pub push-pending : (q : Queue) (id x : ℕ) → In x q.pending → In x (push q id).pending
unfolding push
push-pending q id x i = elim (Bool-cases (contains id q.seen)) [
  | inl old ↦ rw old i
  | inr new ↦ rw new (In-append_left x q.pending (id ∷ []) i)
]

-- A row that was not seen before waits.
pub push-new :
    (q : Queue) (id x : ℕ) → In x (push q id).seen → In x q.seen ⊎ In x (push q id).pending
unfolding push
push-new q id x = elim (Bool-cases (contains id q.seen)) [
  | inl old ↦ rw old (λ i. inl i)
  | inr new ↦
      rw new (λ i. elim i [
        | inl e ↦ inr (In-append_right x q.pending (id ∷ []) (inl e))
        | inr j ↦ inl j
      ])
]

pub push_all-seen :
    (q : Queue) (ids : List ℕ) (x : ℕ) → In x (push_all q ids).seen ↔ (In x q.seen ⊎ In x ids)
unfolding push_all
push_all-seen q [] x = ((λ i. inl i), λ h. elim h [ inl i ↦ i | inr z ↦ absurd z ])
push_all-seen q (id ∷ ids) x =
    let (fore, back) = push_all-seen (push q id) ids x in
    let (here, there) = push-seen q id x in
    (
      (λ i. elim (fore i) [
        | inl j ↦ elim (here j) [ inl k ↦ inl k | inr e ↦ inr (inl e) ]
        | inr k ↦ inr (inr k)
      ]),
      λ h. elim h [
        | inl i ↦ back (inl (there (inl i)))
        | inr (inl e) ↦ back (inl (there (inr e)))
        | inr (inr k) ↦ back (inr k)
      ],
    )

pub push_all-pending :
    (q : Queue) (ids : List ℕ) (x : ℕ) → In x q.pending → In x (push_all q ids).pending
unfolding push_all
push_all-pending q [] x i = i
push_all-pending q (id ∷ ids) x i = push_all-pending (push q id) ids x (push-pending q id x i)

pub push_all-new :
    (q : Queue) (ids : List ℕ) (x : ℕ)
    → In x (push_all q ids).seen
    → In x q.seen ⊎ In x (push_all q ids).pending
unfolding push_all
push_all-new q [] x i = inl i
push_all-new q (id ∷ ids) x i = elim (push_all-new (push q id) ids x i) [
  | inl j ↦ elim (push-new q id x j) [
    | inl k ↦ inl k
    | inr k ↦ inr (push_all-pending (push q id) ids x k)
  ]
  | inr j ↦ inr j
]

pub push_all-pending_inv :
    (q : Queue) (ids : List ℕ) (x : ℕ) → In x (push_all q ids).pending → In x q.pending ⊎ In x ids
unfolding push_all push
push_all-pending_inv q [] x i = inl i
push_all-pending_inv q (id ∷ ids) x i = elim (push_all-pending_inv (push q id) ids x i) [
  | inr k ↦ inr (inr k)
  | inl j ↦ elim (Bool-cases (contains id q.seen)) [
    | inl old ↦ inl (rw old at j)
    | inr new ↦ elim (In-append x q.pending (id ∷ []) (rw new at j)) [
      | inl k ↦ inl k
      | inr (inl e) ↦ inr (inl e)
      | inr (inr z) ↦ absurd z
    ]
  ]
]
