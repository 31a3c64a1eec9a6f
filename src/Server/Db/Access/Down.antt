-- ===== src/Server/Db/Access/Down.antt =====
-- The table `associated_subcidrs` holds what is reached downwards, and nothing else.
use innernet.Prelude.{
  ℕ, zero, suc, ◌≡◌, refl, sym, ap, ◌∙◌, subst, ◌⊎◌, inl, inr, some, List, [], ◌∷◌, arith, In,
}
use innernet.Shared.{Cidr}
use innernet.Server.Db.Access.{Queue, children, descend}
use innernet.Server.Db.Access.Pushes.{
  children_iff, step, push_all-seen, push_all-pending, push_all-new, push_all-pending_inv,
}

module _ (cidrs : List Cidr) where
  -- Every row that was seen waits, or its children were seen.
  abbrev pub IsClosed : Queue → Type 0
  IsClosed q =
      (c : Cidr) (p : ℕ)
      → In c cidrs
      → c.parent ≡ some p
      → In p q.seen
      → In p q.pending ⊎ In c.id q.seen

  step-IsClosed :
      (q : Queue) (id : ℕ) (rest : List ℕ)
      → q.pending ≡ id ∷ rest
      → IsClosed q
      → IsClosed (step cidrs id rest q.seen)
  step-IsClosed q id rest e closed c p i e' j =
      let later : Queue = record { pending = rest; seen = q.seen } in
      let ids = children cidrs id in
      elim (push_all-new later ids p j) [
        | inr waits ↦ inl waits
        | inl old ↦ elim (closed c p i e' old) [
          | inr seen ↦ inr ((push_all-seen later ids c.id).1 (inl seen))
          | inl pending ↦ elim (subst (In p) e pending) [
            | inl here ↦ inr (
                (push_all-seen later ids c.id).1
                  (inr ((children_iff cidrs id c.id).1 (c, i, e' ∙ ap some here, refl))))
            | inr there ↦ inl (push_all-pending later ids p there)
          ]
        ]
      ]

  -- The result holds what was seen, is closed under children, and keeps any property that is.
  pub descend-closure :
      (fuel : ℕ) (q : Queue) (l : List ℕ)
      → descend fuel cidrs q ≡ some l
      → IsClosed q
      → ((x : ℕ) → In x q.seen → In x l)
        × ((c : Cidr) (p : ℕ) → In c cidrs → c.parent ≡ some p → In p l → In c.id l)
  unfolding descend
  descend-closure zero q l h closed = ground arith
  descend-closure (suc fuel) q l h closed = go (descend-closure fuel) q.pending refl
    where
      go :
          ((q' : Queue) (l' : List ℕ)
            → descend fuel cidrs q' ≡ some l'
            → IsClosed q'
            → ((x : ℕ) → In x q'.seen → In x l')
              × ((c : Cidr) (p : ℕ) → In c cidrs → c.parent ≡ some p → In p l' → In c.id l'))
          → (pending : List ℕ) → q.pending ≡ pending
          → ((x : ℕ) → In x q.seen → In x l)
            × ((c : Cidr) (p : ℕ) → In c cidrs → c.parent ≡ some p → In p l → In c.id l)
      go later [] e =
          let same : q.seen ≡ l = ground (arith, e, h) in
          (
            (λ x i. subst (In x) same i),
            λ c p i e' j. elim (closed c p i e' (subst (In p) (sym same) j)) [
              | inl waits ↦ absurd (subst (In p) e waits)
              | inr seen ↦ subst (In c.id) same seen
            ],
          )
      go later (id ∷ rest) e =
          let (keeps, downward) =
            later (step cidrs id rest q.seen) l (ground (arith, e, h))
              (step-IsClosed q id rest e closed) in
          (
            (λ x i. keeps x (
                (push_all-seen (record { pending = rest; seen = q.seen }) (children cidrs id) x).1
                  (inl i))),
            downward,
          )

  module _ (P : ℕ → Type 0)
      (downward : (c : Cidr) (p : ℕ) → In c cidrs → c.parent ≡ some p → P p → P c.id) where
    abbrev Holds : Queue → Type 0
    Holds q = ((x : ℕ) → In x q.seen → P x) × ((x : ℕ) → In x q.pending → P x)

    step-Holds :
        (q : Queue) (id : ℕ) (rest : List ℕ)
        → q.pending ≡ id ∷ rest
        → Holds q
        → Holds (step cidrs id rest q.seen)
    step-Holds q id rest e (seen, pending) =
        let later : Queue = record { pending = rest; seen = q.seen } in
        let ids = children cidrs id in
        let child : (x : ℕ) → In x ids → P x = λ x k.
          let (c, i, e', same) = (children_iff cidrs id x).0 k in
          subst P (sym same) (downward c id i e' (pending id (subst (In id) (sym e) (inl refl)))) in
        (
          (λ x i. elim ((push_all-seen later ids x).0 i) [ inl j ↦ seen x j | inr k ↦ child x k ]),
          λ x i. elim (push_all-pending_inv later ids x i) [
            | inl j ↦ pending x (subst (In x) (sym e) (inr j))
            | inr k ↦ child x k
          ],
        )

    pub descend-least :
        (fuel : ℕ) (q : Queue) (l : List ℕ)
        → descend fuel cidrs q ≡ some l
        → Holds q
        → (x : ℕ) → In x l
        → P x
    unfolding descend
    descend-least zero q l h holds x i = ground arith
    descend-least (suc fuel) q l h holds x i = go (descend-least fuel) q.pending refl
      where
        go :
            ((q' : Queue) (l' : List ℕ)
              → descend fuel cidrs q' ≡ some l'
              → Holds q'
              → (y : ℕ) → In y l'
              → P y)
            → (pending : List ℕ) → q.pending ≡ pending
            → P x
        go later [] e =
            let same : q.seen ≡ l = ground (arith, e, h) in holds.0 x (subst (In x) (sym same) i)
        go later (id ∷ rest) e =
            later (step cidrs id rest q.seen) l (ground (arith, e, h))
              (step-Holds q id rest e holds) x i
