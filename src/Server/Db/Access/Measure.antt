-- ===== src/Server/Db/Access/Measure.antt =====
-- The table `associated_subcidrs` ends: a CIDR enters its queue once.
use innernet.Prelude.{
  ℕ, zero, suc, ◌+◌, ◌≤◌, ◌<◌, ◌≡◌, refl, sym, ap, subst, inl, inr, false, some, List, [], ◌∷◌,
  arith, if◌then◌else◌, Bool-cases, nat_eq, string_eq, option_eq, length, In, length-append,
  contains,
}
use innernet.Shared.{Cidr}
use innernet.Server.Db.Access.{Queue, push, push_all, children, descend}
use innernet.Server.Db.Access.Pushes.{children_iff, step}

-- Rows in the queue, and CIDRs that were never put in.
unseen : List Cidr → List ℕ → ℕ
unseen [] seen = 0
unseen (c ∷ cidrs) seen = (if contains c.id seen then 0 else 1) + unseen cidrs seen

unseen_mono :
    (cidrs : List Cidr) (id : ℕ) (seen : List ℕ) → unseen cidrs (id ∷ seen) ≤ unseen cidrs seen
unfolding unseen
unseen_mono [] id seen = omega arith
unseen_mono (c ∷ cidrs) id seen = ground (arith, unseen_mono cidrs id seen)

unseen-drop :
    (cidrs : List Cidr) (c : Cidr) (seen : List ℕ)
    → In c cidrs
    → contains c.id seen ≡ false
    → unseen cidrs (c.id ∷ seen) + 1 ≤ unseen cidrs seen
unfolding unseen
unseen-drop [] c seen i h = elim i [ ]
unseen-drop (d ∷ cidrs) c seen (inl e) h =
    subst
      (λ (x : Cidr).
        contains x.id seen ≡ false → unseen (d ∷ cidrs) (x.id ∷ seen) + 1 ≤ unseen (d ∷ cidrs) seen)
      (sym e) (λ h'. ground (arith, unseen_mono cidrs d.id seen)) h
unseen-drop (d ∷ cidrs) c seen (inr i) h = ground (arith, unseen-drop cidrs c seen i h)

unseen-le : (cidrs : List Cidr) (seen : List ℕ) → unseen cidrs seen ≤ length cidrs
unfolding unseen
unseen-le [] seen = omega arith
unseen-le (c ∷ cidrs) seen = ground (arith, unseen-le cidrs seen)

pub measure : List Cidr → Queue → ℕ
measure cidrs q = length q.pending + unseen cidrs q.seen

measure_lem :
    (cidrs : List Cidr) (q : Queue) → measure cidrs q ≡ length q.pending + unseen cidrs q.seen
unfolding measure
measure_lem cidrs q = refl

-- A push of any row costs at most one round, and a push of a CIDR costs none.
push-measure :
    (cidrs : List Cidr) (q : Queue) (id : ℕ) → measure cidrs (push q id) ≤ measure cidrs q + 1
unfolding measure push
push-measure cidrs q id = elim (Bool-cases (contains id q.seen)) [
  | inl old ↦ rw old (omega arith)
  | inr new ↦ rw new (omega (arith, length-append q.pending (id ∷ []), unseen_mono cidrs id q.seen))
]

push_cidr-measure :
    (cidrs : List Cidr) (q : Queue) (c : Cidr)
    → In c cidrs
    → measure cidrs (push q c.id) ≤ measure cidrs q
unfolding measure push
push_cidr-measure cidrs q c i = elim (Bool-cases (contains c.id q.seen)) [
  | inl old ↦ rw old (omega arith)
  | inr new ↦
      rw new (omega (arith, length-append q.pending (c.id ∷ []), unseen-drop cidrs c q.seen i new))
]

pub push_all-measure :
    (cidrs : List Cidr) (q : Queue) (ids : List ℕ)
    → measure cidrs (push_all q ids) ≤ measure cidrs q + length ids
unfolding push_all
push_all-measure cidrs q [] = omega arith
push_all-measure cidrs q (id ∷ ids) =
    omega (arith, push-measure cidrs q id, push_all-measure cidrs (push q id) ids)

push_cidrs-measure :
    (cidrs : List Cidr) (q : Queue) (ids : List ℕ)
    → ((id : ℕ) → In id ids → (c : Cidr) × In c cidrs × (id ≡ c.id))
    → measure cidrs (push_all q ids) ≤ measure cidrs q
unfolding push_all
push_cidrs-measure cidrs q [] rows = omega arith
push_cidrs-measure cidrs q (id ∷ ids) rows =
    let (c, i, e) = rows id (inl refl) in
    let step : measure cidrs (push q id) ≤ measure cidrs q =
      subst (λ k. measure cidrs (push q k) ≤ measure cidrs q) (sym e)
        (push_cidr-measure cidrs q c i) in
    omega (arith, step, push_cidrs-measure cidrs (push q id) ids (λ j k. rows j (inr k)))

step-measure :
    (cidrs : List Cidr) (q : Queue) (id : ℕ) (rest : List ℕ)
    → q.pending ≡ id ∷ rest
    → measure cidrs (step cidrs id rest q.seen) < measure cidrs q
step-measure cidrs q id rest e =
    let later : Queue = record { pending = rest; seen = q.seen } in
    let fewer =
      push_cidrs-measure cidrs later (children cidrs id)
        (λ j i. let (c, k, _, e') = (children_iff cidrs id j).0 i in (c, k, e')) in
    let start = measure_lem cidrs q in
    let next = measure_lem cidrs later in omega (arith, fewer, start, next, ap length e)

-- Fuel above the measure is enough.
pub descend-total :
    (cidrs : List Cidr) (fuel : ℕ) (q : Queue)
    → measure cidrs q < fuel
    → (l : List ℕ) × (descend fuel cidrs q ≡ some l)
unfolding descend
descend-total cidrs zero q h = absurd (omega arith)
descend-total cidrs (suc fuel) q h = go (descend-total cidrs fuel) q.pending refl
  where
    go :
        ((q' : Queue) → measure cidrs q' < fuel → (l : List ℕ) × (descend fuel cidrs q' ≡ some l))
        → (pending : List ℕ) → q.pending ≡ pending
        → (l : List ℕ) × (descend (suc fuel) cidrs q ≡ some l)
    go later [] e = (q.seen, ground (arith, e))
    go later (id ∷ rest) e =
        let less = step-measure cidrs q id rest e in
        let (l, done) = later (step cidrs id rest q.seen) (omega (arith, less)) in
        (l, ground (arith, e, done))

-- An empty queue, before any push.
pub measure-nil :
    (cidrs : List Cidr) → measure cidrs (record { pending = []; seen = [] }) ≤ length cidrs
unfolding measure
measure-nil cidrs = omega (arith, unseen-le cidrs [])
