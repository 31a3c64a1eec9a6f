-- ===== src/Shared/Tree.antt =====
-- shared/src/lib.rs: `CidrTree`, the CIDRs seen from one of them.
mod Tests
use innernet.Prelude.{
  ◌≤◌, ◌≡◌, refl, ◌∙◌, ◌≢◌, ◌↔◌, ◌⊎◌, inl, inr, Bool, false, not, Option, none, some, List, [], ◌∷◌,
  map, arith, ltb, if◌then◌else◌, Bool-cases, ◌==◌, ==_iff, nat_eq, string_eq, option_eq, ltb→lt,
  In, any, filter, any-true, any-false,
}
use innernet.Shared.{Cidr}

pub record CidrTree : Type 0 where
  pub cidrs : List Cidr
  pub contents : Cidr

abbrev closer : Cidr → Cidr → Cidr
closer best c = if ltb c.cidr.prefix best.cidr.prefix then c else best

-- `Iterator::min_by_key`: of several least items the first is returned.
least_prefix : Cidr → List Cidr → Cidr
least_prefix best [] = best
least_prefix best (c ∷ cs) = least_prefix (closer best c) cs

-- `none` is the panic "failed to find root CIDR".
pub new : List Cidr → Option CidrTree
new [] = none
new (c ∷ cs) = some (record { cidrs = c ∷ cs; contents = least_prefix c cs })

unfoldable pub children : CidrTree → List CidrTree
children t =
    map (λ c. record { cidrs = t.cidrs; contents = c })
      (filter (λ c. c.parent == some t.contents.id) t.cidrs)

abbrev has_child : List Cidr → Cidr → Bool
has_child cidrs cidr = any (λ c. c.parent == some cidr.id) cidrs

-- The loop of `leaves` over the CIDRs that are left.
unfoldable pub leaves_from : List Cidr → List Cidr → List Cidr
leaves_from cidrs [] = []
leaves_from cidrs (cidr ∷ rest) =
    let later = leaves_from cidrs rest in if not (has_child cidrs cidr) then cidr ∷ later else later

unfoldable pub leaves : CidrTree → List Cidr
leaves t = leaves_from t.cidrs t.cidrs

closer-bounds :
    (best d : Cidr)
    → (((closer best d) ≡ best) ⊎ ((closer best d) ≡ d))
      × ((closer best d).cidr.prefix ≤ best.cidr.prefix)
      × ((closer best d).cidr.prefix ≤ d.cidr.prefix)
closer-bounds best d = elim (Bool-cases (ltb d.cidr.prefix best.cidr.prefix)) [
  | inl less ↦ let below = ltb→lt _ _ less in rw less (inr refl, omega arith, omega arith)
  | inr more ↦
      let near : best.cidr.prefix ≤ d.cidr.prefix = ground arith in
      rw more (inl refl, omega arith, near)
]

least_prefix-In : (best : Cidr) (cs : List Cidr) → In (least_prefix best cs) (best ∷ cs)
unfolding least_prefix
least_prefix-In best [] = inl refl
least_prefix-In best (d ∷ cs) = elim (least_prefix-In (closer best d) cs) [
  | inl e ↦ elim (closer-bounds best d).0 [ inl b ↦ inl (e ∙ b) | inr k ↦ inr (inl (e ∙ k)) ]
  | inr i ↦ inr (inr i)
]

least_prefix-le :
    (best : Cidr) (cs : List Cidr) (c : Cidr)
    → In c (best ∷ cs)
    → (least_prefix best cs).cidr.prefix ≤ c.cidr.prefix
unfolding least_prefix
least_prefix-le best [] c (inl e) = rw e (omega arith)
least_prefix-le best [] c (inr i) = elim i [ ]
least_prefix-le best (d ∷ cs) c (inl e) =
    let (_, b, _) = closer-bounds best d in
    rw e (omega (arith, b, least_prefix-le (closer best d) cs (closer best d) (inl refl)))
least_prefix-le best (d ∷ cs) c (inr (inl e)) =
    let (_, _, b) = closer-bounds best d in
    rw e (omega (arith, b, least_prefix-le (closer best d) cs (closer best d) (inl refl)))
least_prefix-le best (d ∷ cs) c (inr (inr i)) = least_prefix-le (closer best d) cs c (inr i)

-- A tree over a list of CIDRs stands on a CIDR of the list, and no CIDR of the list has a shorter
-- prefix; the tree exists unless the list is empty.
new-root :
    (cs : List Cidr)
    → ((new cs ≡ none) × (cs ≡ []))
      ⊎ ((t : CidrTree) × (new cs ≡ some t)
          × (t.cidrs ≡ cs)
          × In t.contents cs
          × ((c : Cidr) → In c cs → t.contents.cidr.prefix ≤ c.cidr.prefix))
unfolding new
new-root [] = inl (refl, refl)
new-root (c ∷ cs) = inr (
  record { cidrs = c ∷ cs; contents = least_prefix c cs },
  refl,
  refl,
  least_prefix-In c cs,
  least_prefix-le c cs,
)

leaves_from_iff :
    (all rest : List Cidr) (c : Cidr)
    → In c (leaves_from all rest) ↔ (In c rest × (has_child all c ≡ false))
unfolding leaves_from
leaves_from_iff all [] c = ((λ h. elim h [ ]), λ h. elim h.0 [ ])
leaves_from_iff all (d ∷ rest) c =
    let (fore, back) = leaves_from_iff all rest c in
    elim (Bool-cases (has_child all d)) [
      | inl inner ↦ rw inner (
        (λ h. let (i, q) = fore h in (inr i, q)),
        λ h. elim h.0 [
          | inl e ↦ let k : has_child all d ≡ false = rw e at h.1 in cc (k, inner)
          | inr i ↦ back (i, h.1)
        ],
      )
      | inr leaf ↦ rw leaf (
        (λ h. elim h [ inl e ↦ (inl e, rw e leaf) | inr i ↦ let (j, q) = fore i in (inr j, q) ]),
        λ h. elim h.0 [ inl e ↦ inl e | inr i ↦ inr (back (i, h.1)) ],
      )
    ]

-- The leaves are exactly the CIDRs of the tree that are no CIDR's parent.
pub leaves_iff :
    (t : CidrTree) (c : Cidr)
    → In c (leaves t) ↔ (In c t.cidrs × ((d : Cidr) → In d t.cidrs → d.parent ≢ some c.id))
unfolding leaves
leaves_iff t c = (
  (λ h.
      let (i, leaf) = (leaves_from_iff t.cidrs t.cidrs c).0 h in
      (i, λ d j e. cc (any-false _ t.cidrs d leaf j, (==_iff d.parent (some c.id)).1 e))),
  λ h. (leaves_from_iff t.cidrs t.cidrs c).1 (
    h.0,
    elim (Bool-cases (has_child t.cidrs c)) [
      | inl inner ↦
          let (d, j, q) = any-true _ t.cidrs inner in
          absurd (h.1 d j ((==_iff d.parent (some c.id)).0 q))
      | inr leaf ↦ leaf
    ],
  ),
)
