-- ===== src/Client/Show/Tree.antt =====
-- The tree that `show` prints has an end, and every peer under its root.
use innernet.Prelude.{
  ℕ, zero, suc, ◌+◌, ◌≤◌, ◌<◌, ◌≡◌, refl, sym, ap, ◌∙◌, subst, ◌↔◌, ◌⊎◌, inl, inr, Option, some,
  List, [], ◌∷◌, ◌++◌, map, arith, ◌==◌, ==_iff, nat_eq, string_eq, option_eq, In, In-append_left,
  In-append_right, In-append, In-filter, In-map, In-map_inv,
}
use innernet.Shared.{Peer, Cidr}
use innernet.Shared.Tree.{CidrTree, children}
use innernet.Client.Show.{Row, cidr_row, peer_row, for_each, own, print_tree}

-- A CIDR of the list and those whose parents lead to it.
pub data Below (cidrs : List Cidr) : Cidr → Cidr → Type 0 where
  here : {c : Cidr} → Below cidrs c c
  down : {c d e : Cidr} → In d cidrs → d.parent ≡ some c.id → Below cidrs d e → Below cidrs c e

-- The peers that are printed.
unfoldable pub printed : List Row → List Peer
printed [] = []
printed (cidr_row level c ∷ rows) = printed rows
printed (peer_row level p ∷ rows) = p ∷ printed rows

-- A CIDR is older than the CIDRs it is the parent of.
abbrev pub IsAged : List Cidr → Type 0
IsAged cidrs = (c d : Cidr) → In c cidrs → In d cidrs → d.parent ≡ some c.id → c.id < d.id

abbrev pub Under : CidrTree → Peer → Type 0
Under t p = (d : Cidr) × Below t.cidrs t.contents d × (p.cidr_id ≡ d.id)

printed-append : (xs ys : List Row) → printed (xs ++ ys) ≡ printed xs ++ printed ys
unfolding printed
printed-append [] ys = refl
printed-append (cidr_row level c ∷ xs) ys = printed-append xs ys
printed-append (peer_row level p ∷ xs) ys = ap (λ l. p ∷ l) (printed-append xs ys)

printed-map : (level : ℕ) (ps : List Peer) → printed (map (peer_row level) ps) ≡ ps
unfolding printed
printed-map level [] = refl
printed-map level (p ∷ ps) = ap (λ l. p ∷ l) (printed-map level ps)

In-printed-append :
    (p : Peer) (xs ys : List Row)
    → In p (printed (xs ++ ys)) ↔ (In p (printed xs) ⊎ In p (printed ys))
In-printed-append p xs ys = rw (printed-append xs ys) (
  In-append p (printed xs) (printed ys),
  λ h. elim h [
    | inl i ↦ In-append_left p (printed xs) (printed ys) i
    | inr i ↦ In-append_right p (printed xs) (printed ys) i
  ],
)

-- A printer prints just the peers of which `Q` holds.
abbrev Prints : Option (List Row) → (Peer → Type 0) → Type 0
Prints o Q = (rows : List Row) × (o ≡ some rows) × ((p : Peer) → In p (printed rows) ↔ Q p)

for_each-Prints :
    (print : CidrTree → Option (List Row)) (Q : CidrTree → Peer → Type 0) (ts : List CidrTree)
    → ((t : CidrTree) → In t ts → Prints (print t) (Q t))
    → Prints (for_each print ts) (λ p. (t : CidrTree) × In t ts × Q t p)
unfolding for_each printed
for_each-Prints print Q [] h = ([], refl, λ p. ((λ i. elim i [ ]), λ q. elim q.1 [ ]))
for_each-Prints print Q (t ∷ ts) h =
    let (rows, e, one) = h t (inl refl) in
    let (more, e', others) = for_each-Prints print Q ts (λ u i. h u (inr i)) in
    (
      rows ++ more,
      ground (arith, e, e'),
      λ p.
          let (cut, join) = In-printed-append p rows more in
          (
            (λ i. elim (cut i) [
              | inl j ↦ (t, inl refl, (one p).0 j)
              | inr j ↦ let (u, k, q) = (others p).0 j in (u, inr k, q)
            ]),
            λ q.
                let (u, k, r) = q in
                elim k [
                  | inl s ↦ join (inl ((one p).1 (subst (λ v. Q v p) s r)))
                  | inr k' ↦ join (inr ((others p).1 (u, k', r)))
                ],
          ),
    )

children-In :
    (t u : CidrTree)
    → In u (children t)
    → (u.cidrs ≡ t.cidrs) × In u.contents t.cidrs × (u.contents.parent ≡ some t.contents.id)
unfolding children
children-In t u h =
    let (c, i, e) = In-map_inv (λ c. record { cidrs = t.cidrs; contents = c }) _ u h in
    let (j, q) = (In-filter (λ c. c.parent == some t.contents.id) t.cidrs c).0 i in
    rw e (refl, j, (==_iff c.parent (some t.contents.id)).0 q)

In-children :
    (t : CidrTree) (d : Cidr)
    → In d t.cidrs
    → d.parent ≡ some t.contents.id
    → In (record { cidrs = t.cidrs; contents = d }) (children t)
unfolding children
In-children t d i e =
    In-map (λ c. record { cidrs = t.cidrs; contents = c }) _ d
      ((In-filter (λ c. c.parent == some t.contents.id) t.cidrs d).1
        (i, (==_iff d.parent (some t.contents.id)).1 e))

In-own :
    (t : CidrTree) (peers : List Peer) (p : Peer)
    → In p (own t peers) ↔ (In p peers × (p.cidr_id ≡ t.contents.id))
In-own t peers p =
    let (fore, back) = In-filter (λ q. q.cidr_id == t.contents.id) peers p in
    (
      (λ i. let (j, q) = fore i in (j, (==_iff p.cidr_id t.contents.id).0 q)),
      λ h. back (h.0, (==_iff p.cidr_id t.contents.id).1 h.1),
    )

-- A CIDR that is below another is that one, or is below a child of it.
Below-cases :
    (cidrs : List Cidr) (c e : Cidr)
    → Below cidrs c e
    → (c ≡ e) ⊎ ((d : Cidr) × In d cidrs × (d.parent ≡ some c.id) × Below cidrs d e)
Below-cases cidrs c e here = inl refl
Below-cases cidrs c e (down {d} i q b) = inr (d, i, q, b)

Under-children :
    (t : CidrTree) (p : Peer)
    → Under t p ↔ (((u : CidrTree) × In u (children t) × Under u p) ⊎ (p.cidr_id ≡ t.contents.id))
Under-children t p = (fore, back)
  where
    fore :
        Under t p → ((u : CidrTree) × In u (children t) × Under u p) ⊎ (p.cidr_id ≡ t.contents.id)
    fore (d, b, e) = elim (Below-cases t.cidrs t.contents d b) [
      | inl s ↦ inr (e ∙ ap (λ c. c.id) (sym s))
      | inr (c, i, q, b') ↦
          inl (record { cidrs = t.cidrs; contents = c }, In-children t c i q, (d, b', e))
    ]

    back :
        ((u : CidrTree) × In u (children t) × Under u p) ⊎ (p.cidr_id ≡ t.contents.id) → Under t p
    back (inl (u, i, (d, b, e))) =
        let (same, j, q) = children-In t u i in
        let b' : Below t.cidrs u.contents d = subst (λ l. Below l u.contents d) same b in
        (d, down j q b', e)
    back (inr e) = (t.contents, here, e)

-- The peers of the children and those of the CIDR itself.
In-tree :
    (t : CidrTree) (peers : List Peer) (level : ℕ) (inner : List Row) (p : Peer)
    → In p (printed inner) ↔ ((u : CidrTree) × In u (children t) × (In p peers × Under u p))
    → In p (printed (cidr_row level t.contents ∷ (inner ++ map (peer_row level) (own t peers))))
      ↔ (In p peers × Under t p)
unfolding printed
In-tree t peers level inner p under =
    let (cut, join) = In-printed-append p inner (map (peer_row level) (own t peers)) in
    let same = printed-map level (own t peers) in
    let (fore, back) = Under-children t p in
    let (mine, ours) = In-own t peers p in
    (
      (λ i. elim (cut i) [
        | inl j ↦ let (u, k, (m, b)) = under.0 j in (m, back (inl (u, k, b)))
        | inr j ↦ let (m, e) = mine (rw same at j) in (m, back (inr e))
      ]),
      λ h. elim (fore h.1) [
        | inl (u, k, b) ↦ join (inl (under.1 (u, k, (h.0, b))))
        | inr e ↦ join (inr (rw same (ours (h.0, e))))
      ],
    )

-- Of CIDRs that are older than those under them, none with a number above `top`, the tree from a root
-- among them is printed to its end where the fuel and the number of the root together are above
-- `top`; and the peers that are printed are those of the list whose CIDR is the root or is under it.
pub print_tree-Under :
    (n top : ℕ) (t : CidrTree) (peers : List Peer) (level : ℕ)
    → IsAged t.cidrs
    → ((c : Cidr) → In c t.cidrs → c.id ≤ top)
    → In t.contents t.cidrs
    → top < n + t.contents.id
    → (rows : List Row) × (print_tree n t peers level ≡ some rows)
      × ((p : Peer) → In p (printed rows) ↔ (In p peers × Under t p))
unfolding print_tree printed
print_tree-Under zero top t peers level aged most root enough =
    absurd (let b = most t.contents root in omega (arith, b, enough))
print_tree-Under (suc n) top t peers level aged most root enough =
    let (inner, e, under) =
      for_each-Prints (λ child. print_tree n child peers (level + 1))
        (λ u p. In p peers × Under u p) (children t)
        (λ u i.
          let (same, j, q) = children-In t u i in
          print_tree-Under n top u peers (level + 1) (rw same aged) (rw same most) (rw same j)
            (let b = aged t.contents u.contents root j q in omega (arith, b, enough))) in
    (
      cidr_row level t.contents ∷ (inner ++ map (peer_row level) (own t peers)),
      ground (arith, e),
      λ p. In-tree t peers level inner p (under p),
    )
