-- ===== src/Server/Db/Cidrs/Checks.antt =====
-- What the checks of `DatabaseCidr::create` establish.
use innernet.Prelude.{
  ℕ, ◌≤◌, ◌≡◌, refl, sym, ◌∙◌, ◌⊎◌, inl, inr, Bool, true, false, none, some, List, [], ◌∷◌, ◌++◌,
  map, arith, ltb, Bool-cases, Option-cases, In, filter, In-filter,
}
use innernet.Net.{IpNetwork}
use innernet.Shared.{Cidr, CidrContents}
use innernet.Server.Db.{
  ServerError, Result-cases, database, constraint_violation, other_failure, ok, err, Connection,
  Packages,
}
use innernet.Server.Db.Cidrs.{
  longer, longest_prefix, closest_parent, list, check_parent, attached_peers, overlapping_sibling,
  admissible, accepted, insert, create,
}

-- The longest prefix of a list and a candidate.
longest_prefix_from :
    (cs : List Cidr) (best c : Cidr)
    → longest_prefix cs (some best) ≡ some c
    → In c (best ∷ cs) × ((d : Cidr) → In d (best ∷ cs) → d.cidr.prefix ≤ c.cidr.prefix)
unfolding longest_prefix
longest_prefix_from [] best c h =
    let same : best ≡ c = ground arith in
    (inl (sym same), λ d i. elim i [ inl e ↦ rw (e, same) (omega arith) | inr j ↦ absurd j ])
longest_prefix_from (x ∷ cs) best c h =
    let (i, most) = longest_prefix_from cs (longer best x) c h in
    let b : best.cidr.prefix ≤ (longer best x).cidr.prefix = ground arith in
    let l : x.cidr.prefix ≤ (longer best x).cidr.prefix = ground arith in
    let top = most (longer best x) (inl refl) in
    (
      elim i [
        | inl e ↦ elim (Bool-cases (ltb x.cidr.prefix best.cidr.prefix)) [
          | inl t ↦ inl (let k : longer best x ≡ best = rw t in e ∙ k)
          | inr f ↦ inr (inl (let k : longer best x ≡ x = rw f in e ∙ k))
        ]
        | inr j ↦ inr (inr j)
      ],
      λ d j. elim j [
        | inl e ↦ rw e (omega (arith, b, top))
        | inr (inl e) ↦ rw e (omega (arith, l, top))
        | inr (inr k) ↦ most d (inr k)
      ],
    )

longest_prefix-some :
    (cs : List Cidr) (c : Cidr)
    → longest_prefix cs none ≡ some c
    → In c cs × ((d : Cidr) → In d cs → d.cidr.prefix ≤ c.cidr.prefix)
unfolding longest_prefix
longest_prefix-some [] c h = ground arith
longest_prefix-some (x ∷ cs) c h = longest_prefix_from cs x c h

module _ (pk : Packages) where
  -- The closest parent is a CIDR of the list that encloses the network, of the longest prefix.
  closest_parent-some :
      (n : IpNetwork) (cidrs : List Cidr) (c : Cidr)
      → closest_parent pk n cidrs ≡ some c
      → In c cidrs
        × (pk.net.is_subnet_of n c.cidr ≡ true)
        × ((d : Cidr)
            → In d cidrs
            → pk.net.is_subnet_of n d.cidr ≡ true
            → d.cidr.prefix ≤ c.cidr.prefix)
  unfolding closest_parent
  closest_parent-some n cidrs c h =
      let test : Cidr → Bool = λ current. pk.net.is_subnet_of n current.cidr in
      let (i, most) = longest_prefix-some (filter test cidrs) c h in
      let (j, encloses) = (In-filter test cidrs c).0 i in
      (j, encloses, λ d k q. most d ((In-filter test cidrs d).1 (k, q)))

  -- The parent that `create` accepts.
  abbrev pub IsClosest : CidrContents → ℕ → List Cidr → Type 0
  IsClosest contents parent_id cidrs =
      (d : Cidr) × In d cidrs
      × (d.id ≡ parent_id)
      × (pk.net.is_subnet_of contents.cidr d.cidr ≡ true)
      × ((o : Cidr)
          → In o cidrs
          → pk.net.is_subnet_of contents.cidr o.cidr ≡ true
          → o.cidr.prefix ≤ d.cidr.prefix)

  pub check_parent-IsClosest :
      (contents : CidrContents) (parent_id : ℕ) (conn : Connection)
      → check_parent pk contents (some parent_id) conn ≡ ok tt
      → IsClosest contents parent_id conn.cidrs
  unfolding check_parent list
  check_parent-IsClosest contents parent_id conn h =
      elim (Option-cases (closest_parent pk contents.cidr conn.cidrs)) [
        | inl missing ↦ ground arith
        | inr (c, found) ↦
            let (i, encloses, most) = closest_parent-some contents.cidr conn.cidrs c found in
            (c, i, ground arith, encloses, most)
      ]

  pub admissible-parts :
      (contents : CidrContents) (conn : Connection)
      → admissible pk contents conn ≡ ok tt
      → (attached_peers contents.parent conn ≡ 0)
        × (check_parent pk contents contents.parent conn ≡ ok tt)
        × (overlapping_sibling pk contents conn.cidrs ≡ false)
  unfolding admissible list
  admissible-parts contents conn h = (ground arith, ground arith, ground arith)

  abbrev pub new_row : CidrContents → Connection → Cidr
  new_row contents conn = record {
    id = pk.next_rowid (map (λ c. c.id) conn.cidrs);
    contents = contents;
  }

  -- `create` appends a row that passed every check, or fails and changes nothing.
  pub create-cases :
      (contents : CidrContents) (conn : Connection)
      → ((e : ServerError) × (create pk contents conn ≡ (conn, err e)))
        ⊎ ((admissible pk contents conn ≡ ok tt)
            × (accepted pk contents conn ≡ true)
            × (create pk contents conn ≡ (
              record conn { cidrs = conn.cidrs ++ new_row contents conn ∷ [] },
              ok (new_row contents conn),
            )))
  unfolding create insert
  create-cases contents conn = elim (Result-cases (admissible pk contents conn)) [
    | inr (e, bad) ↦ inl (e, ground (arith, bad))
    | inl (_, good) ↦ elim (Bool-cases (pk.write_fails conn)) [
      | inl broken ↦ inl (database other_failure, ground (arith, good, broken))
      | inr whole ↦ elim (Bool-cases (accepted pk contents conn)) [
        | inl fits ↦ inr (good, fits, ground (arith, good, fits, whole))
        | inr no_fit ↦ inl (database constraint_violation, ground (arith, good, no_fit, whole))
      ]
    ]
  ]
