-- ===== src/Server/Db/Failures.antt =====
-- How creating a peer or a CIDR fails.
use innernet.Prelude.{
  ℕ, ◌≡◌, refl, ap, subst, ◌⊎◌, inl, inr, Bool, true, false, ◌&&◌, Option, none, some, arith,
  Bool-cases, Option-cases, ◌==◌, nat_eq, string_eq, option_eq, find,
}
use innernet.Shared.{Cidr, CidrContents}
use innernet.Server.Db.{
  ServerError, invalid_query, database, constraint_violation, query_returned_no_rows, other_failure,
  status_code, Result, ok, err, Connection, Packages,
}
use innernet.Server.Db.Cidrs
use innernet.Server.Db.Peers

-- The request was wrong, or it names a row that is not there, or SQLite failed by itself.
abbrev pub IsRefused : Packages → Connection → ServerError → Type 0
IsRefused pk conn e =
    (status_code e ≡ 400)
    ⊎ (status_code e ≡ 404)
    ⊎ ((status_code e ≡ 500) × ((pk.read_fails conn ≡ true) ⊎ (pk.write_fails conn ≡ true)))

module _ (pk : Packages) (conn : Connection) where
  invalid-IsRefused : (e : ServerError) → e ≡ invalid_query → IsRefused pk conn e
  unfolding status_code
  invalid-IsRefused e same = inl (ap status_code same)

  violation-IsRefused : (e : ServerError) → e ≡ database constraint_violation → IsRefused pk conn e
  unfolding status_code
  violation-IsRefused e same = inl (ap status_code same)

  missing-IsRefused : (e : ServerError) → e ≡ database query_returned_no_rows → IsRefused pk conn e
  unfolding status_code
  missing-IsRefused e same = inr (inl (ap status_code same))

  failed-IsRefused :
      (e : ServerError)
      → e ≡ database other_failure
      → (pk.read_fails conn ≡ true) ⊎ (pk.write_fails conn ≡ true)
      → IsRefused pk conn e
  unfolding status_code
  failed-IsRefused e same fails = inr (inr (ap status_code same, fails))

check_parent-IsRefused :
    (pk : Packages) (contents : CidrContents) (parent : Option ℕ) (conn : Connection)
    (e : ServerError)
    → Cidrs.check_parent pk contents parent conn ≡ err e
    → IsRefused pk conn e
unfolding Cidrs.check_parent Cidrs.list Cidrs.get
check_parent-IsRefused pk contents none conn e h = ground (arith, h)
check_parent-IsRefused pk contents (some parent_id) conn e h =
    elim (Option-cases (Cidrs.closest_parent pk contents.cidr conn.cidrs)) [
      | inl no_parent ↦ invalid-IsRefused pk conn e (ground (arith, h, no_parent))
      | inr (c, closest) ↦ elim (Bool-cases (c.id == parent_id)) [
        | inr other ↦ invalid-IsRefused pk conn e (ground (arith, h, closest, other))
        | inl right ↦ elim (Option-cases (find (λ (d : Cidr). d.id == parent_id) conn.cidrs)) [
          | inl missing ↦ missing-IsRefused pk conn e (ground (arith, h, closest, right, missing))
          | inr (d, found) ↦
              let inside : Bool =
                pk.net.contains_ip d.cidr (pk.net.network contents.cidr)
                && pk.net.contains_ip d.cidr (pk.net.broadcast contents.cidr) in
              elim (Bool-cases inside) [
                | inr outside ↦
                    invalid-IsRefused pk conn e (ground (arith, h, closest, right, found, outside))
                | inl fits ↦ ground (arith, h, closest, right, found, fits)
              ]
        ]
      ]
    ]

cidr_admissible-IsRefused :
    (pk : Packages) (contents : CidrContents) (conn : Connection) (e : ServerError)
    → Cidrs.admissible pk contents conn ≡ err e
    → IsRefused pk conn e
unfolding Cidrs.admissible Cidrs.list
cidr_admissible-IsRefused pk contents conn e h = elim (Bool-cases (pk.read_fails conn)) [
  | inl broken ↦ failed-IsRefused pk conn e (ground (arith, h, broken)) (inl broken)
  | inr whole ↦ elim (Bool-cases (Cidrs.attached_peers contents.parent conn == 0)) [
    | inr attached ↦ invalid-IsRefused pk conn e (ground (arith, h, whole, attached))
    | inl empty ↦ decided whole empty (Cidrs.check_parent pk contents contents.parent conn) refl
  ]
]
  where
    decided :
        pk.read_fails conn ≡ false
        → (Cidrs.attached_peers contents.parent conn == 0) ≡ true
        → (r : Result (Unit {0})) → Cidrs.check_parent pk contents contents.parent conn ≡ r
        → IsRefused pk conn e
    decided whole empty (err f) bad =
        let same : f ≡ e = ground (arith, h, whole, empty, bad) in
        subst (IsRefused pk conn) same
          (check_parent-IsRefused pk contents contents.parent conn f bad)
    decided whole empty (ok u) good =
        elim (Bool-cases (Cidrs.overlapping_sibling pk contents conn.cidrs)) [
          | inl overlaps ↦
              invalid-IsRefused pk conn e (ground (arith, h, whole, empty, good, overlaps))
          | inr quiet ↦ ground (arith, h, whole, empty, good, quiet)
        ]

-- Creating a CIDR that fails changes nothing, and is answered with the status 400 or 404, or, only
-- where SQLite fails by itself to read or to write, with 500.
pub create_cidr-IsRefused :
    (pk : Packages) (contents : CidrContents) (conn conn' : Connection) (e : ServerError)
    → Cidrs.create pk contents conn ≡ (conn', err e)
    → (conn' ≡ conn) × IsRefused pk conn e
unfolding Cidrs.create Cidrs.insert
create_cidr-IsRefused pk contents conn conn' e h = decided (Cidrs.admissible pk contents conn) refl
  where
    decided :
        (r : Result (Unit {0}))
        → Cidrs.admissible pk contents conn ≡ r
        → (conn' ≡ conn) × IsRefused pk conn e
    decided (err f) bad =
        let same : f ≡ e = ground (arith, h, bad) in
        (
          ground (arith, h, bad),
          subst (IsRefused pk conn) same (cidr_admissible-IsRefused pk contents conn f bad),
        )
    decided (ok u) good = elim (Bool-cases (pk.write_fails conn)) [
      | inl broken ↦ (
        ground (arith, h, good, broken),
        failed-IsRefused pk conn e (ground (arith, h, good, broken)) (inr broken),
      )
      | inr whole ↦ elim (Bool-cases (Cidrs.accepted pk contents conn)) [
        | inl fits ↦ ground (arith, h, good, whole, fits)
        | inr no_fit ↦ (
          ground (arith, h, good, whole, no_fit),
          violation-IsRefused pk conn e (ground (arith, h, good, whole, no_fit)),
        )
      ]
    ]
