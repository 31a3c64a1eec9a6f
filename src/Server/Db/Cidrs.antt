-- ===== src/Server/Db/Cidrs.antt =====
-- server/src/db/cidr.rs: `DatabaseCidr`.
pub mod Checks
pub mod Preserves
use innernet.Prelude.{
  ℕ, Bool, true, not, ◌&&◌, ◌||◌, Option, none, some, List, [], ◌∷◌, ◌++◌, map, ltb, if◌then◌else◌,
  ◌==◌, nat_eq, string_eq, option_eq, length, any, filter,
}
use innernet.Net.{IpNetwork, network_eq}
use innernet.Net.Intervals.{overlaps}
use innernet.Shared.{Cidr, CidrContents}
use innernet.Server.Db.{
  invalid_query, database, constraint_violation, other_failure, Result, ok, err, ◌>>=◌, ◌>>◌, guard,
  ok_or, Connection, Packages, Exec, query_row,
}

-- `Iterator::max_by_key`: of several greatest items the last is returned.
abbrev pub longer : Cidr → Cidr → Cidr
longer best c = if ltb c.cidr.prefix best.cidr.prefix then best else c

unfoldable pub longest_prefix : List Cidr → Option Cidr → Option Cidr
longest_prefix [] best = best
longest_prefix (c ∷ cs) none = longest_prefix cs (some c)
longest_prefix (c ∷ cs) (some best) = longest_prefix cs (some (longer best c))

-- `SELECT COUNT(*) FROM peers WHERE cidr_id = ?1`; no row has a cidr_id equal to NULL.
abbrev pub attached_peers : Option ℕ → Connection → ℕ
attached_peers none conn = 0
attached_peers (some parent) conn = length (filter (λ p. p.cidr_id == parent) conn.peers)

unfoldable pub get : ℕ → Connection → Result Cidr
get id conn = query_row (λ c. c.id == id) conn.cidrs

unfoldable pub list : Connection → Result (List Cidr)
list conn = ok conn.cidrs

module _ (pk : Packages) where
  unfoldable pub closest_parent : IpNetwork → List Cidr → Option Cidr
  unfolding longest_prefix
  closest_parent cidr cidrs =
      longest_prefix (filter (λ current. pk.net.is_subnet_of cidr current.cidr) cidrs) none

  unfoldable pub check_parent : CidrContents → Option ℕ → Connection → Result (Unit {0})
  check_parent contents none conn = ok tt
  check_parent contents (some parent_id) conn = do
    cidrs ← list conn
    closest ← ok_or (closest_parent contents.cidr cidrs) invalid_query
    guard (closest.id == parent_id) invalid_query
    parent ← get parent_id conn
    guard
        (pk.net.contains_ip parent.cidr (pk.net.network contents.cidr)
          && pk.net.contains_ip parent.cidr (pk.net.broadcast contents.cidr))
        invalid_query

  abbrev pub overlapping_sibling : CidrContents → List Cidr → Bool
  overlapping_sibling contents cidrs =
      any (λ s. overlaps pk.net contents.cidr s.cidr)
        (filter (λ current. current.parent == contents.parent) cidrs)

  -- The checks that `create` makes before it inserts, the first of its queries being the one that
  -- fails if SQLite fails to read.
  unfoldable pub admissible : CidrContents → Connection → Result (Unit {0})
  admissible contents conn = do
    guard (not (pk.read_fails conn)) (database other_failure)
    guard (attached_peers contents.parent conn == 0) invalid_query
    check_parent contents contents.parent conn
    cidrs ← list conn
    guard (not (overlapping_sibling contents cidrs)) invalid_query

  -- The constraints of the table: UNIQUE (name), UNIQUE (ip, prefix), and the foreign key.
  abbrev pub has_parent : Option ℕ → Connection → Bool
  has_parent none conn = true
  has_parent (some parent) conn = any (λ c. c.id == parent) conn.cidrs

  abbrev pub accepted : CidrContents → Connection → Bool
  accepted contents conn =
      not (any (λ c. c.name == contents.name) conn.cidrs)
      && (not (any (λ c. c.cidr == contents.cidr) conn.cidrs)
          && (not conn.foreign_keys || has_parent contents.parent conn))

  -- INSERT INTO cidrs
  unfoldable pub insert : CidrContents → Exec Cidr
  insert contents conn =
      let row : Cidr = record {
        id = pk.next_rowid (map (λ c. c.id) conn.cidrs);
        contents = contents;
      } in
      if pk.write_fails conn
      then (conn, err (database other_failure))
      else if accepted contents conn
      then (record conn { cidrs = conn.cidrs ++ row ∷ [] }, ok row)
      else (conn, err (database constraint_violation))

  unfoldable pub create : CidrContents → Exec Cidr
  create contents conn = elim (admissible contents conn) [
    | ok _ ↦ insert contents conn
    | err e ↦ (conn, err e)
  ]

-- A row that another row refers to is kept: ON DELETE RESTRICT.
abbrev pub is_referenced : ℕ → Connection → Bool
is_referenced id conn =
    any (λ c. c.parent == some id) conn.cidrs
    || (any (λ p. p.cidr_id == id) conn.peers
        || any (λ a. (a.cidr_id_1 == id) || (a.cidr_id_2 == id)) conn.associations)

abbrev pub is_restricted : ℕ → Connection → Bool
is_restricted id conn =
    any (λ c. c.id == id) conn.cidrs && (conn.foreign_keys && is_referenced id conn)

unfoldable pub delete : ℕ → Exec (Unit {0})
delete id conn =
    if is_restricted id conn
    then (conn, err (database constraint_violation))
    else (record conn { cidrs = filter (λ c. not (c.id == id)) conn.cidrs }, ok tt)
