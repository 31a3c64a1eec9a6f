-- ===== src/Server/Db/Associations.antt =====
-- server/src/db/association.rs: `DatabaseAssociation`.
pub mod Preserves
use innernet.Prelude.{
  ℕ, Bool, not, ◌&&◌, ◌||◌, List, [], ◌∷◌, ◌++◌, map, if◌then◌else◌, ◌==◌, nat_eq, string_eq,
  option_eq, any, filter,
}
use innernet.Shared.{Association, AssociationContents}
use innernet.Server.Db.{database, constraint_violation, Result, ok, err, Connection, Packages, Exec}

-- The constraints: UNIQUE (cidr_id_1, cidr_id_2) and two foreign keys.
abbrev pub accepted : AssociationContents → Connection → Bool
accepted contents conn =
    not (
      any (λ a. (a.cidr_id_1 == contents.cidr_id_1) && (a.cidr_id_2 == contents.cidr_id_2))
        conn.associations)
    && (not conn.foreign_keys
        || any (λ c. c.id == contents.cidr_id_1) conn.cidrs
          && any (λ c. c.id == contents.cidr_id_2) conn.cidrs)

unfoldable pub create : Packages → AssociationContents → Exec Association
create pk contents conn =
    let row : Association = record {
      id = pk.next_rowid (map (λ a. a.id) conn.associations);
      contents = contents;
    } in
    if accepted contents conn
    then (record conn { associations = conn.associations ++ row ∷ [] }, ok row)
    else (conn, err (database constraint_violation))

unfoldable pub delete : ℕ → Exec (Unit {0})
delete id conn =
    (record conn { associations = filter (λ a. not (a.id == id)) conn.associations }, ok tt)

unfoldable pub list : Connection → Result (List Association)
list conn = ok conn.associations
