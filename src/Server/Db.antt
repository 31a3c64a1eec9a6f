-- ===== src/Server/Db.antt =====
-- server/src/db and server/src/error.rs: the connection to the database as three tables, the
-- errors, and what the server takes from packages. The SQL texts of the source are read as
-- functions on the tables; a query without ORDER BY returns its rows in the order of the table.
pub mod Cidrs
pub mod Peers
pub mod Associations
pub mod Access
pub mod Failures
pub mod Invariant
use innernet.Prelude.{
  ℕ, ◌+◌, ◌<◌, String, ◌≡◌, refl, ◌⊎◌, inl, inr, Bool, true, false, Option, none, some, List, [],
  ◌∷◌, In, find,
}
use innernet.Net.{IpAddr, SocketAddr, Ipnetwork, IpnetworkLaws}
use innernet.Shared.{Cidr, Association, Peer, persistent_keepalive_interval_secs}

-- Of `rusqlite::Error` the code tells two cases from the rest.
pub data DatabaseError : Type 0 where
  constraint_violation query_returned_no_rows other_failure : DatabaseError

pub data ServerError : Type 0 where
  unauthorized not_found invalid_query : ServerError
  database : DatabaseError → ServerError
  wire_guard io : ServerError

-- The HTTP status of an error.
unfoldable pub status_code : ServerError → ℕ
status_code unauthorized = 401
status_code not_found = 404
status_code invalid_query = 400
status_code (database constraint_violation) = 400
status_code (database query_returned_no_rows) = 404
status_code (database other_failure) = 500
status_code wire_guard = 500
status_code io = 500

pub data Result (A : Type 0) : Type 0 where
  ok : A → Result A
  err : ServerError → Result A

infixl 5 ◌>>=◌ ◌>>◌
abbrev pub ◌>>=◌ : {A B : Type 0} → Result A → (A → Result B) → Result B
ok a >>= f = f a
err e >>= f = err e

abbrev pub ◌>>◌ : {B : Type 0} → Result (Unit {0}) → Result B → Result B
m >> k = m >>= λ _. k

-- `if !test { return Err(e) }`
abbrev pub guard : Bool → ServerError → Result (Unit {0})
guard true e = ok tt
guard false e = err e

abbrev pub ok_or : {A : Type 0} → Option A → ServerError → Result A
ok_or none e = err e
ok_or (some a) e = ok a

-- A row of `peers`. The keepalive interval of a peer is not stored.
pub record PeerRow : Type 0 where
  pub id : ℕ
  pub name : String
  pub ip : IpAddr
  pub public_key : String
  pub endpoint : Option SocketAddr
  pub cidr_id : ℕ
  pub is_admin : Bool
  pub is_disabled : Bool
  pub is_redeemed : Bool

pub record Connection : Type 0 where
  pub peers : List PeerRow
  pub associations : List Association
  pub cidrs : List Cidr
  -- PRAGMA foreign_keys, which is off until a connection turns it on
  pub foreign_keys : Bool

-- What the server takes from packages: `ipnetwork`, the row that SQLite numbers next, whether SQLite
-- fails to read or to write the tables for a reason that is not in them (a disk that is full, a row
-- that cannot be read), and `regex`.
pub record Packages : Type 0 where
  pub net : Ipnetwork
  pub next_rowid : List ℕ → ℕ
  pub read_fails : Connection → Bool
  pub write_fails : Connection → Bool
  pub is_match : String → String → Bool

-- SQLite numbers a new row above the rows that a table holds, the first row 1, and a second row
-- next to the first.
pub record PackagesLaws (pk : Packages) : Type 0 where
  pub net_laws : IpnetworkLaws pk.net
  pub next_rowid-above : (ids : List ℕ) (i : ℕ) → In i ids → i < pk.next_rowid ids
  pub next_rowid-nil : pk.next_rowid [] ≡ 1
  pub next_rowid-one : (i : ℕ) → pk.next_rowid (i ∷ []) ≡ 1 + i

-- A statement that changes tables returns the new connection, also where it fails.
abbrev pub Exec : Type 0 → Type 0
Exec A = Connection → Connection × Result A

-- `SELECT … WHERE id = ?`, by `query_row`.
abbrev pub query_row : {A : Type 0} → (A → Bool) → List A → Result A
query_row p rows = ok_or (find p rows) (database query_returned_no_rows)

pub Result-cases :
    {A : Type 0} (r : Result A) → ((a : A) × (r ≡ ok a)) ⊎ ((e : ServerError) × (r ≡ err e))
Result-cases (ok a) = inl (a, refl)
Result-cases (err e) = inr (e, refl)
