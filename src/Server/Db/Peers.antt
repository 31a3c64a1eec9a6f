-- ===== src/Server/Db/Peers.antt =====
-- server/src/db/peer.rs: `DatabasePeer`, but for the query of the allowed peers.
use Prim.Native.String.{len}
pub mod Preserves
pub mod Creates
pub mod Offered
pub mod Effects
use innernet.Prelude.{
  ℕ, String, Bool, true, not, ◌&&◌, ◌||◌, some, List, [], ◌∷◌, ◌++◌, map, ltb, if◌then◌else◌, ◌==◌,
  nat_eq, string_eq, option_eq, any,
}
use innernet.Net.{IpAddr, ip_eq}
use innernet.Shared.{Peer, PeerContents, persistent_keepalive_interval_secs}
use innernet.Server.Db.Cidrs
use innernet.Server.Db.{
  not_found, invalid_query, database, constraint_violation, other_failure, Result, ok, err, ◌>>=◌,
  ◌>>◌, guard, PeerRow, Connection, Packages, Exec, query_row,
}

unfoldable pub from_row : PeerRow → Peer
from_row row = record {
  id = row.id;
  contents = record {
    name = row.name;
    ip = row.ip;
    cidr_id = row.cidr_id;
    public_key = row.public_key;
    endpoint = row.endpoint;
    persistent_keepalive_interval = some persistent_keepalive_interval_secs;
    is_admin = row.is_admin;
    is_disabled = row.is_disabled;
    is_redeemed = row.is_redeemed;
  };
}

abbrev pub row_of : ℕ → PeerContents → PeerRow
row_of id contents = record {
  id = id;
  name = contents.name;
  ip = contents.ip;
  public_key = contents.public_key;
  endpoint = contents.endpoint;
  cidr_id = contents.cidr_id;
  is_admin = contents.is_admin;
  is_disabled = contents.is_disabled;
  is_redeemed = contents.is_redeemed;
}

abbrev pub map_ok : {A B : Type 0} → (A → B) → Result A → Result B
map_ok f (ok a) = ok (f a)
map_ok f (err e) = err e

unfoldable pub get : ℕ → Connection → Result Peer
get id conn = map_ok from_row (query_row (λ p. p.id == id) conn.peers)

unfoldable pub get_from_ip : IpAddr → Connection → Result Peer
get_from_ip ip conn = map_ok from_row (query_row (λ p. p.ip == ip) conn.peers)

unfoldable pub list : Connection → Result (List Peer)
list conn = ok (map from_row conn.peers)

abbrev pub peer_name_regex : String
peer_name_regex = "^([a-z0-9]-?)*[a-z0-9]$"

abbrev pub updated_contents : PeerContents → PeerContents → PeerContents
updated_contents old contents = record old {
  name = contents.name;
  endpoint = contents.endpoint;
  is_admin = contents.is_admin;
  is_disabled = contents.is_disabled;
}

abbrev pub set_row : PeerContents → PeerRow → PeerRow
set_row new row = record row {
  name = new.name;
  endpoint = new.endpoint;
  is_admin = new.is_admin;
  is_disabled = new.is_disabled;
}

-- UPDATE peers SET … WHERE id = ?5, and its constraint UNIQUE (name).
abbrev pub renames_onto : ℕ → String → List PeerRow → Bool
renames_onto id name rows =
    any (λ p. p.id == id) rows && any (λ p. not (p.id == id) && (p.name == name)) rows

module _ (pk : Packages) where
  unfoldable pub is_valid_name : String → Bool
  is_valid_name name = ltb (len name) 64 && pk.is_match peer_name_regex name

  -- The checks that `create` makes before it inserts, the first of its queries being the one that
  -- fails if SQLite fails to read.
  unfoldable pub admissible : PeerContents → Connection → Result (Unit {0})
  admissible contents conn = do
    guard (is_valid_name contents.name) invalid_query
    guard (not (pk.read_fails conn)) (database other_failure)
    cidr ← Cidrs.get contents.cidr_id conn
    guard (pk.net.contains_ip cidr.cidr contents.ip) invalid_query
    guard (pk.net.is_assignable cidr.cidr contents.ip) invalid_query

  -- The constraints: three UNIQUE columns and the foreign key.
  abbrev pub accepted : PeerContents → Connection → Bool
  accepted contents conn =
      not (any (λ p. p.name == contents.name) conn.peers)
      && (not (any (λ p. p.ip == contents.ip) conn.peers)
          && (not (any (λ p. p.public_key == contents.public_key) conn.peers)
              && (not conn.foreign_keys || any (λ c. c.id == contents.cidr_id) conn.cidrs)))

  -- INSERT INTO peers
  unfoldable pub insert : PeerContents → Exec Peer
  insert contents conn =
      let id = pk.next_rowid (map (λ p. p.id) conn.peers) in
      if pk.write_fails conn
      then (conn, err (database other_failure))
      else if accepted contents conn
      then (
        record conn { peers = conn.peers ++ row_of id contents ∷ [] },
        ok (record { id = id; contents = contents }),
      )
      else (conn, err (database constraint_violation))

  unfoldable pub create : PeerContents → Exec Peer
  create contents conn = elim (admissible contents conn) [
    | ok _ ↦ insert contents conn
    | err e ↦ (conn, err e)
  ]

  -- The peer that is returned is `self` after the call.
  unfoldable pub update : Peer → PeerContents → Exec Peer
  update self contents conn =
      let new_contents = updated_contents self.contents contents in
      if not (is_valid_name contents.name)
      then (conn, err invalid_query)
      else if renames_onto self.id new_contents.name conn.peers
      then (conn, err (database constraint_violation))
      else (
        record conn {
          peers = map (λ p. if p.id == self.id then set_row new_contents p else p) conn.peers;
        },
        ok (record self { contents = new_contents }),
      )

-- UPDATE peers SET is_disabled = 1 WHERE id = ?1; an update of no row is an error.
unfoldable pub disable : ℕ → Exec (Unit {0})
disable id conn =
    if any (λ p. p.id == id) conn.peers
    then (
      record conn {
        peers = map (λ p. if p.id == id then record p { is_disabled = true } else p) conn.peers;
      },
      ok tt,
    )
    else (conn, err not_found)

abbrev pub to_redeem : ℕ → PeerRow → Bool
to_redeem id p = (p.id == id) && not p.is_redeemed

-- UPDATE peers SET is_redeemed = 1, public_key = ?1 WHERE id = ?2 AND is_redeemed = 0
unfoldable pub redeem : Peer → String → Exec Peer
redeem self pubkey conn =
    if not (any (to_redeem self.id) conn.peers)
    then (conn, err not_found)
    else if any (λ p. not (p.id == self.id) && (p.public_key == pubkey)) conn.peers
    then (conn, err (database constraint_violation))
    else (
      record conn {
        peers =
            map
              (λ p.
                if to_redeem self.id p
                then record p { is_redeemed = true; public_key = pubkey }
                else p)
              conn.peers;
      },
      ok (record self {
        contents = record (self.contents) { public_key = pubkey; is_redeemed = true };
      }),
    )
