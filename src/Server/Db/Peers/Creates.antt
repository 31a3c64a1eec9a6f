-- ===== src/Server/Db/Peers/Creates.antt =====
-- `DatabasePeer::create` keeps the database well formed.
use innernet.Prelude.{
  ◌≡◌, sym, subst, ◌⊎◌, inl, inr, true, [], ◌∷◌, ◌++◌, map, arith, Bool-cases, Option-cases, ◌==◌,
  ==_iff, nat_eq, string_eq, option_eq, In-append, find, find-some, In-map, DistinctBy-append,
  fresh_key,
}
use innernet.Net.{ip_eq}
use innernet.Shared.{Cidr, PeerContents}
use innernet.Server.Db.{
  ServerError, Result-cases, database, constraint_violation, other_failure, ok, err, PeerRow,
  Connection, Packages, PackagesLaws,
}
use innernet.Server.Db.Invariant.{HasHome, WellFormed}
use innernet.Server.Db.Cidrs
use innernet.Server.Db.Peers.{row_of, admissible, accepted, insert, create, is_valid_name}

module _ (pk : Packages) where
  abbrev pub new_row : PeerContents → Connection → PeerRow
  new_row contents conn = row_of (pk.next_rowid (map (λ p. p.id) conn.peers)) contents

  -- `create` appends a row that passed every check, or fails and changes nothing.
  pub create-cases :
      (contents : PeerContents) (conn : Connection)
      → ((e : ServerError) × (create pk contents conn ≡ (conn, err e)))
        ⊎ ((admissible pk contents conn ≡ ok tt)
            × (accepted pk contents conn ≡ true)
            × (create pk contents conn ≡ (
              record conn { peers = conn.peers ++ new_row contents conn ∷ [] },
              ok (record { id = (new_row contents conn).id; contents = contents }),
            )))
  unfolding create insert
  create-cases contents conn = elim (Result-cases (admissible pk contents conn)) [
    | inr (e, bad) ↦ inl (e, ground (arith, bad))
    | inl (_, good) ↦ elim (Bool-cases (pk.write_fails conn)) [
      | inl broken ↦ inl (database other_failure, ground (arith, good, broken))
      | inr whole ↦ elim (Bool-cases (accepted pk contents conn)) [
        | inl fits ↦ inr (good, fits, ground (arith, good, fits, whole))
        | inr no_fit ↦ inl (database constraint_violation, ground (arith, good, no_fit, whole))
      ]
    ]
  ]

  -- What the checks of `create` establish: a valid name, and a home for the new peer.
  pub admissible-parts :
      (contents : PeerContents) (conn : Connection)
      → admissible pk contents conn ≡ ok tt
      → (is_valid_name pk contents.name ≡ true) × HasHome pk.net conn.cidrs (new_row contents conn)
  unfolding admissible Cidrs.get
  admissible-parts contents conn h =
      elim (Option-cases (find (λ (c : Cidr). c.id == contents.cidr_id) conn.cidrs)) [
        | inl missing ↦ ground arith
        | inr (c, found) ↦
            let (i, e) = find-some (λ (x : Cidr). x.id == contents.cidr_id) conn.cidrs found in
            (ground arith, (c, i, (==_iff c.id contents.cidr_id).0 e, ground arith, ground arith))
      ]

-- Creating a peer keeps a well formed database well formed, whatever the request asks for.
pub create_peer-WellFormed :
    (pk : Packages) (laws : PackagesLaws pk) (contents : PeerContents) (conn : Connection)
    → WellFormed pk.net conn
    → WellFormed pk.net (create pk contents conn).0
create_peer-WellFormed pk laws contents conn w = elim (create-cases pk contents conn) [
  | inl (e, failed) ↦ rw failed w
  | inr (good, fits, done) ↦
      let row = new_row pk contents conn in
      let old = conn.peers in
      rw done (record {
        tree = w.tree;
        members = record {
          ids =
              DistinctBy-append (λ (p : PeerRow). p.id) old row w.members.ids
                (λ p i e. omega (
                  arith,
                  laws.next_rowid-above (map (λ q. q.id) old) p.id (In-map (λ q. q.id) old p i),
                  e,
                ));
          names =
              DistinctBy-append (λ (p : PeerRow). p.name) old row w.members.names
                (fresh_key (λ (p : PeerRow). p.name) old contents.name (ground arith));
          ips =
              DistinctBy-append (λ (p : PeerRow). p.ip) old row w.members.ips
                (fresh_key (λ (p : PeerRow). p.ip) old contents.ip (ground arith));
          keys =
              DistinctBy-append (λ (p : PeerRow). p.public_key) old row w.members.keys
                (fresh_key (λ (p : PeerRow). p.public_key) old contents.public_key (ground arith));
          homes = λ p i. elim (In-append p old (row ∷ []) i) [
            | inl j ↦ w.members.homes p j
            | inr (inl e) ↦
                subst (HasHome pk.net conn.cidrs) (sym e) (admissible-parts pk contents conn good).1
            | inr (inr z) ↦ absurd z
          ];
        };
        links = w.links;
      })
]
