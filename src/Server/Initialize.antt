-- ===== src/Server/Initialize.antt =====
-- server/src/initialize.rs: the database of a new network. An error carries the text that the wizard
-- reports.
use innernet.Prelude.{
  ℕ, String, ◌≡◌, sym, ap, subst, ◌⊎◌, inl, inr, true, false, Option, none, some, [], ◌∷◌, arith,
}
use innernet.Net.{IpAddr, SocketAddr, IpNetwork, Ipnetwork}
use innernet.Shared.{Cidr, CidrContents, Peer, PeerContents, persistent_keepalive_interval_secs}
use innernet.Server.Db.{Result, ok, err, Connection, Packages, PackagesLaws}
use innernet.Server.Db.Invariant.{WellFormed}
use innernet.Server.Db.Cidrs
use innernet.Server.Db.Cidrs.Checks
use innernet.Server.Db.Cidrs.Preserves.{create_cidr-WellFormed}
use innernet.Server.Db.Peers
use innernet.Server.Db.Peers.Creates
use innernet.Server.Db.Access.{infra_cidr_id}

-- Three empty tables, and foreign keys on.
unfoldable pub create_database : Connection
create_database = record { peers = []; associations = []; cidrs = []; foreign_keys = true }

pub record DbInitData : Type 0 where
  pub root_cidr_name : String
  pub root_cidr : IpNetwork
  pub server_cidr : IpNetwork
  pub our_ip : IpAddr
  pub public_key_base64 : String
  pub endpoint : SocketAddr

abbrev pub server_name : String
server_name = "innernet-server"

abbrev pub root_contents : DbInitData → CidrContents
root_contents d = record { name = d.root_cidr_name; cidr = d.root_cidr; parent = none }

abbrev pub server_contents : DbInitData → ℕ → CidrContents
server_contents d root_id = record {
  name = server_name;
  cidr = d.server_cidr;
  parent = some root_id;
}

abbrev pub me : DbInitData → ℕ → PeerContents
me d server_id = record {
  name = server_name;
  ip = d.our_ip;
  cidr_id = server_id;
  public_key = d.public_key_base64;
  endpoint = some d.endpoint;
  persistent_keepalive_interval = some persistent_keepalive_interval_secs;
  is_admin = true;
  is_disabled = false;
  is_redeemed = true;
}

-- `.map_err(…)?` after a statement.
abbrev pub or_fail :
    {A : Type 0}
    → String
    → (A → Connection → Connection × Option String)
    → Connection × Result A
    → Connection × Option String
or_fail message next (conn, ok a) = next a conn
or_fail message next (conn, err e) = (conn, some message)

module _ (pk : Packages) where
  -- `none` is success.
  unfoldable pub populate_database : DbInitData → Connection → Connection × Option String
  populate_database d conn =
      or_fail "failed to create root CIDR"
        (λ (root_cidr : Cidr). λ conn1.
          or_fail "failed to create innernet-server CIDR"
            (λ (server_cidr : Cidr). λ conn2.
              or_fail "failed to create innernet peer." (λ (p : Peer). λ conn3. (conn3, none))
                (Peers.create pk (me d server_cidr.id) conn2))
            (Cidrs.create pk (server_contents d root_cidr.id) conn1))
        (Cidrs.create pk (root_contents d) conn)

create_database-WellFormed : (net : Ipnetwork) → WellFormed net create_database
unfolding create_database
create_database-WellFormed net = record {
  tree = record {
    ids = tt;
    names = tt;
    networks = tt;
    parents = λ c i. elim i [ ];
    siblings = λ c d i. elim i [ ];
  };
  members = record { ids = tt; names = tt; ips = tt; keys = tt; homes = λ p i. elim i [ ] };
  links = record {
    ids = tt;
    firsts = λ a i. elim i [ ];
    seconds = λ a i. elim i [ ];
    pairs = λ a b i. elim i [ ];
  };
}

-- The database of a new network, if the wizard's choices are accepted.
abbrev pub populated : DbInitData → Connection
populated d = record {
  peers = Peers.row_of 1 (me d infra_cidr_id) ∷ [];
  associations = [];
  cidrs =
      record { id = 1; contents = root_contents d }
      ∷ record { id = infra_cidr_id; contents = server_contents d 1 }
      ∷ [];
  foreign_keys = true;
}

module _ (pk : Packages) (laws : PackagesLaws pk) (d : DbInitData) where
  abbrev HasFailed : {A : Type 0} → Connection → Connection × Result A → Type 0
  HasFailed {A} conn r = (e : _) × (r ≡ (conn, err e))

  abbrev with_root : Connection
  with_root = record {
    peers = [];
    associations = [];
    cidrs = record { id = 1; contents = root_contents d } ∷ [];
    foreign_keys = true;
  }

  abbrev with_server : Connection
  with_server = record {
    peers = [];
    associations = [];
    cidrs = (populated d).cidrs;
    foreign_keys = true;
  }

  root_created :
      HasFailed create_database (Cidrs.create pk (root_contents d) create_database)
      ⊎ (Cidrs.create pk (root_contents d) create_database
          ≡ (with_root, ok (record { id = 1; contents = root_contents d })))
  unfolding create_database
  root_created = elim (Checks.create-cases pk (root_contents d) create_database) [
    | inl failed ↦ inl failed
    | inr (_, _, done) ↦ inr (rw laws.next_rowid-nil at done)
  ]

  server_created :
      HasFailed with_root (Cidrs.create pk (server_contents d 1) with_root)
      ⊎ (Cidrs.create pk (server_contents d 1) with_root
          ≡ (with_server, ok (record { id = infra_cidr_id; contents = server_contents d 1 })))
  server_created = elim (Checks.create-cases pk (server_contents d 1) with_root) [
    | inl failed ↦ inl failed
    | inr (_, _, done) ↦ inr (rw (laws.next_rowid-one 1) at done)
  ]

  me_created :
      HasFailed with_server (Peers.create pk (me d infra_cidr_id) with_server)
      ⊎ (Peers.create pk (me d infra_cidr_id) with_server
          ≡ (populated d, ok (record { id = 1; contents = me d infra_cidr_id })))
  me_created = elim (Creates.create-cases pk (me d infra_cidr_id) with_server) [
    | inl failed ↦ inl failed
    | inr (_, _, done) ↦ inr (rw laws.next_rowid-nil at done)
  ]

  -- When the new database is populated without an error, it is well formed, with foreign keys on,
  -- and holds just the root CIDR, below it the CIDR of the server, with the very id for which the
  -- query of the allowed peers has a literal, and in that the server itself, peer 1, as an
  -- administrator who has redeemed.
  pub populate_database-populated :
      (conn : Connection)
      → populate_database pk d create_database ≡ (conn, none)
      → (conn ≡ populated d) × WellFormed pk.net conn × (conn.foreign_keys ≡ true)
  unfolding populate_database
  populate_database-populated conn h = elim root_created [
    | inl (e, failed) ↦ ground (arith, failed)
    | inr root ↦ elim server_created [
      | inl (e, failed) ↦ ground (arith, root, failed)
      | inr server ↦ elim me_created [
        | inl (e, failed) ↦ ground (arith, root, server, failed)
        | inr mine ↦
            let same : conn ≡ populated d = ground (arith, root, server, mine) in
            let w1 =
              create_cidr-WellFormed pk laws (root_contents d) create_database
                (create_database-WellFormed pk.net) in
            let w2 =
              create_cidr-WellFormed pk laws (server_contents d 1) with_root
                (subst (λ (r : Connection × Result Cidr). WellFormed pk.net r.0) root w1) in
            let w3 =
              Creates.create_peer-WellFormed pk laws (me d infra_cidr_id) with_server
                (subst (λ (r : Connection × Result Cidr). WellFormed pk.net r.0) server w2) in
            (
              same,
              subst (WellFormed pk.net) (sym same)
                  (subst (λ (r : Connection × Result Peer). WellFormed pk.net r.0) mine w3),
              ap (λ (c : Connection). c.foreign_keys) same,
            )
      ]
    ]
  ]
