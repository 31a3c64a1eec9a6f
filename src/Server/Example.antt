-- ===== src/Server/Example.antt =====
-- A small network, and a concrete choice of the packages, at which theorems on the server are
-- applied.
use innernet.Prelude.{
  ℕ, ◌+◌, ◌<◌, String, ◌≡◌, refl, subst, inl, inr, Bool, true, false, none, some, List, [], ◌∷◌,
  arith, ltb, if◌then◌else◌, In,
}
use innernet.Net.{IpNetwork, v4}
use innernet.Net.Ipv4.{ipv4, ipv4_laws}
use innernet.Shared.{Cidr, CidrContents, PeerContents}
use innernet.Server.Db.{PeerRow, Connection, Packages, PackagesLaws}
use innernet.Server.Db.Invariant.{WellFormed}
use innernet.Server.Db.Cidrs
use innernet.Server.Db.Cidrs.Preserves.{create_cidr-WellFormed}
use innernet.Server.Db.Peers
use innernet.Server.Db.Peers.Creates.{create_peer-WellFormed}
use innernet.Server.Db.Associations
use innernet.Server.Db.Associations.Preserves.{create_association-WellFormed}

abbrev pub greatest : List ℕ → ℕ
greatest [] = 0
greatest (i ∷ is) = if ltb (greatest is) i then i else greatest is

greatest-above : (ids : List ℕ) (i : ℕ) → In i ids → i < 1 + greatest ids
greatest-above [] i h = elim h [ ]
greatest-above (j ∷ js) i (inl e) = ground arith
greatest-above (j ∷ js) i (inr h) = ground (arith, greatest-above js i h)

greatest_one : (i : ℕ) → 1 + greatest (i ∷ []) ≡ 1 + i
greatest_one i = ground arith

abbrev pub packages : Packages
packages = record {
  net = ipv4;
  next_rowid = λ ids. 1 + greatest ids;
  read_fails = λ conn. false;
  write_fails = λ conn. false;
  is_match = λ pattern name. true;
}

pub packages_laws : PackagesLaws packages
packages_laws = record {
  net_laws = ipv4_laws;
  next_rowid-above = greatest-above;
  next_rowid-nil = refl;
  next_rowid-one = greatest_one;
}

abbrev pub network : ℕ → ℕ → IpNetwork
network ip prefix = record { ip = v4 ip; prefix = prefix }

abbrev root_contents : CidrContents
root_contents = record { name = "net"; cidr = network 0 16; parent = none }

abbrev infra_contents : CidrContents
infra_contents = record { name = "infra"; cidr = network 0 24; parent = some 1 }

abbrev pub humans_contents : CidrContents
humans_contents = record { name = "humans"; cidr = network 256 24; parent = some 1 }

abbrev pub robots_contents : CidrContents
robots_contents = record { name = "robots"; cidr = network 512 24; parent = some 1 }

abbrev pub humans : Cidr
humans = record { id = 3; contents = humans_contents }

abbrev pub robots : Cidr
robots = record { id = 4; contents = robots_contents }

abbrev pub peer_contents : String → ℕ → ℕ → Bool → Bool → PeerContents
peer_contents name ip cidr_id is_admin is_redeemed = record {
  name = name;
  ip = v4 ip;
  cidr_id = cidr_id;
  public_key = name;
  endpoint = none;
  persistent_keepalive_interval = none;
  is_admin = is_admin;
  is_disabled = false;
  is_redeemed = is_redeemed;
}

abbrev pub alice : PeerRow
alice = Peers.row_of 1 (peer_contents "alice" 257 3 true true)

abbrev pub bob : PeerRow
bob = Peers.row_of 2 (peer_contents "bob" 513 4 false false)

abbrev empty : Connection
empty = record { peers = []; associations = []; cidrs = []; foreign_keys = true }

-- An administrator among the humans, and a peer among the robots who has yet to redeem.
abbrev pub database : Connection
database = record {
  peers = alice ∷ bob ∷ [];
  associations = record { id = 1; contents = record { cidr_id_1 = 3; cidr_id_2 = 4 } } ∷ [];
  cidrs =
      record { id = 1; contents = root_contents }
      ∷ record { id = 2; contents = infra_contents }
      ∷ humans
      ∷ robots
      ∷ [];
  foreign_keys = true;
}

empty-WellFormed : WellFormed ipv4 empty
empty-WellFormed = record {
  tree = record {
    ids = tt;
    names = tt;
    networks = tt;
    parents = λ c i. elim i [ ];
    siblings = λ c d i. elim i [ ];
  };
  members = record { ids = tt; names = tt; ips = tt; keys = tt; homes = λ p i. elim i [ ] };
  links = record {
    ids = tt;
    firsts = λ a i. elim i [ ];
    seconds = λ a i. elim i [ ];
    pairs = λ a b i. elim i [ ];
  };
}

-- The statements that build it up.
abbrev with_cidrs : Connection
with_cidrs =
    let c1 = (Cidrs.create packages root_contents empty).0 in
    let c2 = (Cidrs.create packages infra_contents c1).0 in
    let c3 = (Cidrs.create packages humans_contents c2).0 in
    (Cidrs.create packages robots_contents c3).0

with_cidrs-WellFormed : WellFormed ipv4 with_cidrs
with_cidrs-WellFormed =
    let w1 = create_cidr-WellFormed packages packages_laws root_contents empty empty-WellFormed in
    let w2 = create_cidr-WellFormed packages packages_laws infra_contents _ w1 in
    let w3 = create_cidr-WellFormed packages packages_laws humans_contents _ w2 in
    create_cidr-WellFormed packages packages_laws robots_contents _ w3

abbrev built : Connection
built =
    let p1 = (Peers.create packages (peer_contents "alice" 257 3 true true) with_cidrs).0 in
    let p2 = (Peers.create packages (peer_contents "bob" 513 4 false false) p1).0 in
    (Associations.create packages (record { cidr_id_1 = 3; cidr_id_2 = 4 }) p2).0

built-database : built ≡ database
unfolding ipv4 Cidrs.closest_parent Cidrs.longest_prefix Cidrs.check_parent Cidrs.list Cidrs.get
    Cidrs.admissible Cidrs.insert Cidrs.create Peers.is_valid_name Peers.admissible Peers.insert
    Peers.create Associations.create
built-database = refl

with_bob_checked :
    (Peers.create packages
      (peer_contents "bob" 513 4 false false)
      (Peers.create packages (peer_contents "alice" 257 3 true true) with_cidrs).0).0.foreign_keys
    ≡ true
unfolding ipv4 Cidrs.closest_parent Cidrs.longest_prefix Cidrs.check_parent Cidrs.list Cidrs.get
    Cidrs.admissible Cidrs.insert Cidrs.create Peers.is_valid_name Peers.admissible Peers.insert
    Peers.create
with_bob_checked = refl

pub database-WellFormed : WellFormed ipv4 database
database-WellFormed = subst (WellFormed ipv4) built-database (
    create_association-WellFormed packages packages_laws _ _ with_bob_checked (
      create_peer-WellFormed packages packages_laws _ _
        (create_peer-WellFormed packages packages_laws _ _ with_cidrs-WellFormed)))
