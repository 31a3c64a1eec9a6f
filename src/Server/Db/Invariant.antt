-- ===== src/Server/Db/Invariant.antt =====
-- What a database of the server keeps: keys are unique, the CIDRs form a tree of nested networks
-- whose siblings are disjoint, and every peer has an assignable address of its CIDR.
use innernet.Prelude.{ℕ, ◌<◌, ◌≡◌, ◌≢◌, ◌⊎◌, inl, inr, true, some, List, In, DistinctBy}
use innernet.Net.{Ipnetwork}
use innernet.Net.Intervals.{Disjoint, Within}
use innernet.Shared.{Cidr, Association}
use innernet.Server.Db.{PeerRow, Connection}

-- The network of a CIDR lies in that of its parent, which is an older row.
abbrev pub HasParent : Ipnetwork → List Cidr → Cidr → Type 0
HasParent net cidrs c =
    (p : ℕ)
    → c.parent ≡ some p
    → (d : Cidr) × In d cidrs × (d.id ≡ p) × (d.id < c.id) × Within net c.cidr d.cidr

-- The peer's CIDR exists, and the address may be assigned in it.
abbrev pub HasHome : Ipnetwork → List Cidr → PeerRow → Type 0
HasHome net cidrs p =
    (c : Cidr) × In c cidrs
    × (c.id ≡ p.cidr_id)
    × (net.contains_ip c.cidr p.ip ≡ true)
    × (net.is_assignable c.cidr p.ip ≡ true)

abbrev pub HasCidr : List Cidr → ℕ → Type 0
HasCidr cidrs id = (c : Cidr) × In c cidrs × (c.id ≡ id)

abbrev pub AreDisjoint : Ipnetwork → Cidr → Cidr → Type 0
AreDisjoint net c d = c.parent ≡ d.parent → c.id ≢ d.id → Disjoint net c.cidr d.cidr

-- The rows of `cidrs`.
pub record IsCidrTree (net : Ipnetwork) (cidrs : List Cidr) : Type 0 where
  pub ids : DistinctBy (λ c. c.id) cidrs
  pub names : DistinctBy (λ c. c.name) cidrs
  pub networks : DistinctBy (λ c. c.cidr) cidrs
  pub parents : (c : Cidr) → In c cidrs → HasParent net cidrs c
  pub siblings : (c d : Cidr) → In c cidrs → In d cidrs → AreDisjoint net c d

-- The rows of `peers`, over those of `cidrs`.
pub record ArePeers (net : Ipnetwork) (cidrs : List Cidr) (peers : List PeerRow) : Type 0 where
  pub ids : DistinctBy (λ p. p.id) peers
  pub names : DistinctBy (λ p. p.name) peers
  pub ips : DistinctBy (λ p. p.ip) peers
  pub keys : DistinctBy (λ p. p.public_key) peers
  pub homes : (p : PeerRow) → In p peers → HasHome net cidrs p

-- The rows of `associations`, over those of `cidrs`.
pub record AreAssociations (cidrs : List Cidr) (associations : List Association) : Type 0 where
  pub ids : DistinctBy (λ a. a.id) associations
  pub firsts : (a : Association) → In a associations → HasCidr cidrs a.cidr_id_1
  pub seconds : (a : Association) → In a associations → HasCidr cidrs a.cidr_id_2
  pub pairs :
      (a b : Association)
      → In a associations
      → In b associations
      → a.cidr_id_1 ≡ b.cidr_id_1
      → a.cidr_id_2 ≡ b.cidr_id_2
      → a.id ≡ b.id

pub record WellFormed (net : Ipnetwork) (conn : Connection) : Type 0 where
  pub tree : IsCidrTree net conn.cidrs
  pub members : ArePeers net conn.cidrs conn.peers
  pub links : AreAssociations conn.cidrs conn.associations

-- More CIDRs harm no peer and no association.
pub ArePeers-mono :
    (net : Ipnetwork) (cidrs more : List Cidr) (peers : List PeerRow)
    → ((p : PeerRow) (c : Cidr) → In p peers → In c cidrs → c.id ≡ p.cidr_id → In c more)
    → ArePeers net cidrs peers
    → ArePeers net more peers
ArePeers-mono net cidrs more peers keep a = record {
  ids = a.ids;
  names = a.names;
  ips = a.ips;
  keys = a.keys;
  homes = λ p i. let (c, j, e, inside, free) = a.homes p i in (c, keep p c i j e, e, inside, free);
}

pub AreAssociations-mono :
    (cidrs more : List Cidr) (associations : List Association)
    → ((a : Association) (c : Cidr)
        → In a associations
        → In c cidrs
        → (c.id ≡ a.cidr_id_1) ⊎ (c.id ≡ a.cidr_id_2)
        → In c more)
    → AreAssociations cidrs associations
    → AreAssociations more associations
AreAssociations-mono cidrs more associations keep l = record {
  ids = l.ids;
  firsts = λ a i. let (c, j, e) = l.firsts a i in (c, keep a c i j (inl e), e);
  seconds = λ a i. let (c, j, e) = l.seconds a i in (c, keep a c i j (inr e), e);
  pairs = l.pairs;
}
