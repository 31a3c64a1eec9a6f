-- ===== src/Net.antt =====
-- Addresses of the standard library (`IpAddr`, `SocketAddr`), and the `ipnetwork` package, which is
-- not part of the repository: an `IpNetwork` is what `IpNetwork::new` was given, and the package's
-- functions are the record `Ipnetwork`, with their documented behaviour as `IpnetworkLaws`.
pub mod Intervals
pub mod Ipv4
use innernet.Prelude.{
  ℕ, ◌≤◌, ◌≡◌, ◌↔◌, Bool, true, false, ◌&&◌, Option, List, arith, PartialEq, ◌==◌, nat_eq,
  string_eq, option_eq, In, contains_iff,
}

pub data IpAddr : Type 0 where
  v4 v6 : ℕ → IpAddr

abbrev pub ip_beq : IpAddr → IpAddr → Bool
ip_beq (v4 a) (v4 b) = a == b
ip_beq (v6 a) (v6 b) = a == b
ip_beq _ _ = false

pub ip_beq_iff : (a b : IpAddr) → (ip_beq a b ≡ true) ↔ (a ≡ b)
ip_beq_iff (v4 a) (v4 b) = ground arith
ip_beq_iff (v4 a) (v6 b) = ground arith
ip_beq_iff (v6 a) (v4 b) = ground arith
ip_beq_iff (v6 a) (v6 b) = ground arith

instance abbrev pub ip_eq : PartialEq IpAddr
ip_eq = record { same = ip_beq; same_iff = ip_beq_iff }

abbrev pub is_ipv4 : IpAddr → Bool
is_ipv4 (v4 _) = true
is_ipv4 (v6 _) = false

-- The order of two addresses of one family.
infix 50 ◌≤ip◌
abbrev pub ◌≤ip◌ : IpAddr → IpAddr → Type 0
v4 a ≤ip v4 b = a ≤ b
v6 a ≤ip v6 b = a ≤ b
_ ≤ip _ = ⊥

pub record SocketAddr : Type 0 where
  pub ip : IpAddr
  pub port : ℕ

abbrev pub socket_beq : SocketAddr → SocketAddr → Bool
socket_beq a b = (a.ip == b.ip) && (a.port == b.port)

pub socket_beq_iff : (a b : SocketAddr) → (socket_beq a b ≡ true) ↔ (a ≡ b)
socket_beq_iff a b = ground (arith, ip_beq_iff a.ip b.ip)

instance abbrev pub socket_eq : PartialEq SocketAddr
socket_eq = record { same = socket_beq; same_iff = socket_beq_iff }

pub record IpNetwork : Type 0 where
  pub ip : IpAddr
  pub prefix : ℕ

abbrev pub network_beq : IpNetwork → IpNetwork → Bool
network_beq a b = (a.ip == b.ip) && (a.prefix == b.prefix)

pub network_beq_iff : (a b : IpNetwork) → (network_beq a b ≡ true) ↔ (a ≡ b)
network_beq_iff a b = ground (arith, ip_beq_iff a.ip b.ip)

instance abbrev pub network_eq : PartialEq IpNetwork
network_eq = record { same = network_beq; same_iff = network_beq_iff }

-- The functions of the package that the program calls.
pub record Ipnetwork : Type 0 where
  pub new : IpAddr → ℕ → Option IpNetwork
  pub network : IpNetwork → IpAddr
  pub broadcast : IpNetwork → IpAddr
  pub contains_ip : IpNetwork → IpAddr → Bool
  pub is_subnet_of : IpNetwork → IpNetwork → Bool
  pub is_assignable : IpNetwork → IpAddr → Bool
  pub iter : IpNetwork → List IpAddr
  pub max_prefix : IpNetwork → ℕ

-- What the package documents: a network holds the addresses from its first to its last, a subnet
-- lies within, and `iter` goes through addresses of the network.
pub record IpnetworkLaws (net : Ipnetwork) : Type 0 where
  pub network-le-broadcast : (n : IpNetwork) → net.network n ≤ip net.broadcast n
  pub contains_iff :
      (n : IpNetwork) (a : IpAddr)
      → (net.contains_ip n a ≡ true) ↔ ((net.network n ≤ip a) × (a ≤ip net.broadcast n))
  pub subnet_iff :
      (n m : IpNetwork)
      → (net.is_subnet_of n m ≡ true)
        ↔ ((net.network m ≤ip net.network n) × (net.broadcast n ≤ip net.broadcast m))
  pub iter-contains : (n : IpNetwork) (a : IpAddr) → In a (net.iter n) → net.contains_ip n a ≡ true
