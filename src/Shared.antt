-- ===== src/Shared.antt =====
-- shared/src/lib.rs: the data that client and server exchange, and the tree of CIDRs.
pub mod Tree
pub mod Diff
mod Tests
pub mod Files
pub mod InterfaceConfig
pub mod Prompts
pub mod Commands
use innernet.Prelude.{ℕ, ◌*◌, String, Bool, Option, none, some, List}
use innernet.Net.{IpAddr, SocketAddr, IpNetwork}

abbrev pub persistent_keepalive_interval_secs : ℕ
persistent_keepalive_interval_secs = 25

pub data EndpointContents : Type 0 where
  set : SocketAddr → EndpointContents
  unset : EndpointContents

unfoldable pub to_option : EndpointContents → Option SocketAddr
to_option (set addr) = some addr
to_option unset = none

unfoldable pub of_option : Option SocketAddr → EndpointContents
of_option (some addr) = set addr
of_option none = unset

pub record AssociationContents : Type 0 where
  pub cidr_id_1 : ℕ
  pub cidr_id_2 : ℕ

pub record Association : Type 0 where
  pub id : ℕ
  pub contents : AssociationContents
  pub open contents use *

pub record CidrContents : Type 0 where
  pub name : String
  pub cidr : IpNetwork
  pub parent : Option ℕ

pub record Cidr : Type 0 where
  pub id : ℕ
  pub contents : CidrContents
  pub open contents use *

pub record RedeemContents : Type 0 where
  pub public_key : String

pub record PeerContents : Type 0 where
  pub name : String
  pub ip : IpAddr
  pub cidr_id : ℕ
  pub public_key : String
  pub endpoint : Option SocketAddr
  pub persistent_keepalive_interval : Option ℕ
  pub is_admin : Bool
  pub is_disabled : Bool
  pub is_redeemed : Bool

pub record Peer : Type 0 where
  pub id : ℕ
  pub contents : PeerContents
  pub open contents use *

pub record PeerDiff : Type 0 where
  pub public_key : String
  pub endpoint : Option SocketAddr
  pub persistent_keepalive_interval : Option ℕ
  pub is_disabled : Bool

pub record State : Type 0 where
  pub peers : List Peer
  pub cidrs : List Cidr
