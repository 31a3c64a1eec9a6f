-- ===== src/Server/Api.antt =====
-- server/src/api: the handlers of the HTTP interface, on the state that they share.
pub mod User
pub mod Admin
pub mod Routes
pub mod Keeps
pub mod Tasks
pub mod Handlers
pub mod Invariant
pub mod Guards
pub mod Methods
use innernet.Prelude.{
  ℕ, String, Option, none, some, List, [], ◌∷◌, map, if◌then◌else◌, ◌==◌, nat_eq, string_eq,
  option_eq,
}
use innernet.Net.{SocketAddr}
use innernet.Wg.DeviceBuilder.{DeviceConfigBuilder}
use innernet.Shared.{Cidr, Association, Peer, State}
use innernet.Server.Db.{ServerError, status_code, Result, ok, err, Connection}

-- The database, the endpoints seen on the interface, the configurations that were applied to the
-- interface, the latest last, and those that wait for their delay.
pub record ServerState : Type 0 where
  pub conn : Connection
  pub endpoints : List (String × SocketAddr)
  pub applied : List DeviceConfigBuilder
  pub scheduled : List DeviceConfigBuilder

pub data Body : Type 0 where
  nothing : Body
  one_peer : Peer → Body
  one_cidr : Cidr → Body
  all_peers : List Peer → Body
  all_cidrs : List Cidr → Body
  all_associations : List Association → Body
  network_state : State → Body

-- How a request ends: with a status and a body, in an error of the server, in a panic of the
-- handler, or in a query that never ends. `refused` is a rejection by a filter of `warp`, which
-- chooses the status.
pub data Reply : Type 0 where
  replied : ℕ → Body → Reply
  rejected : ServerError → Reply
  panicked diverged refused : Reply

-- `handle_rejection`
abbrev pub status : Reply → Option ℕ
status (replied code body) = some code
status (rejected e) = some (status_code e)
status _ = none

abbrev pub Handler : Type 0
Handler = ServerState → ServerState × Reply

-- What follows a result, with `?`.
abbrev pub after : {A : Type 0} → Result A → (A → Handler) → Handler
after (ok a) next s = next a s
after (err e) next s = (s, rejected e)

-- A statement of the database in a handler, and a query.
abbrev pub execute : {A : Type 0} → (Connection → Connection × Result A) → (A → Handler) → Handler
execute statement next s = let r = statement s.conn in after r.1 next (record s { conn = r.0 })

abbrev pub query : {A : Type 0} → (Connection → Result A) → (A → Handler) → Handler
query read next s = after (read s.conn) next s

unfoldable pub lookup : String → List (String × SocketAddr) → Option SocketAddr
lookup k [] = none
lookup k ((j, v) ∷ m) = if j == k then some v else lookup k m

abbrev pub inject_endpoint : List (String × SocketAddr) → Peer → Peer
inject_endpoint endpoints peer = elim peer.endpoint [
  | some _ ↦ peer
  | none ↦ elim (lookup peer.public_key endpoints) [
    | none ↦ peer
    | some endpoint ↦ record peer { contents = record (peer.contents) { endpoint = some endpoint } }
  ]
]

unfoldable pub inject_endpoints : List (String × SocketAddr) → List Peer → List Peer
inject_endpoints endpoints peers = map (inject_endpoint endpoints) peers
