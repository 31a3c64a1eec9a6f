-- ===== src/Server/Commands.antt =====
-- server/src/main.rs: the paths of the server's files, and the commands `add-peer` and `add-cidr`,
-- which work on the database themselves. The answers to the dialogs are arguments.
pub mod Keeps
use innernet.Prelude.{ℕ, String, Bool, true, false, Option, none, some, map, if◌then◌else◌}
use innernet.Net.{IpNetwork, SocketAddr}
use innernet.Wg.{Base64, KeyPair}
use innernet.Wg.DeviceBuilder
use innernet.Wg.DeviceBuilder.{DeviceConfigBuilder}
use innernet.Shared.{Peer, PeerContents}
use innernet.Shared.Diff.{peer_builder}
use innernet.Shared.Tree as Tree
use innernet.Shared.InterfaceConfig.{InterfaceConfig}
use innernet.Shared.Prompts as Prompts
use innernet.Shared.Prompts.{Prompt, chosen, declined, panicked, error, PeerAnswers}
use innernet.Server.Db.{ok, err, Connection, Packages}
use innernet.Server.Db.Cidrs
use innernet.Server.Db.Peers
use innernet.Server.Db.Peers.{from_row}

-- `wg_manage_dir_override` and `wg_dir_override`; `join` puts a name and an extension below a path.
pub record ServerConfig : Type 0 where
  pub wg_manage_dir_override : Option String
  pub wg_dir_override : Option String

abbrev server_config_dir : String
server_config_dir = "/etc/innernet-server"

abbrev server_database_dir : String
server_database_dir = "/var/lib/innernet-server"

abbrev or_else : Option String → String → String
or_else none d = d
or_else (some p) d = p

unfoldable pub database_path : (String → String → String → String) → ServerConfig → String → String
database_path join conf interface =
    join (or_else conf.wg_manage_dir_override server_database_dir) interface "db"

unfoldable pub config_path : (String → String → String → String) → ServerConfig → String → String
config_path join conf interface =
    join (or_else conf.wg_dir_override server_config_dir) interface "conf"

-- A file that is there is opened; foreign keys are off, since no pragma turns them on.
unfoldable pub open_database_connection : Option Connection → Option Connection
open_database_connection none = none
open_database_connection (some database) = some (record database { foreign_keys = false })

-- How a command ends: with the database after it, what it applied to the interface, and, in its last
-- field, whether it came to its end, in an error, or in a panic.
pub data End : Type 0 where
  finished : Option InterfaceConfig → End
  failed gave_up : End

pub record Ended : Type 0 where
  pub conn : Connection
  pub applied : Option DeviceConfigBuilder
  pub end : End

abbrev pub end_of : Prompt InterfaceConfig → End
end_of (chosen invitation) = finished (some invitation)
end_of declined = finished none
end_of panicked = gave_up
end_of error = failed

abbrev pub ended : Connection → Option DeviceConfigBuilder → End → Ended
ended conn applied end = record { conn = conn; applied = applied; end = end }

module _ (pk : Packages) where
  unfoldable pub add_cidr : ℕ → String → IpNetwork → Bool → Connection → Ended
  unfolding Prompts.add_cidr Cidrs.create
  add_cidr index name cidr confirm conn =
      elim (Prompts.add_cidr conn.cidrs index name cidr confirm) [
        | chosen cidr_request ↦
            let r = Cidrs.create pk cidr_request conn in
            elim r.1 [ ok _ ↦ ended r.0 none (finished none) | err _ ↦ ended r.0 none failed ]
        | declined ↦ ended conn none (finished none)
        | panicked ↦ ended conn none gave_up
        | error ↦ ended conn none failed
      ]

  module _ (base64 : Base64) (accepts : DeviceConfigBuilder → Bool) where
    -- The invitation, once the peer is in the database.
    abbrev pub invite :
        String
        → SocketAddr
        → Tree.CidrTree
        → KeyPair
        → Peer
        → Connection
        → Option DeviceConfigBuilder
        → Ended
    invite interface address tree keypair peer conn applied = elim (Peers.get 1 conn) [
      | err _ ↦ ended conn applied failed
      | ok server_peer ↦ ended conn applied (
          end_of (
            Prompts.peer_invitation pk.net base64 interface peer server_peer tree.contents keypair
              address))
    ]

    -- The interface, if it is up, learns of the new peer; `From<&Peer>` panics where its key is none.
    abbrev pub announce : Bool → Peer → Connection → (Option DeviceConfigBuilder → Ended) → Ended
    announce false peer conn next = next none
    announce true peer conn next = elim (peer_builder base64 peer) [
      | none ↦ ended conn none gave_up
      | some builder ↦
          let change = DeviceBuilder.add_peer DeviceBuilder.new builder in
          if accepts change then next (some change) else ended conn none failed
    ]

    abbrev pub create_and_invite :
        Bool → String → SocketAddr → Tree.CidrTree → PeerContents × KeyPair → Connection → Ended
    create_and_invite is_up interface address tree request conn =
        let r = Peers.create pk request.0 conn in
        elim r.1 [
          | err _ ↦ ended r.0 none failed
          | ok peer ↦
              announce is_up peer r.0
                (λ applied. invite interface address tree request.1 peer r.0 applied)
        ]

    unfoldable pub add_peer : Bool → String → SocketAddr → PeerAnswers → Connection → Ended
    unfolding Prompts.add_peer Prompts.peer_invitation Peers.create Peers.get
    add_peer is_up interface address answers conn = elim (Tree.new conn.cidrs) [
      | none ↦ ended conn none gave_up
      | some tree ↦ elim (Prompts.add_peer pk.net base64 (map from_row conn.peers) tree answers) [
        | chosen request ↦ create_and_invite is_up interface address tree request conn
        | declined ↦ ended conn none (finished none)
        | panicked ↦ ended conn none gave_up
        | error ↦ ended conn none failed
      ]
    ]
