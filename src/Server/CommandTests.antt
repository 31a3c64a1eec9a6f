-- ===== src/Server/CommandTests.antt =====
-- The theorems on the dialog for a new peer and on the commands of the server, at the example
-- network.
use innernet.Prelude.{ℕ, String, ◌≡◌, refl, Bool, true, false, none, some, [], ◌∷◌, ◌++◌, map}
use innernet.Net.{IpNetwork, SocketAddr, v4}
use innernet.Net.Ipv4.{ipv4}
use innernet.Wg.{zero_key, to_base64}
use innernet.Shared.{PeerContents}
use innernet.Shared.Tree.{CidrTree, leaves, leaves_from}
use innernet.Shared.Prompts.{
  chosen, nth, choose_cidr, first_free, available_ip, peer_request, PeerAnswers, add_peer,
  hostname_validator, is_valid_hostname,
}
use innernet.Server.Db.{ok}
use innernet.Server.Db.Invariant.{WellFormed}
use innernet.Server.Db.Peers
use innernet.Server.Db.Peers.{from_row}
use innernet.Server.Db.Peers.Creates.{new_row}
use innernet.Server.Db.Peers.Offered.{offered_peer_created}
use innernet.Server.Commands as Commands
use innernet.Server.Commands.Keeps.{commands-WellFormed}
use innernet.Server.Example.{packages, packages_laws, database, database-WellFormed}
use innernet.Server.RequestTests.{base64}

abbrev tree : CidrTree
tree = record {
  cidrs = database.cidrs;
  contents = record {
    id = 1;
    contents = record { name = "net"; cidr = record { ip = v4 0; prefix = 16 }; parent = none };
  };
}

abbrev answers : PeerAnswers
answers = record {
  cidr_index = 1;
  own_ip = none;
  name = "carol";
  is_admin = false;
  keypair = record { private = zero_key; public = zero_key };
  confirm = true;
}

-- The first address of the humans is that of their network, and the second is alice's.
abbrev carol : PeerContents
carol = record {
  name = "carol";
  ip = v4 258;
  cidr_id = 3;
  public_key = "";
  endpoint = none;
  persistent_keepalive_interval = some 25;
  is_admin = false;
  is_disabled = false;
  is_redeemed = false;
}

carol_offered :
    add_peer ipv4 base64 (map from_row database.peers) tree answers
    ≡ chosen (carol, answers.keypair)
unfolding add_peer choose_cidr nth leaves leaves_from available_ip first_free peer_request from_row
    to_base64 ipv4
carol_offered = refl

offered_peer_created_example : Peers.create packages carol database ≡ (
  record database { peers = database.peers ++ new_row packages carol database ∷ [] },
  ok (record { id = (new_row packages carol database).id; contents = carol }),
)
unfolding hostname_validator is_valid_hostname to_base64
offered_peer_created_example =
    offered_peer_created packages base64 database tree answers carol answers.keypair packages_laws
      database-WellFormed refl refl refl refl refl refl refl carol_offered

commands-WellFormed_example :
    ((index : ℕ) (name : String) (cidr : IpNetwork) (confirm : Bool)
      → WellFormed ipv4 (Commands.add_cidr packages index name cidr confirm database).conn)
    × ((is_up : Bool) (interface : String) (address : SocketAddr) (answers : PeerAnswers)
        → WellFormed ipv4
            (Commands.add_peer packages base64
              (λ b. true)
              is_up
              interface
              address
              answers
              database).conn)
commands-WellFormed_example =
    commands-WellFormed packages base64 (λ b. true) packages_laws database database-WellFormed
