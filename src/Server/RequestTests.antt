-- ===== src/Server/RequestTests.antt =====
-- The theorems on requests to the server, at the example network.
use innernet.Prelude.{
  ℕ, String, ◌≡◌, refl, ◌≢◌, ◌↔◌, ◌⊎◌, inl, inr, true, false, Option, none, some, List, [], ◌∷◌,
  arith, if◌then◌else◌, ◌==◌, nat_eq, string_eq, option_eq, In, All_at,
}
use innernet.Net.{v4, SocketAddr}
use innernet.Net.Ipv4.{ipv4}
use innernet.Wg.{Base64}
use innernet.Shared.{CidrContents, Peer}
use innernet.Server.Example.{packages, alice, database, database-WellFormed, network}
use innernet.Server.Db.{unauthorized, PeerRow}
use innernet.Server.Db.Peers.{from_row}
use innernet.Server.Db.Access.Sees.{Sees}
use innernet.Server.Session.{remote_ip}
use innernet.Server.Api.{ServerState, rejected, refused, replied, network_state, inject_endpoints}
use innernet.Server.Api.User
use innernet.Server.Api.Routes.{
  Request, Forms, post, delete, delete_cidr, run, route, admin_route, cidr_route,
}
use innernet.Server.Api.Guards.{run-IsTurnedAway, state-replied}

abbrev laptops : CidrContents
laptops = record { name = "laptops"; cidr = network 256 25; parent = some 3 }

-- Requests of the administrator and of the peer who is none.
abbrev pub base64 : Base64
base64 = record { encode = λ bytes. ""; decode = λ text. none }

abbrev pub parse_id : String → Option ℕ
parse_id segment = if segment == "4" then some 4 else none

abbrev pub no_forms : Forms
no_forms = record {
  as_peer = none;
  as_cidr = none;
  as_association = none;
  as_redeem = none;
  as_endpoint = none;
}

abbrev pub from : ℕ → Option SocketAddr
from ip = some (record { ip = v4 ip; port = 50000 })

abbrev pub add_laptops : Request
add_laptops = record {
  method = post;
  path = "v1" ∷ "admin" ∷ "cidrs" ∷ [];
  remote = from 257;
  forms = record no_forms { as_cidr = some laptops };
}

abbrev pub delete_robots : Request
delete_robots = record {
  method = delete;
  path = "v1" ∷ "admin" ∷ "cidrs" ∷ "4" ∷ [];
  remote = from 513;
  forms = no_forms;
}

abbrev pub server : ServerState
server = record { conn = database; endpoints = []; applied = []; scheduled = [] }

bob_is_no_admin :
    (p : PeerRow)
    → In p database.peers
    → remote_ip delete_robots.remote ≡ some p.ip
    → p.is_disabled ≡ false
    → p.is_admin ≡ true
    → p.is_redeemed ≢ true
bob_is_no_admin p i =
    All_at
      (λ (q : PeerRow).
        remote_ip delete_robots.remote ≡ some q.ip
        → q.is_disabled ≡ false
        → q.is_admin ≡ true
        → q.is_redeemed ≢ true)
      database.peers p ((λ at e a r. ground (arith, at)), ((λ at e a r. ground (arith, a)), tt)) i

run-IsTurnedAway_example :
    (run packages base64 (λ builder. true) (delete_cidr 4) delete_robots server
      ≡ (server, rejected unauthorized))
    ⊎ (run packages base64 (λ builder. true) (delete_cidr 4) delete_robots server
        ≡ (server, refused))
run-IsTurnedAway_example =
    run-IsTurnedAway packages base64 (λ builder. true) (delete_cidr 4) delete_robots server
      database-WellFormed (λ u. elim u [ inl e ↦ cc e | inr (inl e) ↦ cc e | inr (inr e) ↦ cc e ])
      bob_is_no_admin

state-replied_example :
    (peers : List Peer) × (User.state (from_row alice) server ≡ (
      server,
      replied 200
          (network_state (record { peers = inject_endpoints [] peers; cidrs = database.cidrs })),
    ))
    × ((q : Peer)
        → In q peers ↔ (
            (r : PeerRow) × In r database.peers
            × (q ≡ from_row r)
            × (r.is_disabled ≡ false)
            × (r.is_redeemed ≡ true)
            × Sees database 3 r.cidr_id))
state-replied_example = state-replied ipv4 server alice database-WellFormed (inl refl)

robots_routed : route parse_id delete delete_robots.path ≡ some (delete_cidr 4)
unfolding route admin_route cidr_route
robots_routed = refl
