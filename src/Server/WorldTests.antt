-- ===== src/Server/WorldTests.antt =====
-- Interleavings at a small network: alice adds a CIDR while the thread looks at the interface.
use innernet.Prelude.{◌≡◌, refl, inl, true, none, some, [], ◌∷◌, In}
use innernet.Net.{v4}
use innernet.Wg.{zero_key, PeerInfo, DeviceInfo}
use innernet.Server.Db.{ok, PeerRow}
use innernet.Server.Db.Peers
use innernet.Server.Db.Peers.{from_row}
use innernet.Server.Endpoints.{watch, heard, or_else, lookup-watch}
use innernet.Server.Api.{lookup}
use innernet.Server.Api.Routes.{route, admin_route, cidr_route, create_cidr}
use innernet.Server.Api.Tasks.{session_of}
use innernet.Server.Api.Keeps.{IsSound}
use innernet.Server.Session.{get_session, with_admin_session, remote_ip}
use innernet.Server.Session.Laws.{MayAct}
use innernet.Server.World.{Pending, World, admit, look, Reach, here, later, Reach-IsSound}
use innernet.Server.World.Sessions.{pending_was_granted}
use innernet.Server.Example.{packages, packages_laws, database, database-WellFormed, alice}
use innernet.Server.RequestTests.{base64, parse_id, add_laptops, server}

abbrev idle : World
idle = record { server = server; pending = [] }

abbrev heard_peer : PeerInfo
heard_peer = record {
  config = record {
    public_key = zero_key;
    preshared_key = none;
    endpoint = some (record { ip = v4 7; port = 51820 });
    persistent_keepalive_interval = none;
    allowed_ips = [];
  };
  stats = record { last_handshake_time = none; rx_bytes = 0; tx_bytes = 0 };
}

abbrev device : DeviceInfo
device = record {
  name = "wg0";
  public_key = none;
  private_key = none;
  fwmark = none;
  listen_port = none;
  peers = heard_peer ∷ [];
  linked_name = none;
}

abbrev waiting : Pending
waiting = record { route = create_cidr; request = add_laptops; session = from_row alice }

laptops_routed : route parse_id add_laptops.method add_laptops.path ≡ some create_cidr
unfolding route admin_route cidr_route
laptops_routed = refl

alice_found : session_of create_cidr add_laptops.remote database ≡ ok (from_row alice)
unfolding session_of with_admin_session get_session Peers.get_from_ip from_row
alice_found = refl

abbrev looked : World
looked = record {
  server = record server { endpoints = watch base64 (some device) [] };
  pending = waiting ∷ [];
}

looks : Reach packages base64 (λ b. true) parse_id idle looked
looks =
    later (later here (admit create_cidr add_laptops (from_row alice) laptops_routed alice_found))
      (look (some device))

Reach-IsSound_example : IsSound packages looked.server.conn
Reach-IsSound_example =
    Reach-IsSound packages base64 (λ b. true) parse_id packages_laws looks
      (record { well_formed = database-WellFormed; checked = refl })

pending_was_granted_example :
    (u : World) × Reach packages base64 (λ b. true) parse_id idle u
    × Reach packages base64 (λ b. true) parse_id u looked
    × (row : PeerRow) × In row u.server.conn.peers
    × (remote_ip add_laptops.remote ≡ some row.ip)
    × MayAct true true row
    × (from_row alice ≡ from_row row)
pending_was_granted_example =
    pending_was_granted packages base64 (λ b. true) parse_id packages_laws idle looks refl
      (record { well_formed = database-WellFormed; checked = refl }) waiting (inl refl)

lookup-watch_example :
    lookup "" (watch base64 (some device) []) ≡ or_else (heard base64 "" (heard_peer ∷ [])) none
unfolding lookup
lookup-watch_example = lookup-watch base64 "" (some device) []
