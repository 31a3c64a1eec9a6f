-- ===== src/Client/RequestTests.antt =====
-- The theorems on the commands of a client, where alice is at a client and the example network at the
-- server.
use innernet.Prelude.{
  ℕ, String, ◌≡◌, refl, ◌⊎◌, true, false, Option, none, some, if◌then◌else◌, ◌==◌, nat_eq,
  string_eq, option_eq, In, filter,
}
use innernet.Shared.Prompts.{nth, is_eligible}
use innernet.Server.Db.{ok, PeerRow}
use innernet.Server.Db.Peers
use innernet.Server.Db.Peers.{from_row}
use innernet.Server.Session.{get_session, with_admin_session}
use innernet.Server.Api.{inject_endpoints, lookup}
use innernet.Server.Example.{packages, database, database-WellFormed, alice}
use innernet.Server.RequestTests.{base64, from, server}
use innernet.Client.Http.{got, failed}
use innernet.Client.Commands.{delete_association, enable_or_disable_peer}
use innernet.Client.Commands.Deletes.{ask, IsFruitless, delete_association-IsFruitless}
use innernet.Client.Commands.Rows.{listed, after_switch}
use innernet.Client.Commands.Enables.{enable_or_disable_peer-switched}

abbrev show : ℕ → String
show n = "1"

abbrev parse_id : String → Option ℕ
parse_id segment = if segment == "1" then some 1 else none

delete_association-IsFruitless_example : IsFruitless server (
    delete_association
      (ask packages base64 (λ b. true) parse_id (from 257))
      (from 257)
      show
      0
      true
      server)
delete_association-IsFruitless_example =
    delete_association-IsFruitless packages base64 (λ b. true) parse_id (from 257) show 0 server

alice_is_admin : with_admin_session (from 257) database ≡ ok (from_row alice)
unfolding with_admin_session get_session Peers.get_from_ip from_row
alice_is_admin = refl

alice_is_offered : nth (filter (is_eligible false) (listed server)) 0 ≡ some (from_row alice)
unfolding nth inject_endpoints lookup from_row
alice_is_offered = refl

enable_or_disable_peer-switched_example :
    (p : PeerRow) × In p database.peers
    × ((from_row alice).id ≡ p.id)
    × (p.is_disabled ≡ false)
    × ((enable_or_disable_peer
            (ask packages base64 (λ b. true) parse_id (from 257))
            (from 257)
            show
            false
            0
            true
            server
          ≡ (server, failed))
        ⊎ (enable_or_disable_peer
              (ask packages base64 (λ b. true) parse_id (from 257))
              (from 257)
              show
              false
              0
              true
              server
            ≡ (after_switch false p server, got tt)))
unfolding from_row
enable_or_disable_peer-switched_example =
    enable_or_disable_peer-switched packages base64 (λ b. true) parse_id (from 257) show
      (from_row alice) (from_row alice) false 0 server refl database-WellFormed alice_is_admin
      alice_is_offered
