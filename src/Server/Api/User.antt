-- ===== src/Server/Api/User.antt =====
-- server/src/api/user.rs: what a peer may ask for.
use innernet.Prelude.{Option, none, some, List, [], ◌∷◌, ◌++◌, if◌then◌else◌}
use innernet.Wg.{Base64, Key, from_base64}
use innernet.Wg.DeviceBuilder
use innernet.Wg.DeviceBuilder.{DeviceConfigBuilder}
use innernet.Shared.Diff.{peer_builder}
use innernet.Shared.{Cidr, Peer, RedeemContents, EndpointContents, to_option}
use innernet.Server.Db.{wire_guard, Packages}
use innernet.Server.Db.Access.{get_all_allowed_peers}
use innernet.Server.Db.Cidrs
use innernet.Server.Db.Peers
use innernet.Server.Api.{
  ServerState, nothing, network_state, replied, rejected, diverged, Handler, execute, query,
  inject_endpoints,
}

abbrev pub show_state : List Cidr → Option (List Peer) → Handler
show_state cidrs none s = (s, diverged)
show_state cidrs (some peers) s = (
  s,
  replied 200
      (network_state (record { peers = inject_endpoints s.endpoints peers; cidrs = cidrs })),
)

unfoldable pub state : Peer → Handler
state session = query (Peers.get session.id) λ selected_peer.
    query Cidrs.list λ cidrs s. show_state cidrs (get_all_allowed_peers selected_peer s.conn) s

-- The task that is spawned panics, and applies nothing, where the new key is no base64.
abbrev pub schedule : Option DeviceConfigBuilder → ServerState → ServerState
schedule none s = s
schedule (some builder) s = record s { scheduled = s.scheduled ++ builder ∷ [] }

module _ (base64 : Base64) where
  -- Remove the old key from the interface, and add the peer with its new key.
  abbrev pub transition : Key → Peer → Option DeviceConfigBuilder
  transition old_public_key peer = elim (peer_builder base64 peer) [
    | none ↦ none
    | some builder ↦ some (
        DeviceBuilder.add_peer (DeviceBuilder.remove_peer_by_key DeviceBuilder.new old_public_key)
          builder)
  ]

  abbrev pub redeem_with : RedeemContents → Peer → Option Key → Handler
  redeem_with form selected_peer none s = (s, rejected wire_guard)
  redeem_with form selected_peer (some old_public_key) s =
      if selected_peer.is_redeemed
      then (s, replied 410 nothing)
      else execute (Peers.redeem selected_peer form.public_key)
          (λ peer s'. (schedule (transition old_public_key peer) s', replied 204 nothing)) s

  unfoldable pub redeem : RedeemContents → Peer → Handler
  redeem form session =
      query (Peers.get session.id) λ selected_peer.
        redeem_with form selected_peer (from_base64 base64 selected_peer.public_key)

unfoldable pub endpoint : Packages → EndpointContents → Peer → Handler
endpoint pk contents session = query (Peers.get session.id) λ selected_peer.
    execute
      (Peers.update pk selected_peer
        (record (selected_peer.contents) { endpoint = to_option contents }))
      λ _ s. (s, replied 204 nothing)
