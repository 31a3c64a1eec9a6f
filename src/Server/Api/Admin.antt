-- ===== src/Server/Api/Admin.antt =====
-- server/src/api/admin: what an administrator may ask for.
use innernet.Prelude.{ℕ, Bool, Option, none, some, [], ◌∷◌, ◌++◌, if◌then◌else◌}
use innernet.Wg.{Base64}
use innernet.Wg.DeviceBuilder
use innernet.Wg.PeerBuilder.{PeerConfigBuilder}
use innernet.Wg.DeviceBuilder.{DeviceConfigBuilder}
use innernet.Shared.Diff.{peer_builder}
use innernet.Shared.{Peer, PeerContents, CidrContents, AssociationContents}
use innernet.Server.Db.{wire_guard, Packages}
use innernet.Server.Db.Cidrs
use innernet.Server.Db.Associations
use innernet.Server.Db.Peers
use innernet.Server.Api.{
  nothing, one_peer, one_cidr, all_peers, all_cidrs, all_associations, replied, rejected, panicked,
  Handler, execute, query, inject_endpoints,
}

module _ (accepts : DeviceConfigBuilder → Bool) where
  -- `.apply(&interface).map_err(|_| ServerError::WireGuard)?`, then the response.
  abbrev pub apply_then : DeviceConfigBuilder → Handler → Handler
  apply_then builder next s =
      if accepts builder
      then next (record s { applied = s.applied ++ builder ∷ [] })
      else (s, rejected wire_guard)

  -- The new peer is added to the interface, and sent back.
  abbrev pub add_then : Peer → Option PeerConfigBuilder → Handler
  add_then peer none s = (s, panicked)
  add_then peer (some builder) s =
      apply_then (DeviceBuilder.add_peer DeviceBuilder.new builder)
        (λ s'. (s', replied 201 (one_peer peer))) s

unfoldable pub create_peer :
    Packages → Base64 → (DeviceConfigBuilder → Bool) → PeerContents → Handler
create_peer pk base64 accepts form =
    execute (Peers.create pk form) λ peer. add_then accepts peer (peer_builder base64 peer)

module _ (pk : Packages) where
  unfoldable pub update_peer : ℕ → PeerContents → Handler
  update_peer id form =
      query (Peers.get id)
        λ peer. execute (Peers.update pk peer form) λ _ s. (s, replied 204 nothing)

  unfoldable pub create_cidr : CidrContents → Handler
  create_cidr contents =
      execute (Cidrs.create pk contents) λ cidr s. (s, replied 201 (one_cidr cidr))

  unfoldable pub create_association : AssociationContents → Handler
  create_association contents =
      execute (Associations.create pk contents) λ _ s. (s, replied 201 nothing)

unfoldable pub list_peers : Handler
list_peers =
    query Peers.list λ peers s. (s, replied 200 (all_peers (inject_endpoints s.endpoints peers)))

unfoldable pub delete_peer : ℕ → Handler
delete_peer id = execute (Peers.disable id) λ _ s. (s, replied 204 nothing)

unfoldable pub list_cidrs : Handler
list_cidrs = query Cidrs.list λ cidrs s. (s, replied 200 (all_cidrs cidrs))

unfoldable pub delete_cidr : ℕ → Handler
delete_cidr id = execute (Cidrs.delete id) λ _ s. (s, replied 204 nothing)

unfoldable pub list_associations : Handler
list_associations = query Associations.list λ auths s. (s, replied 200 (all_associations auths))

unfoldable pub delete_association : ℕ → Handler
delete_association id = execute (Associations.delete id) λ _ s. (s, replied 204 nothing)
