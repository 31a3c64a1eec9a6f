-- ===== src/Server/Api/Handlers.antt =====
-- Every handler keeps the database well formed, with foreign keys on, whatever session it is given.
use innernet.Prelude.{ℕ, Bool, Option, none, some, List, [], ◌∷◌, ◌++◌}
use innernet.Wg.{Base64, Key, from_base64}
use innernet.Wg.DeviceBuilder
use innernet.Wg.DeviceBuilder.{DeviceConfigBuilder}
use innernet.Server.Db.Access.{get_all_allowed_peers}
use innernet.Shared.Diff.{peer_builder}
use innernet.Shared.{
  Cidr, Peer, PeerContents, CidrContents, AssociationContents, RedeemContents, EndpointContents,
  to_option,
}
use innernet.Server.Db.{wire_guard, Packages, PackagesLaws}
use innernet.Server.Db.Cidrs
use innernet.Server.Db.Peers
use innernet.Server.Db.Associations
use innernet.Server.Api.{
  ServerState, Reply, replied, rejected, nothing, one_peer, one_cidr, Handler, execute,
}
use innernet.Server.Api.Routes.{
  Forms, Route, list_associations, create_association, list_cidrs, create_cidr, list_peers,
  create_peer, delete_association, delete_cidr, update_peer, delete_peer, state, redeem,
  override_endpoint,
}
use innernet.Server.Api.Tasks.{with_form, task}
use innernet.Server.Api.Admin
use innernet.Server.Api.User
use innernet.Server.Api.Keeps.{
  IsSound, Keeps, choice-Keeps, create_association-Keeps, create_cidr-Keeps, create_peer-Keeps,
  delete_association-Keeps, delete_cidr-Keeps, disable-Keeps, execute-Keeps, query-Keeps,
  redeem-Keeps, update-Keeps,
}

module _ (pk : Packages) (laws : PackagesLaws pk) where
  module _ (base64 : Base64) (accepts : DeviceConfigBuilder → Bool) where
    create_peer_handler-Keeps :
        (form : PeerContents) → Keeps pk laws (Admin.create_peer pk base64 accepts form)
    unfolding Admin.create_peer
    create_peer_handler-Keeps form =
        execute-Keeps pk laws (Peers.create pk form) _ (create_peer-Keeps pk laws form)
          (λ peer s v. added peer s v (peer_builder base64 peer))
      where
        added :
            (peer : Peer) (s : ServerState)
            → IsSound pk s.conn
            → (o : Option _)
            → IsSound pk (let t : ServerState × Reply = Admin.add_then accepts peer o s in t.0.conn)
        added peer s v none = v
        added peer s v (some builder) =
            choice-Keeps pk laws (accepts (DeviceBuilder.add_peer DeviceBuilder.new builder))
              (λ t. (
                record t {
                  applied = t.applied ++ DeviceBuilder.add_peer DeviceBuilder.new builder ∷ [];
                },
                replied 201 (one_peer peer),
              ))
              (λ t. (t, rejected wire_guard)) (λ t u. u) (λ t u. u) s v

    redeem_handler-Keeps :
        (form : RedeemContents) (session : Peer) → Keeps pk laws (User.redeem base64 form session)
    unfolding User.redeem
    redeem_handler-Keeps form session =
        query-Keeps pk laws (Peers.get session.id) _
          (λ peer s v. chosen peer s v (from_base64 base64 peer.public_key))
      where
        chosen :
            (peer : Peer) (s : ServerState)
            → IsSound pk s.conn
            → (o : Option Key)
            → IsSound pk
                (let t : ServerState × Reply = User.redeem_with base64 form peer o s in t.0.conn)
        chosen peer s v none = v
        chosen peer s v (some old) =
            choice-Keeps pk laws peer.is_redeemed (λ t. (t, replied 410 nothing))
              (execute (Peers.redeem peer form.public_key)
                (λ p s'. (User.schedule (User.transition base64 old p) s', replied 204 nothing)))
              (λ t u. u)
              (execute-Keeps pk laws (Peers.redeem peer form.public_key)
                (λ p s'. (User.schedule (User.transition base64 old p) s', replied 204 nothing))
                (redeem-Keeps pk laws peer form.public_key)
                (λ p s' v'. scheduled s' v' (User.transition base64 old p)))
              s v
          where
            scheduled :
                (s' : ServerState)
                → IsSound pk s'.conn
                → (o : Option DeviceConfigBuilder) → IsSound pk (User.schedule o s').conn
            scheduled s' v' none = v'
            scheduled s' v' (some b) = v'

    state_handler-Keeps : (session : Peer) → Keeps pk laws (User.state session)
    unfolding User.state
    state_handler-Keeps session = query-Keeps pk laws (Peers.get session.id) _ (λ peer.
        query-Keeps pk laws Cidrs.list _
          (λ cidrs s v. shown cidrs (get_all_allowed_peers peer s.conn) s v))
      where
        shown :
            (cidrs : List Cidr) (o : Option (List Peer)) (s : ServerState)
            → IsSound pk s.conn
            → IsSound pk (let t : ServerState × Reply = User.show_state cidrs o s in t.0.conn)
        shown cidrs none s v = v
        shown cidrs (some peers) s v = v

    list_peers-Keeps : Keeps pk laws Admin.list_peers
    unfolding Admin.list_peers Peers.list
    list_peers-Keeps s v = v

    list_cidrs-Keeps : Keeps pk laws Admin.list_cidrs
    unfolding Admin.list_cidrs Cidrs.list
    list_cidrs-Keeps s v = v

    list_associations-Keeps : Keeps pk laws Admin.list_associations
    unfolding Admin.list_associations Associations.list
    list_associations-Keeps s v = v

    delete_peer-Keeps : (id : ℕ) → Keeps pk laws (Admin.delete_peer id)
    unfolding Admin.delete_peer
    delete_peer-Keeps id =
        execute-Keeps pk laws (Peers.disable id) (λ _ s. (s, replied 204 nothing))
          (disable-Keeps pk laws id) (λ _ s v. v)

    delete_cidr_handler-Keeps : (id : ℕ) → Keeps pk laws (Admin.delete_cidr id)
    unfolding Admin.delete_cidr
    delete_cidr_handler-Keeps id =
        execute-Keeps pk laws (Cidrs.delete id) (λ _ s. (s, replied 204 nothing))
          (delete_cidr-Keeps pk laws id) (λ _ s v. v)

    delete_association_handler-Keeps : (id : ℕ) → Keeps pk laws (Admin.delete_association id)
    unfolding Admin.delete_association
    delete_association_handler-Keeps id =
        execute-Keeps pk laws (Associations.delete id) (λ _ s. (s, replied 204 nothing))
          (delete_association-Keeps pk laws id) (λ _ s v. v)

    create_cidr_handler-Keeps : (form : CidrContents) → Keeps pk laws (Admin.create_cidr pk form)
    unfolding Admin.create_cidr
    create_cidr_handler-Keeps form =
        execute-Keeps pk laws (Cidrs.create pk form) (λ cidr s. (s, replied 201 (one_cidr cidr)))
          (create_cidr-Keeps pk laws form) (λ _ s v. v)

    create_association_handler-Keeps :
        (form : AssociationContents) → Keeps pk laws (Admin.create_association pk form)
    unfolding Admin.create_association
    create_association_handler-Keeps form =
        execute-Keeps pk laws (Associations.create pk form) (λ _ s. (s, replied 201 nothing))
          (create_association-Keeps pk laws form) (λ _ s v. v)

    changed-Keeps :
        (peer : Peer) (form : PeerContents)
        → Keeps pk laws (execute (Peers.update pk peer form) (λ _ s. (s, replied 204 nothing)))
    changed-Keeps peer form =
        execute-Keeps pk laws (Peers.update pk peer form) (λ _ s. (s, replied 204 nothing))
          (update-Keeps pk laws peer form) (λ _ s v. v)

    update_peer-Keeps :
        (id : ℕ) (form : PeerContents) → Keeps pk laws (Admin.update_peer pk id form)
    unfolding Admin.update_peer
    update_peer-Keeps id form =
        query-Keeps pk laws (Peers.get id)
          (λ peer. execute (Peers.update pk peer form) (λ _ s. (s, replied 204 nothing)))
          (λ peer. changed-Keeps peer form)

    endpoint-Keeps :
        (form : EndpointContents) (session : Peer) → Keeps pk laws (User.endpoint pk form session)
    unfolding User.endpoint
    endpoint-Keeps form session =
        query-Keeps pk laws (Peers.get session.id)
          (λ peer.
            execute (Peers.update pk peer (record (peer.contents) { endpoint = to_option form }))
              (λ _ s. (s, replied 204 nothing)))
          (λ peer. changed-Keeps peer (record (peer.contents) { endpoint = to_option form }))

    -- Every handler of `task` keeps the database well formed, whatever session it is given.
    abbrev pub TaskKeeps : Option (Peer → Handler) → Type 0
    TaskKeeps none = Unit
    TaskKeeps (some h) = (session : Peer) → Keeps pk laws (h session)

    with_form-Keeps :
        {A : Type 0} (f : A → Peer → Handler) (o : Option A)
        → ((a : A) (session : Peer) → Keeps pk laws (f a session))
        → TaskKeeps (with_form f o)
    with_form-Keeps f none k = tt
    with_form-Keeps f (some a) k = k a

    pub task-Keeps : (r : Route) (forms : Forms) → TaskKeeps (task pk base64 accepts r forms)
    unfolding task
    task-Keeps list_associations forms = λ _. list_associations-Keeps
    task-Keeps create_association forms =
        with_form-Keeps _ forms.as_association (λ form _. create_association_handler-Keeps form)
    task-Keeps (delete_association id) forms = λ _. delete_association_handler-Keeps id
    task-Keeps list_cidrs forms = λ _. list_cidrs-Keeps
    task-Keeps create_cidr forms =
        with_form-Keeps _ forms.as_cidr (λ form _. create_cidr_handler-Keeps form)
    task-Keeps (delete_cidr id) forms = λ _. delete_cidr_handler-Keeps id
    task-Keeps list_peers forms = λ _. list_peers-Keeps
    task-Keeps create_peer forms =
        with_form-Keeps _ forms.as_peer (λ form _. create_peer_handler-Keeps form)
    task-Keeps (update_peer id) forms =
        with_form-Keeps _ forms.as_peer (λ form _. update_peer-Keeps id form)
    task-Keeps (delete_peer id) forms = λ _. delete_peer-Keeps id
    task-Keeps state forms = state_handler-Keeps
    task-Keeps redeem forms = with_form-Keeps _ forms.as_redeem redeem_handler-Keeps
    task-Keeps override_endpoint forms = with_form-Keeps _ forms.as_endpoint endpoint-Keeps
