-- ===== src/Server/Api/Guards.antt =====
-- Who reaches the routes of an administrator, and how `state` answers.
use innernet.Prelude.{
  ◌≡◌, refl, ◌≢◌, ◌↔◌, ◌⊎◌, inl, inr, Bool, true, false, Option, none, some, List, ◌==◌, nat_eq,
  string_eq, option_eq, In, find, find-key,
}
use innernet.Net.{Ipnetwork}
use innernet.Wg.{Base64}
use innernet.Wg.DeviceBuilder.{DeviceConfigBuilder}
use innernet.Shared.{Peer}
use innernet.Server.Db.{ServerError, unauthorized, err, PeerRow, Packages}
use innernet.Server.Db.Peers
use innernet.Server.Db.Peers.{from_row, map_ok}
use innernet.Server.Db.Cidrs
use innernet.Server.Db.Invariant.{WellFormed}
use innernet.Server.Db.Access.Sees.{Sees}
use innernet.Server.Db.Access.Allowed.{get_all_allowed_peers_iff}
use innernet.Server.Session.{remote_ip, with_admin_session}
use innernet.Server.Session.Laws.{get_session_iff}
use innernet.Server.Api.{
  ServerState, Reply, replied, rejected, refused, network_state, Handler, inject_endpoints,
}
use innernet.Server.Api.Admin
use innernet.Server.Api.User
use innernet.Server.Api.Routes.{
  Request, Route, if_some, admitted, run, list_associations, create_association, list_cidrs,
  create_cidr, list_peers, create_peer, delete_association, delete_cidr, update_peer, delete_peer,
  state, redeem, override_endpoint,
}

-- The answer to whoever is no administrator: the error of the session, or, for a form that cannot be
-- read, a rejection. Nothing is changed.
abbrev IsTurnedAway : ServerError → ServerState → ServerState × Reply → Type 0
IsTurnedAway e s answer = (answer ≡ (s, rejected e)) ⊎ (answer ≡ (s, refused))

turned_away :
    (request : Request) (h : Handler) (s : ServerState) (e : ServerError)
    → with_admin_session request.remote s.conn ≡ err e
    → admitted (with_admin_session request.remote) (λ _. h) s ≡ (s, rejected e)
turned_away request h s e no_session = rw (admitted, no_session) refl

form-IsTurnedAway :
    {A : Type 0} (request : Request) (h : A → Handler) (form : Option A) (s : ServerState)
    (e : ServerError)
    → with_admin_session request.remote s.conn ≡ err e
    → IsTurnedAway e s
        (if_some (λ a. admitted (with_admin_session request.remote) (λ _. h a)) form s)
form-IsTurnedAway request h none s e no_session = inr refl
form-IsTurnedAway request h (some a) s e no_session = inl (turned_away request (h a) s e no_session)

-- The routes of a peer.
abbrev IsUserRoute : Route → Type 0
IsUserRoute r = (r ≡ state) ⊎ (r ≡ redeem) ⊎ (r ≡ override_endpoint)

run_denied :
    (pk : Packages) (base64 : Base64) (accepts : DeviceConfigBuilder → Bool) (r : Route)
    (request : Request) (s : ServerState) (e : ServerError)
    → ¬ IsUserRoute r
    → with_admin_session request.remote s.conn ≡ err e
    → IsTurnedAway e s (run pk base64 accepts r request s)
unfolding run
run_denied pk base64 accepts list_associations q s e other denied =
    inl (turned_away q Admin.list_associations s e denied)
run_denied pk base64 accepts create_association q s e other denied =
    form-IsTurnedAway q (Admin.create_association pk) q.forms.as_association s e denied
run_denied pk base64 accepts list_cidrs q s e other denied =
    inl (turned_away q Admin.list_cidrs s e denied)
run_denied pk base64 accepts create_cidr q s e other denied =
    form-IsTurnedAway q (Admin.create_cidr pk) q.forms.as_cidr s e denied
run_denied pk base64 accepts list_peers q s e other denied =
    inl (turned_away q Admin.list_peers s e denied)
run_denied pk base64 accepts create_peer q s e other denied =
    form-IsTurnedAway q (Admin.create_peer pk base64 accepts) q.forms.as_peer s e denied
run_denied pk base64 accepts (delete_association id) q s e other denied =
    inl (turned_away q (Admin.delete_association id) s e denied)
run_denied pk base64 accepts (delete_cidr id) q s e other denied =
    inl (turned_away q (Admin.delete_cidr id) s e denied)
run_denied pk base64 accepts (update_peer id) q s e other denied =
    form-IsTurnedAway q (Admin.update_peer pk id) q.forms.as_peer s e denied
run_denied pk base64 accepts (delete_peer id) q s e other denied =
    inl (turned_away q (Admin.delete_peer id) s e denied)
run_denied pk base64 accepts state q s e other denied = absurd (other (inl refl))
run_denied pk base64 accepts redeem q s e other denied = absurd (other (inr (inl refl)))
run_denied pk base64 accepts override_endpoint q s e other denied = absurd (other (inr (inr refl)))

-- A request from an address that is not that of an enabled, redeemed administrator of the database,
-- or from none, on a route other than the three of a peer, changes nothing of the server's state, and
-- is answered Unauthorized, or refused before that, where its form cannot be read.
pub run-IsTurnedAway :
    (pk : Packages) (base64 : Base64) (accepts : DeviceConfigBuilder → Bool) (r : Route)
    (request : Request) (s : ServerState)
    → WellFormed pk.net s.conn
    → ¬ IsUserRoute r
    → ((p : PeerRow)
        → In p s.conn.peers
        → remote_ip request.remote ≡ some p.ip
        → p.is_disabled ≡ false
        → p.is_admin ≡ true
        → p.is_redeemed ≢ true)
    → IsTurnedAway unauthorized s (run pk base64 accepts r request s)
unfolding with_admin_session
run-IsTurnedAway pk base64 accepts r request s w other none_such =
    let (who, ends) = get_session_iff pk.net s.conn (remote_ip request.remote) true true w in
    elim ends [
      | inl denied ↦ run_denied pk base64 accepts r request s unauthorized other denied
      | inr (p, session) ↦
          let (row, i, at, (enabled, admin, redeemed), _) = (who p).0 session in
          absurd (none_such row i at enabled (admin refl) (redeemed refl))
    ]

-- In a well formed database `state` ends, for the session of any peer of the database: it replies
-- 200 with all CIDRs, and the peers that it names are, but for the endpoints, those that the peer
-- may see: enabled, redeemed, and in a CIDR that the peer's own sees.
pub state-replied :
    (net : Ipnetwork) (s : ServerState) (p : PeerRow)
    → WellFormed net s.conn
    → In p s.conn.peers
    → (peers : List Peer) × (User.state (from_row p) s ≡ (
      s,
      replied 200 (
          network_state
            (record { peers = inject_endpoints s.endpoints peers; cidrs = s.conn.cidrs })),
    ))
      × ((q : Peer)
          → In q peers ↔ (
              (r : PeerRow) × In r s.conn.peers
              × (q ≡ from_row r)
              × (r.is_disabled ≡ false)
              × (r.is_redeemed ≡ true)
              × Sees s.conn p.cidr_id r.cidr_id))
unfolding User.state Peers.get Cidrs.list from_row
state-replied net s p w i =
    let found : find (λ (x : PeerRow). x.id == p.id) s.conn.peers ≡ some p =
      find-key (λ (x : PeerRow). x.id) s.conn.peers p w.members.ids i in
    let (peers, done, those) = get_all_allowed_peers_iff net s.conn (from_row p) w in
    (peers, rw (found, done) refl, those)
