-- ===== src/Server/Api/Routes.antt =====
-- server/src/main.rs (`routes`), server/src/api/admin/mod.rs and the `routes` modules: which handler
-- a request reaches, after which check of its sender.
use innernet.Prelude.{
  ℕ, String, Bool, not, Option, none, some, List, [], ◌∷◌, if◌then◌else◌, ◌==◌, nat_eq, string_eq,
  option_eq,
}
use innernet.Net.{SocketAddr}
use innernet.Wg.{Base64}
use innernet.Wg.DeviceBuilder.{DeviceConfigBuilder}
use innernet.Shared.{
  Peer, PeerContents, CidrContents, AssociationContents, RedeemContents, EndpointContents,
}
use innernet.Server.Db.{Packages, Connection, Result, ok, err}
use innernet.Server.Session.{with_session, with_admin_session, with_unredeemed_session}
use innernet.Server.Api.{rejected, refused, Handler}
use innernet.Server.Api.Admin
use innernet.Server.Api.User

pub data Method : Type 0 where
  get post put delete : Method

-- What `serde_json` makes of the body of a request at each type of form.
pub record Forms : Type 0 where
  pub as_peer : Option PeerContents
  pub as_cidr : Option CidrContents
  pub as_association : Option AssociationContents
  pub as_redeem : Option RedeemContents
  pub as_endpoint : Option EndpointContents

pub record Request : Type 0 where
  pub method : Method
  pub path : List String
  pub remote : Option SocketAddr
  pub forms : Forms

pub data Route : Type 0 where
  list_associations create_association list_cidrs create_cidr list_peers create_peer : Route
  delete_association delete_cidr update_peer delete_peer : ℕ → Route
  state redeem override_endpoint : Route

abbrev pub if_some : {A : Type 0} → (A → Handler) → Option A → Handler
if_some f none s = (s, refused)
if_some f (some a) s = f a s

abbrev pub admitted : (Connection → Result Peer) → (Peer → Handler) → Handler
admitted session next s = elim (session s.conn) [ ok peer ↦ next peer s | err e ↦ (s, rejected e) ]

-- `warp::path::param()`, as an `i64`.
module _ (parse_id : String → Option ℕ) where
  abbrev pub with_id : (ℕ → Route) → String → Option Route
  with_id f segment = elim (parse_id segment) [ none ↦ none | some id ↦ some (f id) ]

  abbrev pub collection : Method → Route → Route → Option Route
  collection get list create = some list
  collection post list create = some create
  collection _ list create = none

  -- The routes below one word of the path, `all` of an administrator's module.
  unfoldable pub association_route : Method → List String → Option Route
  association_route m [] = collection m list_associations create_association
  association_route delete (id ∷ []) = with_id delete_association id
  association_route _ _ = none

  unfoldable pub cidr_route : Method → List String → Option Route
  cidr_route m [] = collection m list_cidrs create_cidr
  cidr_route delete (id ∷ []) = with_id delete_cidr id
  cidr_route _ _ = none

  unfoldable pub peer_route : Method → List String → Option Route
  peer_route m [] = collection m list_peers create_peer
  peer_route put (id ∷ []) = with_id update_peer id
  peer_route delete (id ∷ []) = with_id delete_peer id
  peer_route _ _ = none

  unfoldable pub user_route : Method → List String → Option Route
  user_route get (word ∷ []) = if word == "state" then some state else none
  user_route post (word ∷ []) = if word == "redeem" then some redeem else none
  user_route put (word ∷ []) = if word == "endpoint" then some override_endpoint else none
  user_route _ _ = none

  unfoldable pub admin_route : Method → List String → Option Route
  admin_route m [] = none
  admin_route m (word ∷ rest) =
      if word == "associations"
      then association_route m rest
      else if word == "cidrs"
      then cidr_route m rest
      else if word == "peers"
      then peer_route m rest
      else none

  unfoldable pub route : Method → List String → Option Route
  route m (version ∷ area ∷ rest) =
      if not (version == "v1")
      then none
      else if area == "admin"
      then admin_route m rest
      else if area == "user"
      then user_route m rest
      else none
  route m _ = none

module _ (pk : Packages) (base64 : Base64) (accepts : DeviceConfigBuilder → Bool) where
  -- A form is read before the session is looked up.
  unfoldable pub run : Route → Request → Handler
  run list_associations r = admitted (with_admin_session r.remote) (λ _. Admin.list_associations)
  run create_association r =
      if_some
        (λ form. admitted (with_admin_session r.remote) (λ _. Admin.create_association pk form))
        r.forms.as_association
  run (delete_association id) r =
      admitted (with_admin_session r.remote) (λ _. Admin.delete_association id)
  run list_cidrs r = admitted (with_admin_session r.remote) (λ _. Admin.list_cidrs)
  run create_cidr r =
      if_some (λ form. admitted (with_admin_session r.remote) (λ _. Admin.create_cidr pk form))
        r.forms.as_cidr
  run (delete_cidr id) r = admitted (with_admin_session r.remote) (λ _. Admin.delete_cidr id)
  run list_peers r = admitted (with_admin_session r.remote) (λ _. Admin.list_peers)
  run create_peer r =
      if_some
        (λ form.
          admitted (with_admin_session r.remote) (λ _. Admin.create_peer pk base64 accepts form))
        r.forms.as_peer
  run (update_peer id) r =
      if_some (λ form. admitted (with_admin_session r.remote) (λ _. Admin.update_peer pk id form))
        r.forms.as_peer
  run (delete_peer id) r = admitted (with_admin_session r.remote) (λ _. Admin.delete_peer id)
  run state r = admitted (with_session r.remote) User.state
  run redeem r =
      if_some (λ form. admitted (with_unredeemed_session r.remote) (User.redeem base64 form))
        r.forms.as_redeem
  run override_endpoint r =
      if_some (λ form. admitted (with_session r.remote) (User.endpoint pk form)) r.forms.as_endpoint

  unfoldable pub serve_request : (String → Option ℕ) → Request → Handler
  serve_request parse_id r s = elim (route parse_id r.method r.path) [
    | none ↦ (s, refused)
    | some found ↦ run found r s
  ]
