-- ===== src/Server/Api/Tasks.antt =====
-- server/src/main.rs and the `routes` modules: a request in two steps, each of which takes the lock
-- of the database: the filter that looks up the session, and the handler.
use innernet.Prelude.{◌≡◌, refl, Bool, Option, none, some}
use innernet.Net.{SocketAddr}
use innernet.Wg.{Base64}
use innernet.Wg.DeviceBuilder.{DeviceConfigBuilder}
use innernet.Shared.{Peer}
use innernet.Server.Db.{Packages, Connection, Result}
use innernet.Server.Session.{with_session, with_admin_session, with_unredeemed_session}
use innernet.Server.Api.{ServerState, Handler}
use innernet.Server.Api.Admin
use innernet.Server.Api.User
use innernet.Server.Api.Routes.{
  Forms, Request, Route, if_some, admitted, run, list_associations, create_association, list_cidrs,
  create_cidr, list_peers, create_peer, delete_association, delete_cidr, update_peer, delete_peer,
  state, redeem, override_endpoint,
}

-- The session filter of a route.
unfoldable pub session_of : Route → Option SocketAddr → Connection → Result Peer
session_of state = with_session
session_of redeem = with_unredeemed_session
session_of override_endpoint = with_session
session_of _ = with_admin_session

abbrev pub with_form : {A : Type 0} → (A → Peer → Handler) → Option A → Option (Peer → Handler)
with_form f none = none
with_form f (some form) = some (f form)

with_form-run :
    {A : Type 0} (session : Connection → Result Peer) (f : A → Peer → Handler) (o : Option A)
    (s : ServerState)
    → if_some (λ form. admitted session (f form)) o s ≡ if_some (admitted session) (with_form f o) s
with_form-run session f none s = refl
with_form-run session f (some form) s = refl

module _ (pk : Packages) (base64 : Base64) (accepts : DeviceConfigBuilder → Bool) where
  -- The handler of a route on its form, where that can be read.
  unfoldable pub task : Route → Forms → Option (Peer → Handler)
  task list_associations forms = some (λ _. Admin.list_associations)
  task create_association forms =
      with_form (λ form _. Admin.create_association pk form) forms.as_association
  task (delete_association id) forms = some (λ _. Admin.delete_association id)
  task list_cidrs forms = some (λ _. Admin.list_cidrs)
  task create_cidr forms = with_form (λ form _. Admin.create_cidr pk form) forms.as_cidr
  task (delete_cidr id) forms = some (λ _. Admin.delete_cidr id)
  task list_peers forms = some (λ _. Admin.list_peers)
  task create_peer forms =
      with_form (λ form _. Admin.create_peer pk base64 accepts form) forms.as_peer
  task (update_peer id) forms = with_form (λ form _. Admin.update_peer pk id form) forms.as_peer
  task (delete_peer id) forms = some (λ _. Admin.delete_peer id)
  task state forms = some User.state
  task redeem forms = with_form (User.redeem base64) forms.as_redeem
  task override_endpoint forms = with_form (User.endpoint pk) forms.as_endpoint

  -- A form is read, then the session looked up, then the handler run, and nothing comes between.
  pub run-task :
      (r : Route) (q : Request) (s : ServerState)
      → run pk base64 accepts r q s ≡ if_some (admitted (session_of r q.remote)) (task r q.forms) s
  unfolding run task session_of
  run-task list_associations q s = refl
  run-task create_association q s = with_form-run _ _ q.forms.as_association s
  run-task (delete_association id) q s = refl
  run-task list_cidrs q s = refl
  run-task create_cidr q s = with_form-run _ _ q.forms.as_cidr s
  run-task (delete_cidr id) q s = refl
  run-task list_peers q s = refl
  run-task create_peer q s = with_form-run _ _ q.forms.as_peer s
  run-task (update_peer id) q s = with_form-run _ _ q.forms.as_peer s
  run-task (delete_peer id) q s = refl
  run-task state q s = refl
  run-task redeem q s = with_form-run _ _ q.forms.as_redeem s
  run-task override_endpoint q s = with_form-run _ _ q.forms.as_endpoint s
