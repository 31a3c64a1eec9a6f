-- ===== src/Client/Http.antt =====
-- client/src/util.rs: the requests of a client, and what it makes of the answers. What carries them to
-- the server and back is a parameter, as is the state of the server.
use innernet.Prelude.{String, Option, none, some, List, ◌∷◌, ltb, if◌then◌else◌}
use innernet.Net.{SocketAddr}
use innernet.Shared.{Peer, Cidr, Association, State}
use innernet.Server.Api.{
  Body, nothing, one_peer, one_cidr, all_peers, all_cidrs, all_associations, network_state, Reply,
  replied, rejected, refused, panicked, diverged,
}
use innernet.Server.Api.Routes.{Method, get, post, put, Request, Forms}

-- How a call ends: with a value, an error, a panic of the client, or no answer.
pub data Answer (A : Type 0) : Type 0 where
  got : A → Answer A
  failed gave_up unanswered : Answer A

-- What a client does to a server, and ends in.
abbrev pub Command : Type 0 → Type 0 → Type 0
Command S A = S → S × Answer A

infixl 5 ◌>>=◌
abbrev pub ◌>>=◌ : {S A B : Type 0} → Command S A → (A → Command S B) → Command S B
◌>>=◌ m f s =
    let r = m s in
    elim r.1 [
      | got a ↦ f a r.0
      | failed ↦ (r.0, failed)
      | gave_up ↦ (r.0, gave_up)
      | unanswered ↦ (r.0, unanswered)
    ]

abbrev pub finish : {S A : Type 0} → A → Command S A
finish a s = (s, got a)

-- No body: what `serde_json` would make of it.
abbrev pub no_forms : Forms
no_forms = record {
  as_peer = none;
  as_cidr = none;
  as_association = none;
  as_redeem = none;
  as_endpoint = none;
}

-- The JSON of a body, read at the type that a caller expects.
abbrev pub as_peers : Body → Option (List Peer)
as_peers (all_peers peers) = some peers
as_peers _ = none

abbrev pub as_cidrs : Body → Option (List Cidr)
as_cidrs (all_cidrs cidrs) = some cidrs
as_cidrs _ = none

abbrev pub as_associations : Body → Option (List Association)
as_associations (all_associations associations) = some associations
as_associations _ = none

abbrev pub as_state : Body → Option State
as_state (network_state state) = some state
as_state _ = none

abbrev pub as_new_peer : Body → Option Peer
as_new_peer (one_peer peer) = some peer
as_new_peer _ = none

abbrev pub as_new_cidr : Body → Option Cidr
as_new_cidr (one_cidr cidr) = some cidr
as_new_cidr _ = none

-- An empty body is read as `null`, which is `()`.
abbrev pub as_unit : Body → Option (Unit {0})
as_unit nothing = some tt
as_unit _ = none

-- `ureq` makes an error of a status of 400 and above; a lost connection is one.
unfoldable pub process_response : {A : Type 0} → (Body → Option A) → Reply → Answer A
process_response read (replied status body) =
    if ltb status 400 then elim (read body) [ none ↦ failed | some a ↦ got a ] else failed
process_response read (rejected e) = failed
process_response read refused = failed
process_response read panicked = failed
process_response read diverged = unanswered

abbrev pub ignored : Body → Option (Unit {0})
ignored body = some tt

module _ {S : Type 0} (ask : Request → S → S × Reply) (local : Option SocketAddr) where
  -- `http://{server}/v1{endpoint}`
  unfoldable pub request : Method → List String → Forms → Request
  request method endpoint form = record {
    method = method;
    path = "v1" ∷ endpoint;
    remote = local;
    forms = form;
  }

  unfoldable pub call : {A : Type 0} → (Body → Option A) → Request → Command S A
  unfolding process_response
  call read q s = let r = ask q s in (r.0, process_response read r.1)

  unfoldable pub http_get : {A : Type 0} → (Body → Option A) → List String → Command S A
  unfolding request call
  http_get read endpoint = call read (request get endpoint no_forms)

  -- The request is `ureq::get`.
  unfoldable pub http_delete : List String → Command S (Unit {0})
  unfolding request call
  http_delete endpoint = call ignored (request get endpoint no_forms)

  unfoldable pub http_post : {A : Type 0} → (Body → Option A) → List String → Forms → Command S A
  unfolding request call
  http_post read endpoint form = call read (request post endpoint form)

  unfoldable pub http_put : List String → Forms → Command S (Unit {0})
  unfolding request call
  http_put endpoint form = call ignored (request put endpoint form)
