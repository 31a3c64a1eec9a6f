-- ===== src/Server/Api/Invariant.antt =====
-- The state of the server under requests, in any order and from anyone.
use innernet.Prelude.{ℕ, String, sym, subst, Bool, Option, none, some, List, [], ◌∷◌}
use innernet.Wg.{Base64}
use innernet.Wg.DeviceBuilder.{DeviceConfigBuilder}
use innernet.Shared.{Peer}
use innernet.Server.Db.{Packages, PackagesLaws}
use innernet.Server.Api.{ServerState, Reply, refused, Handler}
use innernet.Server.Api.Routes.{Request, Route, if_some, admitted, run, route, serve_request}
use innernet.Server.Api.Tasks.{session_of, task, run-task}
use innernet.Server.Api.Handlers.{TaskKeeps, task-Keeps}
use innernet.Server.Api.Keeps.{IsSound, Keeps, admitted-Keeps}

module _ (pk : Packages) (laws : PackagesLaws pk) where
  module _ (base64 : Base64) (accepts : DeviceConfigBuilder → Bool) where
    -- Every route keeps the database well formed, with foreign keys on.
    run-Keeps : (r : Route) (q : Request) → Keeps pk laws (run pk base64 accepts r q)
    run-Keeps r q s v =
        subst (λ t. IsSound pk t.0.conn) (sym (run-task pk base64 accepts r q s))
          (taken (task pk base64 accepts r q.forms) (task-Keeps pk laws base64 accepts r q.forms))
      where
        taken :
            (o : Option (Peer → Handler))
            → TaskKeeps pk laws base64 accepts o
            → IsSound pk (if_some (admitted (session_of r q.remote)) o s).0.conn
        taken none k = v
        taken (some h) k = admitted-Keeps pk laws (session_of r q.remote) h k s v

    -- A request of any kind, from anyone, leaves a well formed database well formed.
    serve_request-Keeps :
        (parse_id : String → Option ℕ) (request : Request) (s : ServerState)
        → IsSound pk s.conn
        → IsSound pk (serve_request pk base64 accepts parse_id request s).0.conn
    unfolding serve_request
    serve_request-Keeps parse_id request s v = reached (route parse_id request.method request.path)
      where
        reached :
            (o : Option Route)
            → IsSound pk (
                let t : ServerState × Reply = elim o [
                  | none ↦ (s, refused)
                  | some found ↦ run pk base64 accepts found request s
                ] in
                t.0.conn)
        reached none = v
        reached (some r) = run-Keeps r request s v

    -- The states that a sequence of requests leads to.
    serve_all : (String → Option ℕ) → List Request → ServerState → ServerState
    serve_all parse_id [] s = s
    serve_all parse_id (r ∷ rs) s =
        serve_all parse_id rs (serve_request pk base64 accepts parse_id r s).0

    -- From a database that is well formed and has foreign keys on, every sequence of requests, from
    -- anyone and of any kind, leads to such a database.
    serve_all-IsSound :
        (parse_id : String → Option ℕ) (requests : List Request) (s : ServerState)
        → IsSound pk s.conn
        → IsSound pk (serve_all parse_id requests s).conn
    unfolding serve_all
    serve_all-IsSound parse_id [] s v = v
    serve_all-IsSound parse_id (r ∷ rs) s v =
        serve_all-IsSound parse_id rs (serve_request pk base64 accepts parse_id r s).0
          (serve_request-Keeps parse_id r s v)
