-- ===== src/Server/World.antt =====
-- The server between the turns of its lock (server/src/main.rs, server/src/api, server/src/endpoints.rs):
-- requests whose session was looked up and whose handler has not run yet, the tasks that `redeem`
-- spawned, and the thread that looks at the interface, in any order.
pub mod Sessions
use innernet.Prelude.{
  ℕ, String, ◌≡◌, subst, inl, inr, Bool, Option, some, List, [], ◌∷◌, ◌++◌, if◌then◌else◌,
  Bool-cases, append-nil,
}
use mathlib.Core.List.{append-nil}
use innernet.Wg.{Base64, DeviceInfo}
use innernet.Wg.DeviceBuilder.{DeviceConfigBuilder}
use innernet.Shared.{Peer}
use innernet.Server.Db.{Packages, PackagesLaws, Result, ok, err}
use innernet.Server.Endpoints.{watch}
use innernet.Server.Api.{ServerState, Reply, rejected, Handler}
use innernet.Server.Api.Routes.{Request, Route, if_some, admitted, run, route, serve_request}
use innernet.Server.Api.Tasks.{session_of, task, run-task}
use innernet.Server.Api.Handlers.{TaskKeeps, task-Keeps}
use innernet.Server.Api.Keeps.{IsSound}

-- A handler that waits for the lock, with the session that its filter found.
pub record Pending : Type 0 where
  pub route : Route
  pub request : Request
  pub session : Peer

pub record World : Type 0 where
  pub server : ServerState
  pub pending : List Pending

-- The task of `redeem` after its wait: the interface accepts its configuration, or an error is logged.
abbrev pub fire : (DeviceConfigBuilder → Bool) → DeviceConfigBuilder → ServerState → ServerState
fire accepts builder s =
    if accepts builder then record s { applied = s.applied ++ builder ∷ [] } else s

module _ (pk : Packages) (base64 : Base64) (accepts : DeviceConfigBuilder → Bool)
    (parse_id : String → Option ℕ) where
  pub data Step (w : World) : World → Type 0 where
    -- A filter finds the session of a request.
    admit :
        (r : Route) (q : Request) (peer : Peer)
        → route parse_id q.method q.path ≡ some r
        → session_of r q.remote w.server.conn ≡ ok peer
        → Step w (record w {
          pending = w.pending ++ record { route = r; request = q; session = peer } ∷ [];
        })
    -- A handler that waits runs, on the database of now and the session of then.
    handle :
        (before after : List Pending) (p : Pending) (h : Peer → Handler)
        → w.pending ≡ before ++ p ∷ after
        → task pk base64 accepts p.route p.request.forms ≡ some h
        → Step w (record { server = (h p.session w.server).0; pending = before ++ after })
    -- A client goes away before its handler runs.
    drop :
        (before after : List Pending) (p : Pending)
        → w.pending ≡ before ++ p ∷ after
        → Step w (record w { pending = before ++ after })
    -- A task of `redeem` has waited long enough.
    wake :
        (before after : List DeviceConfigBuilder) (builder : DeviceConfigBuilder)
        → w.server.scheduled ≡ before ++ builder ∷ after
        → Step w (record w {
          server = fire accepts builder (record (w.server) { scheduled = before ++ after });
        })
    -- The thread looks at the interface.
    look :
        (device : Option DeviceInfo)
        → Step w (record w {
          server = record (w.server) { endpoints = watch base64 device w.server.endpoints };
        })

  pub data Reach (w : World) : World → Type 0 where
    here : Reach w w
    later : {t u : World} → Reach w t → Step t u → Reach w u

  module _ (laws : PackagesLaws pk) where
    handled-IsSound :
        (h : Peer → Handler) (o : Option (Peer → Handler)) (session : Peer) (s : ServerState)
        → o ≡ some h
        → TaskKeeps pk laws base64 accepts o
        → IsSound pk s.conn
        → IsSound pk (h session s).0.conn
    handled-IsSound h o session s e k v =
        let kept : TaskKeeps pk laws base64 accepts (some h) =
          subst (λ t. TaskKeeps pk laws base64 accepts t) e k in
        kept session s v

    Step-IsSound : {w t : World} → Step w t → IsSound pk w.server.conn → IsSound pk t.server.conn
    Step-IsSound (admit r q peer routed found) v = v
    Step-IsSound {w} (handle before after p h waits e) v =
        handled-IsSound h (task pk base64 accepts p.route p.request.forms) p.session w.server e
          (task-Keeps pk laws base64 accepts p.route p.request.forms) v
    Step-IsSound (drop before after p waits) v = v
    Step-IsSound {w} (wake before after builder waits) v = elim (Bool-cases (accepts builder)) [
      | inl e ↦ rw e v
      | inr e ↦ rw e v
    ]
    Step-IsSound (look device) v = v

    -- However lookups of sessions, handlers, delayed tasks, lost connections and looks at the
    -- interface are interleaved, a database that is well formed with foreign keys on stays so.
    pub Reach-IsSound :
        {w t : World} → Reach w t → IsSound pk w.server.conn → IsSound pk t.server.conn
    Reach-IsSound here v = v
    Reach-IsSound (later r step) v = Step-IsSound step (Reach-IsSound r v)
