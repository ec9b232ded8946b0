-- ===== src/Server/Routes.antt =====
-- src/server.ts, handleRequest: the routes of the server. A request is what the handlers read of it; its body
-- is `none` if it is no JSON.
pub mod Safety
pub mod Draining
mod Examples
use l0_worker.Base.{
  ℕ, ◌+◌, String, Bool, true, false, ◌&&◌, ◌||◌, Option, none, some, List, ◌==◌, if◌then◌else◌,
}
use l0_worker.Json.{Json, str, obj, end, field}
use l0_worker.Thrown.{Thrown, Result, ok, err, ◌>>=◌}
use l0_worker.Auth.{AuthSettings}
use l0_worker.Worker
use l0_worker.Worker.{VercelWorker}
use l0_worker.World.{Env, World}
use l0_worker.Server.{Response, json_response, failure, handle_config, handle_replay}
use l0_worker.Server.Submit.{error_message, handle_submit}
use l0_worker.Server.Status.{handle_status}
use l0_worker.Server.Drain.{is_localhost, handle_drain}

pub record Request : Type 0 where
  pub path : String
  pub method : String
  pub address : Option String
  pub body : Option Json

-- The process: `drains` counts the drains that were started, each of which exits at its end.
pub record Process : Type 0 where
  pub world : World
  pub drains : ℕ

-- What a request finds: the readings of the clock for validation and for the answer, and when the server
-- was started.
pub record Readings : Type 0 where
  pub now : ℕ
  pub ts : ℕ
  pub started : ℕ

pub data Route : Type 0 where
  submit status replay config drain not_allowed not_found : Route

-- The paths that have a handler.
unfoldable pub known : String → Bool
known path =
    path == "/api/submit"
    || path == "/api/status"
    || path == "/api/replay"
    || path == "/api/config"
    || path == "/api/drain"

unfoldable pub route : String → String → Route
unfolding known
route path method =
    if path == "/api/submit" && method == "POST"
    then submit
    else if path == "/api/status" && method == "GET"
    then status
    else if path == "/api/replay" && method == "POST"
    then replay
    else if path == "/api/config" && method == "POST"
    then config
    else if path == "/api/drain" && method == "POST"
    then drain
    else if known path
    then not_allowed
    else not_found

abbrev with_worker : Process → Response × VercelWorker → Response × Process
with_worker p (r, w) = (r, record p { world = record p.world { worker = w } })

abbrev with_world : Process → Response × World → Response × Process
with_world p (r, w) = (r, record p { world = w })

abbrev with_drain : Process → Response × Bool → Response × Process
with_drain p (r, true) = (r, record p { drains = p.drains + 1 })
with_drain p (r, false) = (r, p)

-- The `catch` clause.
unfoldable pub internal_error : Thrown → Response
unfolding error_message
internal_error e = json_response 500 (
    obj (field "error" (str "Internal server error") (field "message" (str (error_message e)) end)))

module _ (hmac : String → List ℕ → String) (details : Json → Json) (settings : AuthSettings)
    (null_access : String) (env : Env) where
  -- The handler that a route calls.
  unfoldable pub dispatch : Readings → Request → Process → Route → Result (Response × Process)
  dispatch at q p submit = do
    a ← handle_submit hmac details settings env at.now q.body p.world
    ok (with_world p a)
  dispatch at q p status = ok (handle_status at.started at.now at.ts p.world.worker, p)
  dispatch at q p replay = do
    r ← handle_replay hmac details settings at.now q.body p.world.worker
    ok (r, p)
  dispatch at q p config = do
    a ←
        handle_config hmac details settings at.now at.ts (is_localhost q.address) q.body
          p.world.worker
    ok (with_worker p a)
  dispatch at q p drain = do
    a ←
        handle_drain hmac settings null_access at.now (is_localhost q.address)
          (Worker.worker_id p.world.worker) env.drain_buffer_ms q.body
    ok (with_drain p a)
  dispatch at q p not_allowed = ok (failure 405 "Method not allowed", p)
  dispatch at q p not_found = ok (failure 404 "Not found", p)

  abbrev caught : Process → Result (Response × Process) → Response × Process
  caught p (ok a) = a
  caught p (err e) = (internal_error e, p)

  -- handleRequest(req, server)
  unfoldable pub handle_request : Readings → Request → Process → Response × Process
  unfolding dispatch route internal_error
  handle_request at q p = caught p (dispatch at q p (route q.path q.method))
