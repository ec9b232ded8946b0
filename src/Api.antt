-- ===== src/Api.antt =====
-- api/submit.ts, api/replay.ts, api/config.ts, api/status.ts: the handlers of the serverless deployment. The
-- platform has parsed the body; the worker is made on demand, by createWorkerInstance of
-- src/worker-instance.ts.
pub mod Equivalence
mod Examples
use l0_worker.Base.{
  ℕ, String, Bool, true, false, not, Option, none, some, List, [], ◌∷◌, ◌++◌, map, ◌==◌,
  if◌then◌else◌,
}
use l0_worker.Base.Int.{pos}
use l0_worker.Json.{Json, bool, num, str, obj, end, field}
use l0_worker.Thrown.{Thrown, Result, ok, err, ◌>>=◌}
use l0_worker.Machine.{label}
use l0_worker.Clock.{MonotonicClock}
use l0_worker.Auth.{AuthSettings, validate_auth, envelope_json}
use l0_worker.Event.Inbound.{AuthEnvelope, TaskSubmit, TaskReplayRequest, WorkerConfigUpdate}
use l0_worker.Requests.{parse_config_update, parse_replay_request}
use l0_worker.Requests.Submit.{parse_task_submit}
use l0_worker.Effects.{Action, try_catch, ◌>>◌}
use l0_worker.Worker
use l0_worker.Worker.{VercelWorker, update_config}
use l0_worker.World.{Env, World}
use l0_worker.Task.{execute_task_with_events}
use l0_worker.Server.{
  Response, json_response, event_stream, failure, invalid_request, rejection, update_of,
  replay_chunks, done,
}
use l0_worker.Server.Submit.{
  Feed, chunk_of, execute, enqueue, send_error, response_of, not_accepting, slots_taken,
}

-- The state of the process: `workerInstance`, the global clock, the readings of the system's clock that were
-- taken, and what was thrown in timers.
pub record Host : Type 0 where
  pub worker_instance : Option VercelWorker
  pub clock : MonotonicClock
  pub reads : ℕ
  pub uncaught : List Thrown

-- What the execution of a task finds, and what it leaves.
abbrev pub world_of : VercelWorker → Host → World
world_of w h = record {
  worker = w;
  clock = h.clock;
  reads = h.reads;
  emits = 0;
  sent = [];
  aborted = false;
  uncaught = h.uncaught;
}

abbrev pub host_of : World → Host
host_of w = record {
  worker_instance = some w.worker;
  clock = w.clock;
  reads = w.reads;
  uncaught = w.uncaught;
}

abbrev method_not_allowed : Response
method_not_allowed = failure 405 "Method not allowed"

abbrev not_initialized : Response
not_initialized = failure 503 "Worker not initialized"

abbrev known_worker : Result VercelWorker → Option VercelWorker → Result VercelWorker
known_worker create none = create
known_worker create (some w) = ok w

-- getWorkerInstance() ?? createWorkerInstance()
abbrev instance_of : Result VercelWorker → Host → Result VercelWorker
instance_of create h = known_worker create h.worker_instance

-- api/status.ts: `ts` is the reading of the clock.
unfoldable pub status : Result VercelWorker → ℕ → String → Host → Result (Response × Host)
status create ts method h = if not (method == "GET") then ok (method_not_allowed, h) else do
  w ← instance_of create h
  ok (
    json_response 200 (
        obj (
          field "workerId" (str (Worker.worker_id w)) (
            field "state" (str (label (Worker.state w))) (
              field "protocolVersion" (str (Worker.protocol_version w)) (
                field "maxConcurrency" (num (Worker.max_concurrency w)) (
                  field "inflightTasks" (num (pos (Worker.inflight_count w))) (
                    field "availableSlots" (num (Worker.available_slots w))
                      (field "ts" (num (pos ts)) end)))))))),
    record h { worker_instance = some w },
  )

module _ (env : Env) where
  -- The `try` statement of api/submit.ts: the events are written to the response, and then its end.
  unfoldable pub write_events : TaskSubmit → Action Feed (Unit {0})
  unfolding execute send_error
  write_events submit = try_catch (execute env submit >> enqueue env done) (send_error env)

  -- api/submit.ts from the check of the worker on.
  unfoldable pub submit_to : TaskSubmit → VercelWorker → Host → Response × Host
  unfolding not_accepting slots_taken
  submit_to submit w h =
      if not (Worker.is_accepting w)
      then (not_accepting w, record h { worker_instance = some w })
      else if not (Worker.has_available_slot w)
      then (slots_taken w, record h { worker_instance = some w })
      else let (r, f) = write_events submit (record { chunks = []; world = world_of w h }) in
        (response_of r f, host_of f.world)

module _ (hmac : String → List ℕ → String) (details : Json → Json) (settings : AuthSettings) where
  abbrev wrong_body : Json → Response
  wrong_body body = invalid_request hmac details settings body

  abbrev submit_next :
      Env → Result VercelWorker → Option Response → TaskSubmit → Host → Result (Response × Host)
  submit_next env create (some r) s h = ok (r, h)
  submit_next env create none s h = do w ← instance_of create h; ok (submit_to env s w h)

  unfoldable pub submit_valid :
      Env → Result VercelWorker → ℕ → TaskSubmit → Host → Result (Response × Host)
  unfolding rejection submit_to
  submit_valid env create now s h = do
    v ← validate_auth hmac settings now (envelope_json s.auth) s.task_id
    submit_next env create (rejection v) s h

  -- api/submit.ts
  unfoldable pub submit :
      Env → Result VercelWorker → ℕ → String → Json → Host → Result (Response × Host)
  submit env create now method body h =
      if not (method == "POST") then ok (method_not_allowed, h) else elim (parse_task_submit body) [
        | none ↦ ok (wrong_body body, h)
        | some s ↦ submit_valid env create now s h
      ]

  abbrev replay_of : Option Response → TaskReplayRequest → Option VercelWorker → Response
  replay_of (some r) q w = r
  replay_of none q none = not_initialized
  replay_of none q (some w) =
      if not (Worker.can_replay q.task_id w)
      then json_response 404
          (obj (field "error" (str "Task not found") (field "task_id" (str q.task_id) end)))
      else event_stream (replay_chunks (Worker.replay q w))

  unfoldable pub replay_valid : ℕ → TaskReplayRequest → Option VercelWorker → Result Response
  unfolding rejection replay_chunks
  replay_valid now q w = do
    v ← validate_auth hmac settings now (envelope_json q.auth) q.task_id
    ok (replay_of (rejection v) q w)

  -- api/replay.ts, which changes nothing
  unfoldable pub replay : ℕ → String → Json → Option VercelWorker → Result Response
  replay now method body w =
      if not (method == "POST") then ok method_not_allowed else elim (parse_replay_request body) [
        | none ↦ ok (wrong_body body)
        | some q ↦ replay_valid now q w
      ]

  abbrev pub configured :
      ℕ → WorkerConfigUpdate → VercelWorker → Result (Response × Option VercelWorker)
  configured ts u w =
      if not (u.worker_id == Worker.worker_id w)
      then ok (failure 400 "Worker ID mismatch", some w)
      else do
        w' ← update_config (update_of u) w
        ok (
          json_response 200 (
              obj (
                field "success" (bool true) (
                  field "maxConcurrency" (num (Worker.max_concurrency w'))
                    (field "ts" (num (pos ts)) end)))),
          some w',
        )

  abbrev config_of :
      ℕ
      → Option Response
      → WorkerConfigUpdate
      → Option VercelWorker
      → Result (Response × Option VercelWorker)
  config_of ts (some r) u w = ok (r, w)
  config_of ts none u none = ok (not_initialized, none)
  config_of ts none u (some w) = configured ts u w

  abbrev config_auth : ℕ → Option AuthEnvelope → String → Result (Option Response)
  config_auth now none id = ok (some (failure 401 "Auth required"))
  config_auth now (some e) id = do
    v ← validate_auth hmac settings now (envelope_json e) id
    ok (rejection v)

  unfoldable pub config_valid :
      ℕ → ℕ → WorkerConfigUpdate → Option VercelWorker → Result (Response × Option VercelWorker)
  unfolding rejection
  config_valid now ts u w = do
    refused ← config_auth now u.auth u.worker_id
    config_of ts refused u w

  -- api/config.ts
  unfoldable pub config :
      ℕ → ℕ → String → Json → Option VercelWorker → Result (Response × Option VercelWorker)
  config now ts method body w =
      if not (method == "POST")
      then ok (method_not_allowed, w)
      else elim (parse_config_update body) [
        | none ↦ ok (wrong_body body, w)
        | some u ↦ config_valid now ts u w
      ]
