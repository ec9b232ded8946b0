-- ===== src/Server/Submit.antt =====
-- src/server.ts, handleSubmit: the response to POST /api/submit. The stream is written while the task is
-- executed; what `controller.enqueue` throws, if it throws, is what the environment says of a call of `emit`.
pub mod Answers
mod Examples
use l0_worker.Base.{
  ℕ, ◌+◌, String, false, not, Option, none, some, List, [], ◌∷◌, ◌++◌, map, ◌==◌, if◌then◌else◌,
}
use l0_worker.Base.Int.{pos}
use l0_worker.Json.{Json, str, num, obj, Fields, end, field}
use l0_worker.Thrown.{Thrown, error, output_validation, value, message_of, Result, ok, err, ◌>>=◌}
use l0_worker.Machine.{label}
use l0_worker.Auth.{AuthSettings, validate_auth, envelope_json}
use l0_worker.Event.Inbound.{TaskSubmit}
use l0_worker.Requests.Submit.{parse_task_submit}
use l0_worker.Effects.{Action, try_catch, ◌>>◌}
use l0_worker.Worker
use l0_worker.Worker.{VercelWorker}
use l0_worker.World.{Env, World, Emission, event, l0}
use l0_worker.Task.{execute_task_with_events}
use l0_worker.Server.{
  Chunk, data_event, data_l0, done, error_event, Response, json_response, event_stream,
  broken_stream, failure, invalid_json, invalid_request, rejection,
}

abbrev pub chunk_of : Emission → Chunk
chunk_of (event e) = data_event e
chunk_of (l0 e) = data_l0 e

-- What has been written to a stream, and the world meanwhile.
pub record Feed : Type 0 where
  pub chunks : List Chunk
  pub world : World

-- The world as the execution of a task finds it: nothing is emitted for the task, and its signal is new.
abbrev pub begin : World → World
begin w = record w { emits = 0; sent = []; aborted = false }

-- error instanceof Error ? error.message : "Unknown error"
unfoldable pub error_message : Thrown → String
unfolding message_of
error_message (value t) = "Unknown error"
error_message e = message_of e

-- The counts of a worker that has no slot left.
abbrev pub counts : VercelWorker → Fields
counts w =
    field "inflight" (num (pos (Worker.inflight_count w)))
      (field "max" (num (Worker.max_concurrency w)) end)

-- The object that is sent for an error.
unfoldable pub error_json : String → VercelWorker → Json
error_json m w =
    if m == "No slots available"
    then obj (
        field "type" (str "ERROR")
          (field "code" (str "NO_SLOTS") (field "message" (str m) (counts w))))
    else if m == "Duplicate task ID"
    then obj (
        field "type" (str "ERROR")
          (field "code" (str "DUPLICATE_TASK") (field "message" (str m) end)))
    else obj (field "type" (str "ERROR") (field "message" (str m) end))

unfoldable pub not_accepting : VercelWorker → Response
not_accepting w = json_response 503 (
    obj (
      field "error" (str "Worker not accepting tasks")
        (field "state" (str (label (Worker.state w))) end)))

unfoldable pub slots_taken : VercelWorker → Response
slots_taken w = json_response 503 (obj (field "error" (str "No slots available") (counts w)))

-- The response that a stream is, by how its `start` ends.
abbrev pub response_of : Result (Unit {0}) → Feed → Response
response_of (ok u) f = event_stream f.chunks
response_of (err e) f = broken_stream f.chunks e

module _ (env : Env) where
  -- worker.executeTaskWithEvents(taskSubmit, …), each event written to the stream
  unfoldable pub execute : TaskSubmit → Action Feed (Unit {0})
  execute submit f =
      let (r, w) = execute_task_with_events env submit (begin f.world) in
      (r, record { chunks = map chunk_of w.sent; world = w })

  -- controller.enqueue(chunk)
  unfoldable pub enqueue : Chunk → Action Feed (Unit {0})
  enqueue c f =
      let spent = record f.world { emits = f.world.emits + 1 } in
      elim (env.sink f.world.emits) [
        | none ↦ (ok tt, record { chunks = f.chunks ++ c ∷ []; world = spent })
        | some x ↦ (err x, record f { world = spent })
      ]

  unfoldable pub send_error : Thrown → Action Feed (Unit {0})
  unfolding error_message error_json
  send_error e f = enqueue (error_event (error_json (error_message e) f.world.worker)) f

  -- The `start` of the stream.
  unfoldable pub start : TaskSubmit → Action Feed (Unit {0})
  unfolding execute send_error
  start submit = try_catch (execute submit >> enqueue done) send_error

  unfoldable pub stream_task : TaskSubmit → World → Response × World
  stream_task submit w =
      let (r, f) = start submit (record { chunks = []; world = w }) in (response_of r f, f.world)

  -- handleSubmit after validation.
  unfoldable pub admit : TaskSubmit → World → Response × World
  unfolding not_accepting slots_taken
  admit submit w =
      if not (Worker.is_accepting w.worker)
      then (not_accepting w.worker, w)
      else if not (Worker.has_available_slot w.worker)
      then (slots_taken w.worker, w)
      else stream_task submit w

abbrev answer : Option Response → Response × World → World → Response × World
answer (some r) next w = (r, w)
answer none next w = next

module _ (hmac : String → List ℕ → String) (details : Json → Json) (settings : AuthSettings)
    (env : Env) where
  unfoldable pub submit_request : ℕ → TaskSubmit → World → Result (Response × World)
  unfolding rejection
  submit_request now submit w = do
    v ← validate_auth hmac settings now (envelope_json submit.auth) submit.task_id
    ok (answer (rejection v) (admit env submit w) w)

  -- handleSubmit(req)
  unfoldable pub handle_submit : ℕ → Option Json → World → Result (Response × World)
  handle_submit now none w = ok (invalid_json, w)
  handle_submit now (some body) w = elim (parse_task_submit body) [
    | none ↦ ok (invalid_request hmac details settings body, w)
    | some submit ↦ submit_request now submit w
  ]
