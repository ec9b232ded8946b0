-- ===== src/Server.antt =====
-- src/server.ts: what the handlers share, and those of POST /api/config and POST /api/replay. A body that is
-- not JSON is `none`;
-- `local` is what isLocalhost says of the request; `now` is the reading of Date.now() for validation,
-- and `ts` the later one for the answer. `details` is what zod's error.format() makes of a body.
pub mod Access
pub mod Submit
pub mod Drain
pub mod Status
pub mod Routes
pub mod Wire
pub mod Sample
mod Examples
use l0_worker.Base.{
  ℕ, String, Bool, true, false, not, Option, none, some, List, [], ◌∷◌, ◌++◌, map, ◌==◌,
  if◌then◌else◌,
}
use l0_worker.Base.Int.{ℤ, pos}
use l0_worker.Json.{Json, bool, num, str, obj, Fields, end, field}
use l0_worker.Thrown.{Thrown, Result, ok, err, ◌>>=◌}
use l0_worker.Auth.{AuthSettings, AuthResult, valid, invalid, validate_auth, envelope_json}
use l0_worker.Event.Inbound.{AuthEnvelope, TaskReplayRequest, WorkerConfigUpdate}
use l0_worker.Event.Outbound.{OutboundEvent}
use l0_worker.Requests.{parse_config_update, parse_replay_request}
use l0_worker.Executor.Runtime.{L0Event}
use l0_worker.Replay.{ReplayResult}
use l0_worker.Settings.{Update}
use l0_worker.Worker
use l0_worker.Worker.{VercelWorker, update_config}

-- A chunk of a stream of server-sent events; an error is the object that is sent.
pub data Chunk : Type 0 where
  data_event : OutboundEvent → Chunk
  data_l0 : L0Event → Chunk
  replay_complete : ℕ → Option Bool → Chunk
  done : Chunk
  error_event : Json → Chunk

-- A stream that is not closed ends with what its `start` throws.
pub data Response : Type 0 where
  json_response : ℕ → Json → Response
  event_stream : List Chunk → Response
  broken_stream : List Chunk → Thrown → Response

abbrev pub status : Response → ℕ
status (json_response code body) = code
status (event_stream chunks) = 200
status (broken_stream chunks e) = 200

-- Response.json({ error: message }, { status: code })
abbrev pub failure : ℕ → String → Response
failure code message = json_response code (obj (field "error" (str message) end))

-- The response to a validation that fails.
unfoldable pub rejection : AuthResult → Option Response
rejection valid = none
rejection (invalid reason) = some (
    json_response 401
      (obj (field "error" (str "Auth validation failed") (field "reason" (str reason) end))))

-- The argument of updateConfig.
abbrev pub update_of : WorkerConfigUpdate → Update
update_of u = record {
  max_concurrency = u.max_concurrency;
  resource_caps = u.resource_caps;
  feature_flags = u.feature_flags;
}

unfoldable pub replay_chunks : List OutboundEvent × ReplayResult → List Chunk
replay_chunks (events, result) =
    map data_event events ++ replay_complete result.events_replayed result.output_hash_match ∷ []

abbrev pub invalid_json : Response
invalid_json = failure 400 "Invalid JSON"

module _ (hmac : String → List ℕ → String) (details : Json → Json) (settings : AuthSettings) where
  abbrev pub invalid_request : Json → Response
  invalid_request j =
      json_response 400
        (obj (field "error" (str "Invalid request") (field "details" (details j) end)))

  -- The answer for a request whose auth is missing or does not hold; localhost needs none.
  unfoldable pub require_auth : ℕ → Bool → Option AuthEnvelope → String → Result (Option Response)
  unfolding rejection
  require_auth now true auth id = ok none
  require_auth now false none id =
      ok (some (failure 401 "Auth required for non-localhost requests"))
  require_auth now false (some e) id = do
    v ← validate_auth hmac settings now (envelope_json e) id
    ok (rejection v)

  -- handleConfig after validation.
  unfoldable pub apply_config :
      ℕ → WorkerConfigUpdate → VercelWorker → Result (Response × VercelWorker)
  apply_config ts u w =
      if not (u.worker_id == Worker.worker_id w)
      then ok (failure 400 "Worker ID mismatch", w)
      else do
        w' ← update_config (update_of u) w
        ok (
          json_response 200 (
              obj (
                field "success" (bool true) (
                  field "maxConcurrency" (num (Worker.max_concurrency w'))
                    (field "ts" (num (pos ts)) end)))),
          w',
        )

  abbrev pub answer :
      Option Response
      → Result (Response × VercelWorker)
      → VercelWorker
      → Result (Response × VercelWorker)
  answer (some r) next w = ok (r, w)
  answer none next w = next

  unfoldable pub config_request :
      ℕ → ℕ → Bool → WorkerConfigUpdate → VercelWorker → Result (Response × VercelWorker)
  config_request now ts local u w = do
    refused ← require_auth now local u.auth u.worker_id
    answer refused (apply_config ts u w) w

  -- handleConfig(req, server)
  unfoldable pub handle_config :
      ℕ → ℕ → Bool → Option Json → VercelWorker → Result (Response × VercelWorker)
  handle_config now ts local none w = ok (invalid_json, w)
  handle_config now ts local (some body) w = elim (parse_config_update body) [
    | none ↦ ok (invalid_request body, w)
    | some u ↦ config_request now ts local u w
  ]

  -- handleReplay after validation.
  unfoldable pub replay_answer : Option Response → TaskReplayRequest → VercelWorker → Response
  unfolding replay_chunks
  replay_answer (some r) request w = r
  replay_answer none request w =
      if not (Worker.can_replay request.task_id w)
      then json_response 404
          (obj (field "error" (str "Task not found") (field "task_id" (str request.task_id) end)))
      else event_stream (replay_chunks (Worker.replay request w))

  unfoldable pub replay_request : ℕ → TaskReplayRequest → VercelWorker → Result Response
  unfolding rejection
  replay_request now request w = do
    v ← validate_auth hmac settings now (envelope_json request.auth) request.task_id
    ok (replay_answer (rejection v) request w)

  -- handleReplay(req); a replay changes nothing
  unfoldable pub handle_replay : ℕ → Option Json → VercelWorker → Result Response
  handle_replay now none w = ok invalid_json
  handle_replay now (some body) w = elim (parse_replay_request body) [
    | none ↦ ok (invalid_request body)
    | some request ↦ replay_request now request w
  ]
