-- ===== src/Server/Examples.antt =====
-- Runs of server.ts.
use l0_worker.Base.{true, none, some, [], ◌∷◌, ◌≡◌, ◌≢◌, ◌⊎◌, refl}
use l0_worker.Base.Int.{pos}
use l0_worker.Json.{Json, bool, num, str, obj, field, end, property}
use l0_worker.Thrown.{ok}
use l0_worker.Settings
use l0_worker.Slots
use l0_worker.Auth.{validate_auth, parse_envelope, read_envelope, envelope_admits, check_envelope}
use l0_worker.Event.Inbound.{TaskReplayRequest, WorkerConfigUpdate}
use l0_worker.Requests.{
  parse_config_update, parse_replay_request, envelope_of, text_of, number_of, numbers_of, flags_of,
}
use l0_worker.Map
use l0_worker.Text.{utf16_length}
use l0_worker.Replay
use l0_worker.Store.{has_task, events_for_task}
use l0_worker.Event.Outbound.{OutboundEvent, task_accepted}
use l0_worker.Worker
use l0_worker.Worker.{VercelWorker, update_config}
use l0_worker.Server.{
  Response, status, json_response, handle_config, handle_replay, update_of, require_auth,
  apply_config, config_request, event_stream, data_event, replay_complete, replay_request,
  replay_answer, replay_chunks, rejection,
}
use l0_worker.Server.Sample.{hmac, details, settings, worker, unchecked}
use l0_worker.Server.Access.{config_access, replay_access, MayChange, AsksReplay, Replayed}

-- A request for a maximum of 3.
abbrev body : Json
body = obj (
    field "type" (str "WORKER_CONFIG_UPDATE") (
      field "worker_id" (str "w1")
        (field "max_concurrency" (num (pos 3)) (field "effective_ts" (num (pos 0)) end))))

abbrev update : WorkerConfigUpdate
update = record {
  auth = none;
  worker_id = "w1";
  max_concurrency = some (pos 3);
  resource_caps = none;
  feature_flags = none;
  effective_ts = pos 0;
}

body_parsed : parse_config_update body ≡ some update
unfolding parse_config_update envelope_of text_of number_of numbers_of flags_of property
body_parsed = refl

abbrev changed : Response
changed = json_response 200 (
    obj (
      field "success" (bool true)
        (field "maxConcurrency" (num (pos 3)) (field "ts" (num (pos 9)) end))))

local_change :
    handle_config hmac details settings 8 9 true (some body) (worker 2) ≡ ok (changed, worker 3)
unfolding handle_config config_request require_auth apply_config update_config Settings.update
    Settings.update_max Worker.notify Slots.set_max_concurrency Slots.check_concurrency
    parse_config_update envelope_of text_of number_of numbers_of flags_of property
local_change = refl

config_access_example :
    ((j : Json) × (u : WorkerConfigUpdate) × (status changed ≡ 200)
      × (some body ≡ some j)
      × (parse_config_update j ≡ some u)
      × (u.worker_id ≡ "w1")
      × (update_config (update_of u) (worker 2) ≡ ok (worker 3))
      × MayChange hmac details settings 8 true u (worker 2))
    ⊎ ((status changed ≢ 200) × (worker 3 ≡ worker 2))
config_access_example =
    config_access hmac details settings 8 9 true (some body) (worker 2) (worker 3) changed
      local_change

abbrev done : OutboundEvent
done = task_accepted (record { task_id = "a"; worker_id = "w1"; ts = 4 })

abbrev recorded : VercelWorker
recorded = record (worker 2) {
  event_store = record { events = ("a", done ∷ []) ∷ []; max_tasks = pos 0 };
}

abbrev replay_body : Json
replay_body = obj (
    field "type" (str "TASK_REPLAY_REQUEST") (
      field "auth"
        (obj (
          field "token" (str "00000000000000000000000000000000")
            (field "issued_at" (num (pos 5)) (field "ttl" (num (pos 10)) end))))
        (field "task_id" (str "a") (
          field "input_hash" (str "h")
            (field "reason" (str "audit") (field "replay_ts" (num (pos 8)) end))))))

abbrev streamed : Response
streamed = event_stream (data_event done ∷ replay_complete 1 none ∷ [])

replay_streamed : handle_replay hmac details unchecked 8 (some replay_body) recorded ≡ ok streamed
unfolding handle_replay replay_request replay_answer replay_chunks rejection parse_replay_request
    envelope_of text_of number_of property validate_auth parse_envelope read_envelope
    envelope_admits utf16_length check_envelope Worker.can_replay Worker.replay Replay.can_replay
    Replay.replay_with_validation Replay.replay_loop Replay.hash_match has_task events_for_task
    Map.has Map.get
replay_streamed = refl

replay_access_example :
    ((q : TaskReplayRequest) × AsksReplay hmac details unchecked 8 (some replay_body) q recorded
      × Replayed hmac details unchecked q recorded streamed)
    ⊎ ((¬ (
          (q : TaskReplayRequest) × AsksReplay hmac details unchecked 8
            (some replay_body)
            q
            recorded))
        × (status streamed ≢ 200))
replay_access_example =
    replay_access hmac details unchecked 8 (some replay_body) recorded streamed replay_streamed
