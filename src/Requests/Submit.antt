-- ===== src/Requests/Submit.antt =====
-- src/events/inbound.ts: the schemas of the submission of a task, of the other events of the orchestrator,
-- and of their union.
pub mod RoundTrip
use l0_worker.Base.{
  String, Bool, true, false, Option, none, some, List, [], ◌∷◌, ◌==◌, or_else, if◌then◌else◌,
}
use l0_worker.Json.{Json, null, Fields, property}
use l0_worker.Event.Inbound.{
  TaskConstraints, TaskSubmit, WorkerDrainRequest, ExecutionAbort, InboundEvent, task_submit,
  worker_drain_request, task_replay_request, worker_config_update, execution_abort,
}
use l0_worker.Requests.{
  text_of, number_of, envelope_of, flag_of, maybe, provided, properties, is_literal, ◌>>=◌,
  parse_replay_request, parse_config_update,
}
use l0_worker.Requests.Inference.{object, boolean_of, map_of, order_of}

unfoldable pub constraints_of : Option Json → Option TaskConstraints
unfolding number_of flag_of
constraints_of j = do
  fs ← object j
  timeout_ms ← maybe number_of (property "timeout_ms" fs)
  memory_cap_mb ← maybe number_of (property "memory_cap_mb" fs)
  determinism_required ← maybe boolean_of (property "determinism_required" fs)
  some (record {
    timeout_ms = timeout_ms;
    memory_cap_mb = memory_cap_mb;
    determinism_required = determinism_required;
  })

-- TaskSubmitSchema.safeParse(body). An absent payload, which is `undefined`, is null here: the schema of
-- the payload refuses both, later.
unfoldable pub parse_task_submit : Json → Option TaskSubmit
unfolding text_of number_of
parse_task_submit j = do
  fs ← properties j
  auth ← envelope_of (property "auth" fs)
  task_id ← text_of (property "task_id" fs)
  order ← order_of (property "order" fs)
  constraints ← maybe constraints_of (property "constraints" fs)
  meta ← maybe map_of (property "meta" fs)
  input_hash ← text_of (property "input_hash" fs)
  submission_ts ← number_of (property "submission_ts" fs)
  provided (is_literal "TASK_SUBMIT" (text_of (property "type" fs))) (record {
    auth = auth;
    task_id = task_id;
    order = order;
    payload = or_else (property "payload" fs) null;
    constraints = constraints;
    meta = meta;
    input_hash = input_hash;
    submission_ts = submission_ts;
  })

-- WorkerDrainRequestSchema.safeParse(body)
unfoldable pub parse_drain_request : Json → Option WorkerDrainRequest
unfolding text_of number_of
parse_drain_request j = do
  fs ← properties j
  worker_id ← text_of (property "worker_id" fs)
  reason ← text_of (property "reason" fs)
  deadline_ts ← number_of (property "deadline_ts" fs)
  provided (is_literal "WORKER_DRAIN_REQUEST" (text_of (property "type" fs)))
      (record { worker_id = worker_id; reason = reason; deadline_ts = deadline_ts })

-- ExecutionAbortSchema.safeParse(body)
unfoldable pub parse_execution_abort : Json → Option ExecutionAbort
unfolding text_of flag_of
parse_execution_abort j = do
  fs ← properties j
  task_id ← text_of (property "task_id" fs)
  reason ← text_of (property "reason" fs)
  force ← boolean_of (property "force" fs)
  provided (is_literal "EXECUTION_ABORT" (text_of (property "type" fs)))
      (record { task_id = task_id; reason = reason; force = force })

-- The schema that the property "type" chooses.
unfoldable pub inbound_type : String → Json → Option InboundEvent
unfolding parse_task_submit parse_drain_request parse_replay_request parse_config_update
    parse_execution_abort
inbound_type kind j =
    if kind == "TASK_SUBMIT"
    then parse_task_submit j >>= (λ e. some (task_submit e))
    else if kind == "WORKER_DRAIN_REQUEST"
    then parse_drain_request j >>= (λ e. some (worker_drain_request e))
    else if kind == "TASK_REPLAY_REQUEST"
    then parse_replay_request j >>= (λ e. some (task_replay_request e))
    else if kind == "WORKER_CONFIG_UPDATE"
    then parse_config_update j >>= (λ e. some (worker_config_update e))
    else if kind == "EXECUTION_ABORT"
    then parse_execution_abort j >>= (λ e. some (execution_abort e))
    else none

-- InboundEventSchema.safeParse(body)
unfoldable pub parse_inbound_event : Json → Option InboundEvent
unfolding inbound_type text_of
parse_inbound_event j = do
  fs ← properties j
  kind ← text_of (property "type" fs)
  inbound_type kind j
