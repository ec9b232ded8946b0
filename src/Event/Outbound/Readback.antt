-- ===== src/Event/Outbound/Readback.antt =====
-- An event of src/events/outbound.ts can be read back from its JSON.
use l0_worker.Base.{
  ℕ, String, Bool, false, Option, none, some, [], ◌==◌, ◌≡◌, refl, sym, ◌∙◌, ap, if◌then◌else◌,
}
use l0_worker.Base.Int.{ℤ, pos, negsuc}
use l0_worker.Map.{Map}
use l0_worker.Json.{Json, bool, num, str, obj, property}
use l0_worker.Requests.Inference.{entries}
use l0_worker.Requests.Inference.Printing.{given}
use l0_worker.Requests.Inference.RoundTrip.{entries_lem}
use l0_worker.Event.Outbound.{
  FailureClass, timeout, rate_limited, context_length_exceeded, invalid_input, model_error,
  network_error, guardrail_violation, determinism_violation, aborted, unknown, ProgressStage,
  first_token, streaming, tool_invoked, checkpoint_written, TaskMetrics, WorkerLoadEvent,
  TaskProgressEvent, TaskFailedEvent, OutboundEvent, worker_ready, worker_load, task_accepted,
  task_progress, task_completed, task_failed, worker_draining, worker_offline,
}
use l0_worker.Event.Outbound.Printing.{failure_name, stage_name, metrics_json, event_json}

abbrev at : String → Json → Option Json
at k (obj fs) = property k fs
at k _ = none

abbrev text_of : Option Json → String
text_of (some (str s)) = s
text_of _ = ""

abbrev int_of : Option Json → ℤ
int_of (some (num n)) = n
int_of _ = pos 0

abbrev nat_of_int : ℤ → ℕ
nat_of_int (pos n) = n
nat_of_int (negsuc n) = 0

abbrev nat_of : Option Json → ℕ
nat_of j = nat_of_int (int_of j)

abbrev flag_of : Option Json → Bool
flag_of (some (bool b)) = b
flag_of _ = false

abbrev map_of : Json → Map Json
map_of (obj fs) = entries fs
map_of _ = []

abbrev optional {ℓ} : {A : Type ℓ} → (Option Json → A) → Option Json → Option A
optional read none = none
optional read (some j) = some (read (some j))

abbrev optional_map : Option Json → Option (Map Json)
optional_map none = none
optional_map (some j) = some (map_of j)

abbrev class_of : String → FailureClass
class_of s =
    if s == "timeout"
    then timeout
    else if s == "rate_limited"
    then rate_limited
    else if s == "context_length_exceeded"
    then context_length_exceeded
    else if s == "invalid_input"
    then invalid_input
    else if s == "model_error"
    then model_error
    else if s == "network_error"
    then network_error
    else if s == "guardrail_violation"
    then guardrail_violation
    else if s == "determinism_violation"
    then determinism_violation
    else if s == "aborted"
    then aborted
    else unknown

abbrev stage_of : String → ProgressStage
stage_of s =
    if s == "first_token"
    then first_token
    else if s == "streaming"
    then streaming
    else if s == "tool_invoked"
    then tool_invoked
    else checkpoint_written

class_of_lem : (c : FailureClass) → class_of (failure_name c) ≡ c
class_of_lem timeout = refl
class_of_lem rate_limited = refl
class_of_lem context_length_exceeded = refl
class_of_lem invalid_input = refl
class_of_lem model_error = refl
class_of_lem network_error = refl
class_of_lem guardrail_violation = refl
class_of_lem determinism_violation = refl
class_of_lem aborted = refl
class_of_lem unknown = refl

stage_of_lem : (s : ProgressStage) → stage_of (stage_name s) ≡ s
stage_of_lem first_token = refl
stage_of_lem streaming = refl
stage_of_lem tool_invoked = refl
stage_of_lem checkpoint_written = refl

unfoldable metrics_of : Json → TaskMetrics
unfolding property
metrics_of j = record {
  duration_ms = int_of (at "durationMs" j);
  token_count = nat_of (at "tokenCount" j);
  prompt_tokens = optional nat_of (at "promptTokens" j);
  completion_tokens = optional nat_of (at "completionTokens" j);
}

metrics_parts :
    (d : ℤ) (t : ℕ) (p c : Option ℕ)
    → let m : TaskMetrics = record {
      duration_ms = d;
      token_count = t;
      prompt_tokens = p;
      completion_tokens = c;
    } in
      metrics_of (metrics_json m) ≡ m
unfolding metrics_of given property
metrics_parts d t none none = refl
metrics_parts d t none (some c) = refl
metrics_parts d t (some p) none = refl
metrics_parts d t (some p) (some c) = refl

metrics_of_lem : (m : TaskMetrics) → metrics_of (metrics_json m) ≡ m
metrics_of_lem m = metrics_parts m.duration_ms m.token_count m.prompt_tokens m.completion_tokens

abbrev json_at : String → Json → Json
json_at k j = elim (at k j) [ some v ↦ v | none ↦ j ]

-- The event of a type, read from the other properties.
abbrev read_as : String → Json → OutboundEvent
read_as t j =
    if t == "WORKER_READY"
    then worker_ready (record {
      worker_id = text_of (at "workerId" j);
      protocol_version = text_of (at "protocolVersion" j);
      max_concurrency = int_of (at "maxConcurrency" j);
      ts = nat_of (at "ts" j);
    })
    else if t == "WORKER_LOAD"
    then worker_load (record {
      worker_id = text_of (at "workerId" j);
      inflight_tasks = nat_of (at "inflightTasks" j);
      queue_depth = nat_of (at "queueDepth" j);
      cpu_pressure = int_of (at "cpuPressure" j);
      memory_pressure = int_of (at "memoryPressure" j);
      gpu_pressure = optional int_of (at "gpuPressure" j);
      ts = nat_of (at "ts" j);
    })
    else if t == "TASK_ACCEPTED"
    then task_accepted (record {
      task_id = text_of (at "taskId" j);
      worker_id = text_of (at "workerId" j);
      ts = nat_of (at "ts" j);
    })
    else if t == "TASK_PROGRESS"
    then task_progress (record {
      task_id = text_of (at "taskId" j);
      stage = stage_of (text_of (at "stage" j));
      ts = nat_of (at "ts" j);
      metadata = optional_map (at "metadata" j);
    })
    else if t == "TASK_COMPLETED"
    then task_completed (record {
      task_id = text_of (at "taskId" j);
      worker_id = text_of (at "workerId" j);
      final_metrics = metrics_of (json_at "finalMetrics" j);
      output_hash = text_of (at "outputHash" j);
      output = text_of (at "output" j);
      ts = nat_of (at "ts" j);
    })
    else if t == "TASK_FAILED"
    then task_failed (record {
      task_id = text_of (at "taskId" j);
      worker_id = text_of (at "workerId" j);
      failure_class = class_of (text_of (at "failureClass" j));
      retryable = flag_of (at "retryable" j);
      message = optional text_of (at "message" j);
      ts = nat_of (at "ts" j);
    })
    else if t == "WORKER_DRAINING"
    then worker_draining (record {
      worker_id = text_of (at "workerId" j);
      reason = text_of (at "reason" j);
      ts = nat_of (at "ts" j);
    })
    else worker_offline (record { worker_id = text_of (at "workerId" j); ts = nat_of (at "ts" j) })

unfoldable read_event : Json → OutboundEvent
unfolding metrics_of property
read_event j = read_as (text_of (at "type" j)) j

load_parts :
    (w : String) (i q : ℕ) (c m : ℤ) (g : Option ℤ) (t : ℕ)
    → let e : WorkerLoadEvent = record {
      worker_id = w;
      inflight_tasks = i;
      queue_depth = q;
      cpu_pressure = c;
      memory_pressure = m;
      gpu_pressure = g;
      ts = t;
    } in
      read_event (event_json (worker_load e)) ≡ worker_load e
unfolding read_event event_json
load_parts w i q c m none t = refl
load_parts w i q c m (some g) t = refl

progress_parts :
    (i : String) (s : ProgressStage) (t : ℕ) (d : Option (Map Json))
    → let e : TaskProgressEvent = record { task_id = i; stage = s; ts = t; metadata = d } in
      read_event (event_json (task_progress e)) ≡ task_progress e
unfolding read_event event_json
progress_parts i s t none =
    ap (λ x. task_progress (record { task_id = i; stage = x; ts = t; metadata = none }))
      (stage_of_lem s)
progress_parts i s t (some d) = λ k.
    task_progress
      (record { task_id = i; stage = stage_of_lem s k; ts = t; metadata = some (entries_lem d k) })

failed_parts :
    (i w : String) (c : FailureClass) (r : Bool) (m : Option String) (t : ℕ)
    → let e : TaskFailedEvent = record {
      task_id = i;
      worker_id = w;
      failure_class = c;
      retryable = r;
      message = m;
      ts = t;
    } in
      read_event (event_json (task_failed e)) ≡ task_failed e
unfolding read_event event_json
failed_parts i w c r none t =
    ap
      (λ x. task_failed (record {
        task_id = i;
        worker_id = w;
        failure_class = x;
        retryable = r;
        message = none;
        ts = t;
      }))
      (class_of_lem c)
failed_parts i w c r (some m) t =
    ap
      (λ x. task_failed (record {
        task_id = i;
        worker_id = w;
        failure_class = x;
        retryable = r;
        message = some m;
        ts = t;
      }))
      (class_of_lem c)

read_event_lem : (e : OutboundEvent) → read_event (event_json e) ≡ e
unfolding read_event event_json
read_event_lem (worker_ready e) = refl
read_event_lem (worker_load e) =
    load_parts e.worker_id e.inflight_tasks e.queue_depth e.cpu_pressure e.memory_pressure
      e.gpu_pressure e.ts
read_event_lem (task_accepted e) = refl
read_event_lem (task_progress e) = progress_parts e.task_id e.stage e.ts e.metadata
read_event_lem (task_completed e) =
    ap
      (λ m. task_completed (record {
        task_id = e.task_id;
        worker_id = e.worker_id;
        final_metrics = m;
        output_hash = e.output_hash;
        output = e.output;
        ts = e.ts;
      }))
      (metrics_of_lem e.final_metrics)
read_event_lem (task_failed e) =
    failed_parts e.task_id e.worker_id e.failure_class e.retryable e.message e.ts
read_event_lem (worker_draining e) = refl
read_event_lem (worker_offline e) = refl

-- No two events are written alike.
pub event_json-injective : (e d : OutboundEvent) → event_json e ≡ event_json d → e ≡ d
event_json-injective e d h = sym (read_event_lem e) ∙ ap read_event h ∙ read_event_lem d
