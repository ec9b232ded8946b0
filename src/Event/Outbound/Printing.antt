-- ===== src/Event/Outbound/Printing.antt =====
-- The object that an event of src/events/outbound.ts is, as JSON: what JSON.stringify makes of it. A property that is
-- undefined is left out. Pressures are in thousandths.
use l0_worker.Base.{ℕ, String}
use l0_worker.Base.Int.{pos}
use l0_worker.Json.{Json, bool, num, str, obj, end, field}
use l0_worker.Requests.Inference.Printing.{given, print_optional, print_map}
use l0_worker.Event.Outbound.{
  FailureClass, timeout, rate_limited, context_length_exceeded, invalid_input, model_error,
  network_error, guardrail_violation, determinism_violation, aborted, unknown, ProgressStage,
  first_token, streaming, tool_invoked, checkpoint_written, TaskMetrics, OutboundEvent,
  worker_ready, worker_load, task_accepted, task_progress, task_completed, task_failed,
  worker_draining, worker_offline,
}

abbrev pub failure_name : FailureClass → String
failure_name timeout = "timeout"
failure_name rate_limited = "rate_limited"
failure_name context_length_exceeded = "context_length_exceeded"
failure_name invalid_input = "invalid_input"
failure_name model_error = "model_error"
failure_name network_error = "network_error"
failure_name guardrail_violation = "guardrail_violation"
failure_name determinism_violation = "determinism_violation"
failure_name aborted = "aborted"
failure_name unknown = "unknown"

abbrev pub stage_name : ProgressStage → String
stage_name first_token = "first_token"
stage_name streaming = "streaming"
stage_name tool_invoked = "tool_invoked"
stage_name checkpoint_written = "checkpoint_written"

abbrev pub count : ℕ → Json
count n = num (pos n)

abbrev pub metrics_json : TaskMetrics → Json
metrics_json m = obj (
    field "durationMs" (num m.duration_ms) (
      field "tokenCount" (count m.token_count) (
        given "promptTokens" (print_optional count m.prompt_tokens)
          (given "completionTokens" (print_optional count m.completion_tokens) end))))

unfoldable pub event_json : OutboundEvent → Json
unfolding given
event_json (worker_ready e) = obj (
    field "type" (str "WORKER_READY") (
      field "workerId" (str e.worker_id) (
        field "protocolVersion" (str e.protocol_version)
          (field "maxConcurrency" (num e.max_concurrency) (field "ts" (count e.ts) end)))))
event_json (worker_load e) = obj (
    field "type" (str "WORKER_LOAD") (
      field "workerId" (str e.worker_id) (
        field "inflightTasks" (count e.inflight_tasks) (
          field "queueDepth" (count e.queue_depth) (
            field "cpuPressure" (num e.cpu_pressure) (
              field "memoryPressure" (num e.memory_pressure) (
                given "gpuPressure" (print_optional num e.gpu_pressure)
                  (field "ts" (count e.ts) end))))))))
event_json (task_accepted e) = obj (
    field "type" (str "TASK_ACCEPTED") (
      field "taskId" (str e.task_id)
        (field "workerId" (str e.worker_id) (field "ts" (count e.ts) end))))
event_json (task_progress e) = obj (
    field "type" (str "TASK_PROGRESS") (
      field "taskId" (str e.task_id) (
        field "stage" (str (stage_name e.stage))
          (field "ts" (count e.ts) (given "metadata" (print_optional print_map e.metadata) end)))))
event_json (task_completed e) = obj (
    field "type" (str "TASK_COMPLETED") (
      field "taskId" (str e.task_id) (
        field "workerId" (str e.worker_id) (
          field "finalMetrics" (metrics_json e.final_metrics) (
            field "outputHash" (str e.output_hash)
              (field "output" (str e.output) (field "ts" (count e.ts) end)))))))
event_json (task_failed e) = obj (
    field "type" (str "TASK_FAILED") (
      field "taskId" (str e.task_id) (
        field "workerId" (str e.worker_id) (
          field "failureClass" (str (failure_name e.failure_class)) (
            field "retryable" (bool e.retryable)
              (given "message" (print_optional str e.message) (field "ts" (count e.ts) end)))))))
event_json (worker_draining e) = obj (
    field "type" (str "WORKER_DRAINING") (
      field "workerId" (str e.worker_id)
        (field "reason" (str e.reason) (field "ts" (count e.ts) end))))
event_json (worker_offline e) = obj (
    field "type" (str "WORKER_OFFLINE")
      (field "workerId" (str e.worker_id) (field "ts" (count e.ts) end)))
