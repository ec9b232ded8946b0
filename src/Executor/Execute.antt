-- ===== src/Executor/Execute.antt =====
-- src/executor/executor.ts: executeOrder.
pub mod Calls
use Prim.Native.String
use l0_worker.Base.{
  ℕ, suc, ◌+◌, String, Bool, true, false, ◌&&◌, not, Option, none, some, List, [], ◌∷◌, ◌++◌, map,
  ◌==◌, if◌then◌else◌, or_else,
}
use l0_worker.Base.Int.{ℤ}
use l0_worker.Map
use l0_worker.Map.{Map}
use l0_worker.Json.{Json, str, arr, Items, nil, cons}
use l0_worker.Thrown.{Thrown, error, output_validation, value, Result, ok, err, ◌>>=◌}
use l0_worker.Order.{
  ModelSpec, ParallelSpec, race, fanout, FallbackSpec, ExecutionSpec, OutputSpec, text, tokens,
  json, JsonSchema, InferenceOrder,
}
use l0_worker.Payload.{TaskPayload, Message, build_messages}
use l0_worker.Executor.Options.{ToolDefinition, L0Options, build_common_l0_options, build_tools}
use l0_worker.Executor.Streams.{
  Stream, build_text_stream, build_structured_stream, primary_structured_stream,
}
use l0_worker.Executor.Runtime.{
  L0Event, StreamEvent, L0State, StreamOptions, Occurrence, emitted, streamed, L0Run, RaceRun,
  ParallelRun, Runtime,
}
use l0_worker.Executor.Consume.{
  ToolCall, ExecutionResult, Callback, on_first_token, on_token, on_l0_event, on_tool_call,
  Execution, failed, Consumed, consume, at_start, collect_tool_calls, unless_empty,
}
use l0_worker.Executor.Single.{first_model, execute_text, execute_structured}
use l0_worker.Executor.Parallel.{execute_parallel}

-- The way that an order's output asks for, without a parallel specification.
unfoldable pub execute_single :
    Runtime
    → OutputSpec
    → ModelSpec
    → ExecutionSpec
    → List Message
    → Option (Map Json)
    → Bool
    → Execution
unfolding execute_text execute_structured
execute_single runtime (json schema strict) model execution messages meta signal =
    execute_structured runtime model execution messages schema meta signal
execute_single runtime text model execution messages meta signal =
    execute_text runtime model execution messages meta signal
execute_single runtime tokens model execution messages meta signal =
    execute_text runtime model execution messages meta signal

-- { ...meta, workerId }
unfoldable pub with_worker_id : Option (Map Json) → String → Map Json
with_worker_id none worker_id = Map.set "workerId" (str worker_id) []
with_worker_id (some meta) worker_id = Map.set "workerId" (str worker_id) meta

-- executeOrder(order, payload, { callbacks, meta, workerId, signal })
unfoldable pub execute_order :
    Runtime → InferenceOrder → TaskPayload → Option (Map Json) → String → Bool → Execution
unfolding execute_single execute_parallel first_model with_worker_id
execute_order runtime order payload meta worker_id signal =
    let execution = order.execution in
    let l0_meta = some (with_worker_id meta worker_id) in
    elim (build_messages payload) [
      | err e ↦ failed e
      | ok messages ↦ elim execution.parallel [
        | some spec ↦ execute_parallel runtime spec execution messages order.output l0_meta signal
        | none ↦ elim (first_model execution.models) [
          | err e ↦ failed e
          | ok model ↦ execute_single runtime order.output model execution messages l0_meta signal
        ]
      ]
    ]
