-- ===== src/Executor/Single.antt =====
-- src/executor/executor.ts: text and structured execution. The runtime is `runtime`.
pub mod Outcomes
use Prim.Native.String
use l0_worker.Base.{
  ℕ, suc, ◌+◌, String, Bool, true, false, ◌&&◌, not, Option, none, some, List, [], ◌∷◌, ◌++◌, map,
  ◌==◌, if◌then◌else◌, or_else,
}
use l0_worker.Base.Int.{ℤ}
use l0_worker.Map
use l0_worker.Map.{Map}
use l0_worker.Json.{Json, str, arr, Items, nil, cons}
use l0_worker.Thrown.{Thrown, error, output_validation, value, Result, ok, err, ◌>>=◌}
use l0_worker.Order.{
  ModelSpec, ParallelSpec, race, fanout, FallbackSpec, ExecutionSpec, OutputSpec, text, tokens,
  json, JsonSchema, InferenceOrder,
}
use l0_worker.Payload.{TaskPayload, Message, build_messages}
use l0_worker.Executor.Options.{ToolDefinition, L0Options, build_common_l0_options, build_tools}
use l0_worker.Executor.Streams.{
  Stream, build_text_stream, build_structured_stream, primary_structured_stream,
}
use l0_worker.Executor.Runtime.{
  L0Event, StreamEvent, L0State, StreamOptions, Occurrence, emitted, streamed, L0Run, RaceRun,
  ParallelRun, Runtime,
}
use l0_worker.Executor.Consume.{
  ToolCall, ExecutionResult, Callback, on_first_token, on_token, on_l0_event, on_tool_call,
  Execution, failed, Consumed, consume, at_start, collect_tool_calls, unless_empty,
}

-- execution.models[0]: reading the parameters of a model that is not there throws.
unfoldable pub first_model : List ModelSpec → Result ModelSpec
first_model [] = err (error "TypeError" "Cannot read properties of undefined (reading 'params')")
first_model (m ∷ ms) = ok m

unfoldable pub text_result : ModelSpec → Consumed → L0State → ExecutionResult
unfolding collect_tool_calls
text_result model c state = record {
  content = c.content;
  token_count = c.token_count;
  input_tokens = or_else state.input_tokens 0;
  output_tokens = or_else state.output_tokens c.token_count;
  model_used = some model;
  validated_output = none;
  tool_calls = unless_empty (collect_tool_calls state.tool_call_names);
  resumed = state.resumed;
}

-- parseError instanceof Error ? parseError.message : "Invalid JSON"
unfoldable pub parse_reason : Thrown → String
parse_reason (error name message) = message
parse_reason (output_validation reason) = String.◌++◌ "Output validation failed: " reason
parse_reason (value t) = "Invalid JSON"

-- The argument of `l0` for a text.
unfoldable pub text_options :
    ModelSpec → ExecutionSpec → List Message → Option (Map Json) → Bool → StreamOptions
text_options model execution messages meta signal =
    let tools = build_tools execution in
    record {
      stream = build_text_stream model messages tools;
      fallback_streams = elim execution.fallbacks [
        | none ↦ none
        | some fbs ↦
            some (map (λ (fb : FallbackSpec). build_text_stream fb.model messages tools) fbs)
      ];
      common = build_common_l0_options execution meta signal;
    }

-- The argument of `l0` for a structured output.
unfoldable pub structured_options :
    ModelSpec → ExecutionSpec → List Message → JsonSchema → Option (Map Json) → Bool → StreamOptions
structured_options model execution messages schema meta signal = record {
  stream = primary_structured_stream model messages schema;
  fallback_streams = elim execution.fallbacks [
    | none ↦ none
    | some fbs ↦
        some (map (λ (fb : FallbackSpec). build_structured_stream fb.model messages schema) fbs)
  ];
  common = build_common_l0_options execution meta signal;
}

module _ (runtime : Runtime) where
  unfoldable pub execute_text :
      ModelSpec → ExecutionSpec → List Message → Option (Map Json) → Bool → Execution
  unfolding text_options text_result consume
  execute_text model execution messages meta signal =
      let run = runtime.l0 (text_options model execution messages meta signal) in
      let c = consume run.occurrences at_start in
      record { calls = c.calls; outcome = run.outcome >>= λ state. ok (text_result model c state) }

  -- JSON.parse(content), with the error that the code makes of its error
  unfoldable pub parse_content : String → Result Json
  unfolding parse_reason
  parse_content content = elim (runtime.json_parse content) [
    | ok j ↦ ok j
    | err e ↦
        err (output_validation (String.◌++◌ "Failed to parse structured output: " (parse_reason e)))
  ]

  unfoldable pub validated : Option (Result Json) → String → Result Json
  unfolding parse_content
  validated (some (ok j)) content = ok j
  validated (some (err e)) content = parse_content content
  validated none content = parse_content content

  unfoldable pub structured_result : ModelSpec → Consumed → L0State → Json → ExecutionResult
  structured_result model c state j = record {
    content = runtime.json_stringify j;
    token_count = c.token_count;
    input_tokens = or_else state.input_tokens 0;
    output_tokens = or_else state.output_tokens c.token_count;
    model_used = some model;
    validated_output = some j;
    tool_calls = none;
    resumed = state.resumed;
  }

  unfoldable pub execute_structured :
      ModelSpec → ExecutionSpec → List Message → JsonSchema → Option (Map Json) → Bool → Execution
  unfolding structured_options structured_result validated consume
  execute_structured model execution messages schema meta signal =
      let run = runtime.l0 (structured_options model execution messages schema meta signal) in
      let c = consume run.occurrences at_start in
      record {
        calls = c.calls;
        outcome = do
          state ← run.outcome
          j ← validated run.object c.content
          ok (structured_result model c state j);
      }
