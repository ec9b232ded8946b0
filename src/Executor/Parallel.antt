-- ===== src/Executor/Parallel.antt =====
-- src/executor/executor.ts: parallel execution, as a race or a fanout. The runtime is `runtime`.
pub mod Totalling
use Prim.Native.String
use l0_worker.Base.{
  zero, ℕ, suc, ◌+◌, String, Bool, true, false, ◌&&◌, not, Option, none, some, List, [], ◌∷◌, ◌++◌,
  map, ◌==◌, if◌then◌else◌, or_else,
}
use l0_worker.Base.Int.{ℤ}
use l0_worker.Map
use l0_worker.Map.{Map}
use l0_worker.Json.{Json, str, arr, Items, nil, cons}
use l0_worker.Thrown.{Thrown, error, output_validation, value, Result, ok, err, ◌>>=◌}
use l0_worker.Order.{
  ModelSpec, ParallelSpec, race, fanout, FallbackSpec, ExecutionSpec, OutputSpec, text, tokens,
  json, JsonSchema, InferenceOrder,
}
use l0_worker.Payload.{TaskPayload, Message, build_messages}
use l0_worker.Executor.Options.{ToolDefinition, L0Options, build_common_l0_options, build_tools}
use l0_worker.Executor.Streams.{
  Stream, build_text_stream, build_structured_stream, primary_structured_stream,
}
use l0_worker.Executor.Runtime.{
  L0Event, StreamEvent, L0State, StreamOptions, Occurrence, emitted, streamed, L0Run, RaceRun,
  ParallelRun, Runtime,
}
use l0_worker.Executor.Consume.{
  ToolCall, ExecutionResult, Callback, on_first_token, on_token, on_l0_event, on_tool_call,
  Execution, failed, Consumed, consume, at_start, collect_tool_calls, unless_empty,
}

-- The stream of one model in a parallel execution.
unfoldable pub parallel_stream :
    OutputSpec → List Message → Option (Map ToolDefinition) → ModelSpec → Stream
parallel_stream (json schema strict) messages tools model =
    build_structured_stream model messages schema
parallel_stream text messages tools model = build_text_stream model messages tools
parallel_stream tokens messages tools model = build_text_stream model messages tools

unfoldable pub operations :
    ExecutionSpec → List Message → OutputSpec → Option (Map Json) → Bool → List StreamOptions
unfolding parallel_stream
operations execution messages output meta signal =
    map
      (λ m. record {
        stream = parallel_stream output messages (build_tools execution) m;
        fallback_streams = none;
        common = build_common_l0_options execution meta signal;
      })
      execution.models

-- execution.models[index] ?? execution.models[0]
unfoldable pub model_at : ℕ → List ModelSpec → Option ModelSpec
model_at i [] = none
model_at zero (m ∷ ms) = some m
model_at (suc i) (m ∷ ms) = model_at i ms

-- The sums over the results of a fanout, and the contents in order.
pub record Totals : Type 0 where
  pub outputs : List String
  pub total_tokens : ℕ
  pub total_input : ℕ
  pub total_output : ℕ

abbrev pub no_totals : Totals
no_totals = record { outputs = []; total_tokens = 0; total_input = 0; total_output = 0 }

abbrev pub add_result : Option L0State → Totals → Totals
add_result none t = record t { outputs = t.outputs ++ "" ∷ [] }
add_result (some s) t =
    let count = or_else s.token_count 0 in
    record {
      outputs = t.outputs ++ or_else s.content "" ∷ [];
      total_tokens = t.total_tokens + count;
      total_input = t.total_input + or_else s.input_tokens 0;
      total_output = t.total_output + or_else s.output_tokens count;
    }

-- The loop over `parallelResult.results`.
unfoldable pub sum_results : List (Option L0State) → Totals → Totals
sum_results [] t = t
sum_results (r ∷ rs) t = sum_results rs (add_result r t)

-- An array of strings, as a JSON value.
unfoldable pub strings : List String → Items
strings [] = nil
strings (s ∷ ss) = cons (str s) (strings ss)

abbrev l0_calls : List L0Event → List Callback
l0_calls es = map on_l0_event es

unfoldable pub race_result : ExecutionSpec → L0State × ℕ → ExecutionResult
unfolding model_at
race_result execution (state, winner) =
    let count = or_else state.token_count 0 in
    record {
      content = or_else state.content "";
      token_count = count;
      input_tokens = or_else state.input_tokens 0;
      output_tokens = or_else state.output_tokens count;
      model_used = elim (model_at winner execution.models) [
        | some m ↦ some m
        | none ↦ model_at 0 execution.models
      ];
      validated_output = none;
      tool_calls = none;
      resumed = state.resumed;
    }

-- The call of onFirstToken after a race that has content.
abbrev pub race_calls : Result (L0State × ℕ) → List Callback
race_calls (err e) = []
race_calls (ok (state, winner)) = if or_else state.content "" == "" then [] else on_first_token ∷ []

module _ (runtime : Runtime) where
  unfoldable pub fanout_result : ExecutionSpec → List (Option L0State) → ExecutionResult
  unfolding sum_results strings model_at
  fanout_result execution results =
      let t = sum_results results no_totals in
      record {
        content = runtime.json_stringify (arr (strings t.outputs));
        token_count = t.total_tokens;
        input_tokens = t.total_input;
        output_tokens = t.total_output;
        model_used = model_at 0 execution.models;
        validated_output = none;
        tool_calls = none;
        resumed = false;
      }

  unfoldable pub execute_parallel :
      ParallelSpec
      → ExecutionSpec
      → List Message
      → OutputSpec
      → Option (Map Json)
      → Bool
      → Execution
  unfolding operations race_result fanout_result
  execute_parallel spec execution messages output meta signal =
      let ops = operations execution messages output meta signal in
      elim spec.mode [
        | race ↦
            let run = runtime.race ops in
            record {
              calls = l0_calls run.events ++ race_calls run.outcome;
              outcome = run.outcome >>= λ r. ok (race_result execution r);
            }
        | fanout ↦
            let run = runtime.parallel ops spec.max in
            record {
              calls = l0_calls run.events;
              outcome = run.outcome >>= λ rs. ok (fanout_result execution rs);
            }
      ]
