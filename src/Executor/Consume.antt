-- ===== src/Executor/Consume.antt =====
-- src/executor/executor.ts: results, callbacks, and the loop that consumes a token stream. Calls of
-- the callbacks are recorded in order.
pub mod Tokens
use Prim.Native.String
use l0_worker.Base.{
  ℕ, suc, ◌+◌, String, Bool, true, false, ◌&&◌, not, Option, none, some, List, [], ◌∷◌, ◌++◌, map,
  ◌==◌, if◌then◌else◌, or_else,
}
use l0_worker.Base.Int.{ℤ}
use l0_worker.Map
use l0_worker.Map.{Map}
use l0_worker.Json.{Json, str, arr, Items, nil, cons}
use l0_worker.Thrown.{Thrown, error, output_validation, value, Result, ok, err, ◌>>=◌}
use l0_worker.Order.{
  ModelSpec, ParallelSpec, race, fanout, FallbackSpec, ExecutionSpec, OutputSpec, text, tokens,
  json, JsonSchema, InferenceOrder,
}
use l0_worker.Payload.{TaskPayload, Message, build_messages}
use l0_worker.Executor.Options.{ToolDefinition, L0Options, build_common_l0_options, build_tools}
use l0_worker.Executor.Streams.{
  Stream, build_text_stream, build_structured_stream, primary_structured_stream,
}
use l0_worker.Executor.Runtime.{
  L0Event, StreamEvent, L0State, StreamOptions, Occurrence, emitted, streamed, L0Run, RaceRun,
  ParallelRun, Runtime,
}

-- The arguments of a tool call as the code records them: the call's id.
pub record ToolCall : Type 0 where
  pub name : String
  pub tool_call_id : String

pub record ExecutionResult : Type 0 where
  pub content : String
  pub token_count : ℕ
  pub input_tokens : ℕ
  pub output_tokens : ℕ
  pub model_used : Option ModelSpec
  pub validated_output : Option Json
  pub tool_calls : Option (List ToolCall)
  pub resumed : Bool

-- A call of one of the ExecutionCallbacks.
pub data Callback : Type 0 where
  on_first_token : Callback
  on_token : String → Callback
  on_l0_event : L0Event → Callback
  on_tool_call : String → Json → Callback

pub record Execution : Type 0 where
  pub calls : List Callback
  pub outcome : Result ExecutionResult

abbrev pub failed : Thrown → Execution
failed e = record { calls = []; outcome = err e }

-- The variables of the loop that consumes a stream.
pub record Consumed : Type 0 where
  pub first_token_emitted : Bool
  pub content : String
  pub token_count : ℕ
  pub calls : List Callback

-- event.type === "token" && event.value
abbrev pub token_of : StreamEvent → Option String
token_of e = elim e.value [
  | none ↦ none
  | some v ↦ if (e.type == "token") && not (v == "") then some v else none
]

abbrev take_token : String → Consumed → Consumed
take_token v c =
    let first = if c.first_token_emitted then [] else on_first_token ∷ [] in
    record {
      first_token_emitted = true;
      content = String.◌++◌ c.content v;
      token_count = c.token_count + 1;
      calls = c.calls ++ (first ++ on_token v ∷ []);
    }

abbrev maybe_take : Option String → Consumed → Consumed
maybe_take none c = c
maybe_take (some v) c = take_token v c

unfoldable pub consume_one : Occurrence → Consumed → Consumed
consume_one (emitted e) c = record c { calls = c.calls ++ on_l0_event e ∷ [] }
consume_one (streamed e) c = maybe_take (token_of e) c

-- The loop `for await (const event of result.stream)`, with the runtime's events between.
unfoldable pub consume : List Occurrence → Consumed → Consumed
unfolding consume_one
consume [] c = c
consume (o ∷ os) c = consume os (consume_one o c)

abbrev pub at_start : Consumed
at_start = record { first_token_emitted = false; content = ""; token_count = 0; calls = [] }

-- Tool calls from the state's names, in the order of the map.
unfoldable pub collect_tool_calls : Option (Map String) → List ToolCall
collect_tool_calls none = []
collect_tool_calls (some names) = map (λ e. record { name = e.1; tool_call_id = e.0 }) names

abbrev pub unless_empty {ℓ} : {A : Type ℓ} → List A → Option (List A)
unless_empty [] = none
unless_empty (x ∷ xs) = some (x ∷ xs)
