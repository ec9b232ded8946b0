-- ===== src/Executor/Examples.antt =====
-- Runs of executor/executor.ts.
use l0_worker.Base.{
  true, false, Option, none, some, List, [], ◌∷◌, All, map, length, ◌≡◌, refl, ◌==◌, if◌then◌else◌,
}
use l0_worker.Json.{Json, str, arr}
use l0_worker.Thrown.{ok}
use l0_worker.Order.{ModelSpec, ExecutionSpec, InferenceOrder, text, fanout}
use l0_worker.Payload.{TaskPayload}
use l0_worker.Executor.Runtime.{Runtime, StreamOptions, L0State}
use l0_worker.Executor.Sample.{gpt, execution, state, occurrences, runtime}
use l0_worker.Executor.Consume.{ExecutionResult, consume, consume_one, at_start, collect_tool_calls}
use l0_worker.Executor.Consume.Tokens.{concat, heard_tokens, first_calls, first_count, announced}
use l0_worker.Executor.Single.{
  execute_text, text_result, execute_structured, structured_result, validated,
}
use l0_worker.Executor.Single.Outcomes.{text_outcome, structured_outcome, ComesFrom}
use l0_worker.Executor.Parallel.{execute_parallel, strings, operations, parallel_stream}
use l0_worker.Executor.Streams.{build_text_stream}
use l0_worker.Executor.Parallel.Totalling.{
  fanout_totals, content_of, tokens_of, input_of, output_of, total, InOrder, asked, EndsFor,
}
use l0_worker.Executor.Execute.{execute_order}
use l0_worker.Executor.Execute.Calls.{order_calls_no_tool, IsNoToolCall}

two_tokens : (consume occurrences at_start).content ≡ "Hello"
unfolding consume consume_one
two_tokens = refl

abbrev result : ExecutionResult
result = record {
  content = "Hello";
  token_count = 2;
  input_tokens = 5;
  output_tokens = 2;
  model_used = some gpt;
  validated_output = none;
  tool_calls = none;
  resumed = false;
}

text_run : (execute_text runtime gpt execution [] none true).outcome ≡ ok result
unfolding execute_text text_result collect_tool_calls consume consume_one
text_run = refl

text_outcome_example :
    let x = execute_text runtime gpt execution [] none true in
    ("Hello" ≡ concat "" (heard_tokens x.calls))
    × (2 ≡ length (heard_tokens x.calls))
    × (first_calls x.calls ≡ first_count (heard_tokens x.calls))
    × (announced false x.calls ≡ true)
    × (some gpt ≡ some gpt)
text_outcome_example = text_outcome runtime gpt execution [] none true result text_run

abbrev object_result : ExecutionResult
object_result = record result { content = "[]"; validated_output = some (str "Hello") }

structured_run :
    (execute_structured runtime gpt execution [] [] none true).outcome ≡ ok object_result
unfolding execute_structured structured_result validated consume consume_one
structured_run = refl

structured_outcome_example :
    let x = execute_structured runtime gpt execution [] [] none true in
    ((j : Json) × ComesFrom runtime (some (ok (str "Hello"))) (concat "" (heard_tokens x.calls)) j
      × (some (str "Hello") ≡ some j)
      × ("[]" ≡ runtime.json_stringify j))
    × (2 ≡ length (heard_tokens x.calls))
    × (first_calls x.calls ≡ first_count (heard_tokens x.calls))
    × (announced false x.calls ≡ true)
structured_outcome_example =
    structured_outcome runtime gpt execution [] [] none true object_result structured_run

abbrev mini : ModelSpec
mini = record { provider = "openai"; model = "gpt-4o-mini"; params = none }

abbrev two_models : ExecutionSpec
two_models = record execution { models = gpt ∷ mini ∷ [] }

-- A runtime in which the first model has a state and the other has none.
abbrev answer : StreamOptions → Option L0State
answer op = if (asked op.stream).0.model == "gpt-4o" then some state else none

abbrev answering : Runtime
answering = record runtime {
  parallel = λ ops limit. record { events = []; outcome = ok (map answer ops) };
}

abbrev Ends : StreamOptions → Option L0State → Type 0
Ends op s = s ≡ answer op

abbrev states : List (Option L0State)
states = some state ∷ none ∷ []

fanout_totals_example :
    (r : ExecutionResult) × ((execute_parallel answering
        (record { mode = fanout; max = none })
        two_models
        []
        text
        none
        true).outcome
      ≡ ok r)
    × InOrder (EndsFor answering two_models [] text none true Ends) (gpt ∷ mini ∷ []) states
    × (r.content ≡ answering.json_stringify (arr (strings (map content_of states))))
    × (r.token_count ≡ total tokens_of states)
    × (r.input_tokens ≡ total input_of states)
    × (r.output_tokens ≡ total output_of states)
unfolding operations parallel_stream build_text_stream
fanout_totals_example =
    fanout_totals answering two_models [] text none true Ends none states refl (refl, (refl, tt))

abbrev order : InferenceOrder
order = record { execution = execution; output = text }

abbrev payload : TaskPayload
payload = record { prompt = some "Hi"; messages = none }

order_calls_no_tool_example :
    All IsNoToolCall (execute_order runtime order payload none "w1" true).calls
order_calls_no_tool_example = order_calls_no_tool runtime order payload none "w1" true
