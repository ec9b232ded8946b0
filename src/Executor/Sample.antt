-- ===== src/Executor/Sample.antt =====
-- A runtime for runs of executor/executor.ts: two tokens of a text, with an event of its own between them.
use l0_worker.Base.{String, none, some, List, [], ◌∷◌, false}
use l0_worker.Json.{str}
use l0_worker.Thrown.{ok, err, new_error}
use l0_worker.Order.{ModelSpec, ExecutionSpec}
use l0_worker.Executor.Runtime.{Runtime, L0State, Occurrence, emitted, streamed}

abbrev pub gpt : ModelSpec
gpt = record { provider = "openai"; model = "gpt-4o"; params = none }

abbrev pub execution : ExecutionSpec
execution = record {
  models = gpt ∷ [];
  parallel = none;
  retry = none;
  fallbacks = none;
  tools = none;
  timeout = none;
  guardrails = none;
  continue_from_last_known_good_token = none;
}

abbrev pub state : L0State
state = record {
  content = some "Hello";
  token_count = some 2;
  input_tokens = some 5;
  output_tokens = none;
  tool_call_names = none;
  resumed = false;
}

abbrev token : String → Occurrence
token text = streamed (record { type = "token"; value = some text })

abbrev pub occurrences : List Occurrence
occurrences =
    token "Hel" ∷ emitted (record { type = "checkpoint"; ts = 3; fields = [] }) ∷ token "lo" ∷ []

abbrev pub runtime : Runtime
runtime = record {
  l0 = λ options. record {
    occurrences = occurrences;
    outcome = ok state;
    object = some (ok (str "Hello"));
  };
  race = λ options. record { events = []; outcome = ok (state, 0) };
  parallel = λ options limit. record { events = []; outcome = ok (some state ∷ none ∷ []) };
  json_stringify = λ j. "[]";
  json_parse = λ text. err (new_error text);
}
