-- ===== src/Requests/Inference/Printing.antt =====
-- The JSON that an inference order of src/inference/order.ts is: what a client sends for it.
use l0_worker.Base.{String, Option, none, some, List, [], ◌∷◌}
use l0_worker.Map.{Map}
use l0_worker.Json.{Json, bool, num, str, arr, obj, Items, nil, cons, Fields, end, field}
use l0_worker.Order.{
  ModelSpec, ParallelMode, race, fanout, ParallelSpec, Backoff, fixed, linear, exponential,
  fixed_jitter, full_jitter, RetrySpec, FallbackWhen, on_error, on_timeout, on_output_violation,
  FallbackSpec, TimeoutSpec, GuardrailPreset, minimal, recommended, strict, json_only,
  markdown_only, latex_only, GuardrailSpec, ToolSpec, ExecutionSpec, OutputSpec, text, tokens, json,
  InferenceOrder,
}

-- A property that is there only if it has a value.
unfoldable pub given : String → Option Json → Fields → Fields
given k none fs = fs
given k (some j) fs = field k j fs

module _ {ℓ} {A : Type ℓ} (print : A → Json) where
  abbrev pub print_optional : Option A → Option Json
  print_optional none = none
  print_optional (some a) = some (print a)

  abbrev pub print_items : List A → Items
  print_items [] = nil
  print_items (x ∷ xs) = cons (print x) (print_items xs)

  abbrev pub print_array : List A → Json
  print_array xs = arr (print_items xs)

abbrev pub print_entries : Map Json → Fields
print_entries [] = end
print_entries ((k, j) ∷ m) = field k j (print_entries m)

abbrev pub print_map : Map Json → Json
print_map m = obj (print_entries m)

abbrev pub model_json : ModelSpec → Json
model_json s = obj (
    field "provider" (str s.provider)
      (field "model" (str s.model) (given "params" (print_optional print_map s.params) end)))

abbrev pub mode_name : ParallelMode → String
mode_name race = "race"
mode_name fanout = "fanout"

abbrev pub parallel_json : ParallelSpec → Json
parallel_json s =
    obj (field "mode" (str (mode_name s.mode)) (given "max" (print_optional num s.max) end))

abbrev pub backoff_name : Backoff → String
backoff_name fixed = "fixed"
backoff_name linear = "linear"
backoff_name exponential = "exponential"
backoff_name fixed_jitter = "fixed-jitter"
backoff_name full_jitter = "full-jitter"

abbrev pub retry_json : RetrySpec → Json
retry_json s = obj (
    field "attempts" (num s.attempts) (
      field "maxRetries" (num s.max_retries) (
        field "backoff" (str (backoff_name s.backoff)) (
          given "baseDelayMs" (print_optional num s.base_delay_ms)
            (given "maxDelayMs" (print_optional num s.max_delay_ms) end)))))

abbrev pub when_name : FallbackWhen → String
when_name on_error = "error"
when_name on_timeout = "timeout"
when_name on_output_violation = "output_violation"

abbrev pub fallback_json : FallbackSpec → Json
fallback_json s =
    obj (field "when" (str (when_name s.when)) (field "model" (model_json s.model) end))

abbrev pub timeout_json : TimeoutSpec → Json
timeout_json s = obj (
    given "initialTokenMs" (print_optional num s.initial_token_ms)
      (given "interTokenMs" (print_optional num s.inter_token_ms) end))

abbrev pub preset_json : GuardrailPreset → Json
preset_json minimal = str "minimal"
preset_json recommended = str "recommended"
preset_json strict = str "strict"
preset_json json_only = str "json-only"
preset_json markdown_only = str "markdown-only"
preset_json latex_only = str "latex-only"

abbrev pub guardrail_json : GuardrailSpec → Json
guardrail_json s = obj (
    given "preset" (print_optional preset_json s.preset)
      (given "checkIntervalMs" (print_optional num s.check_interval_ms) end))

abbrev pub tool_json : ToolSpec → Json
tool_json s = obj (
    field "name" (str s.name) (
      given "description" (print_optional str s.description)
        (field "schema" (print_map s.schema) end)))

abbrev pub execution_json : ExecutionSpec → Json
execution_json s = obj (
    field "models" (print_array model_json s.models) (
      given "parallel" (print_optional parallel_json s.parallel) (
        given "retry" (print_optional retry_json s.retry) (
          given "fallbacks" (print_optional (print_array fallback_json) s.fallbacks) (
            given "tools" (print_optional (print_array tool_json) s.tools) (
              given "timeout" (print_optional timeout_json s.timeout) (
                given "guardrails" (print_optional guardrail_json s.guardrails) (
                  given "continueFromLastKnownGoodToken"
                    (print_optional bool s.continue_from_last_known_good_token) end))))))))

abbrev pub output_json : OutputSpec → Json
output_json text = obj (field "kind" (str "text") end)
output_json tokens = obj (field "kind" (str "tokens") end)
output_json (json schema is_strict) = obj (
    field "kind" (str "json")
      (field "schema" (print_map schema) (field "strict" (bool is_strict) end)))

abbrev pub order_json : InferenceOrder → Json
order_json o =
    obj (field "execution" (execution_json o.execution) (field "output" (output_json o.output) end))
