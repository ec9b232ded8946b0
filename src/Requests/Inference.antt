-- ===== src/Requests/Inference.antt =====
-- src/inference/order.ts: the schemas of the inference order, each on the value of a property, which is
-- `none` if the property is absent.
pub mod Printing
pub mod RoundTrip
pub mod Admission
use l0_worker.Base.{
  String, Bool, true, false, Option, none, some, List, [], ◌∷◌, ◌==◌, or_else, if◌then◌else◌,
}
use l0_worker.Base.Int.{ℤ}
use l0_worker.Map.{Map}
use l0_worker.Json.{Json, Items, nil, cons, arr, obj, Fields, end, field, property}
use l0_worker.Order.{
  ModelSpec, ParallelMode, race, fanout, ParallelSpec, Backoff, fixed, linear, exponential,
  fixed_jitter, full_jitter, RetrySpec, FallbackWhen, on_error, on_timeout, on_output_violation,
  FallbackSpec, TimeoutSpec, GuardrailPreset, minimal, recommended, strict, json_only,
  markdown_only, latex_only, GuardrailSpec, JsonSchema, ToolSpec, ExecutionSpec, OutputSpec, text,
  tokens, json, InferenceOrder, positive, not_empty,
}
use l0_worker.Requests.{text_of, number_of, flag_of, maybe, provided, properties, ◌>>=◌}

-- z.object(…), before its properties
abbrev pub object : Option Json → Option Fields
object none = none
object (some j) = properties j

-- z.boolean()
abbrev pub boolean_of : Option Json → Option Bool
boolean_of none = none
boolean_of (some j) = flag_of j

-- z.enum(…), by the values of its texts
abbrev pub named {ℓ} : {A : Type ℓ} → (String → Option A) → Option Json → Option A
named choose j = text_of j >>= choose

-- z.number().positive()
unfoldable pub positive_of : Option Json → Option ℤ
unfolding number_of
positive_of j = do n ← number_of j; provided (positive n) n

abbrev pub entries : Fields → Map Json
entries end = []
entries (field k j fs) = (k, j) ∷ entries fs

-- z.record(z.string(), z.unknown())
unfoldable pub map_of : Option Json → Option (Map Json)
map_of (some (obj fs)) = some (entries fs)
map_of _ = none

abbrev both {ℓ} : {A : Type ℓ} → Option A → Option (List A) → Option (List A)
both (some a) (some xs) = some (a ∷ xs)
both _ _ = none

module _ {ℓ} {A : Type ℓ} (read : Option Json → Option A) where
  unfoldable pub each : Items → Option (List A)
  each nil = some []
  each (cons j js) = both (read (some j)) (each js)

  -- z.array(…)
  unfoldable pub array_of : Option Json → Option (List A)
  unfolding each
  array_of (some (arr js)) = each js
  array_of _ = none

unfoldable pub model_of : Option Json → Option ModelSpec
unfolding text_of map_of
model_of j = do
  fs ← object j
  provider ← text_of (property "provider" fs)
  model ← text_of (property "model" fs)
  params ← maybe map_of (property "params" fs)
  some (record { provider = provider; model = model; params = params })

unfoldable pub mode_named : String → Option ParallelMode
mode_named s = if s == "race" then some race else if s == "fanout" then some fanout else none

unfoldable pub parallel_of : Option Json → Option ParallelSpec
unfolding text_of mode_named positive_of
parallel_of j = do
  fs ← object j
  mode ← named mode_named (property "mode" fs)
  max ← maybe positive_of (property "max" fs)
  some (record { mode = mode; max = max })

unfoldable pub backoff_named : String → Option Backoff
backoff_named s =
    if s == "fixed"
    then some fixed
    else if s == "linear"
    then some linear
    else if s == "exponential"
    then some exponential
    else if s == "fixed-jitter"
    then some fixed_jitter
    else if s == "full-jitter"
    then some full_jitter
    else none

unfoldable pub retry_of : Option Json → Option RetrySpec
unfolding text_of backoff_named positive_of
retry_of j = do
  fs ← object j
  attempts ← positive_of (property "attempts" fs)
  max_retries ← positive_of (property "maxRetries" fs)
  backoff ← named backoff_named (property "backoff" fs)
  base_delay_ms ← maybe positive_of (property "baseDelayMs" fs)
  max_delay_ms ← maybe positive_of (property "maxDelayMs" fs)
  some (record {
    attempts = attempts;
    max_retries = max_retries;
    backoff = backoff;
    base_delay_ms = base_delay_ms;
    max_delay_ms = max_delay_ms;
  })

unfoldable pub when_named : String → Option FallbackWhen
when_named s =
    if s == "error"
    then some on_error
    else if s == "timeout"
    then some on_timeout
    else if s == "output_violation"
    then some on_output_violation
    else none

unfoldable pub fallback_of : Option Json → Option FallbackSpec
unfolding text_of when_named
fallback_of j = do
  fs ← object j
  when ← named when_named (property "when" fs)
  model ← model_of (property "model" fs)
  some (record { when = when; model = model })

unfoldable pub timeout_of : Option Json → Option TimeoutSpec
unfolding positive_of
timeout_of j = do
  fs ← object j
  initial_token_ms ← maybe positive_of (property "initialTokenMs" fs)
  inter_token_ms ← maybe positive_of (property "interTokenMs" fs)
  some (record { initial_token_ms = initial_token_ms; inter_token_ms = inter_token_ms })

unfoldable pub preset_named : String → Option GuardrailPreset
preset_named s =
    if s == "minimal"
    then some minimal
    else if s == "recommended"
    then some recommended
    else if s == "strict"
    then some strict
    else if s == "json-only"
    then some json_only
    else if s == "markdown-only"
    then some markdown_only
    else if s == "latex-only"
    then some latex_only
    else none

unfoldable pub guardrail_of : Option Json → Option GuardrailSpec
unfolding text_of preset_named positive_of
guardrail_of j = do
  fs ← object j
  preset ← maybe (named preset_named) (property "preset" fs)
  check_interval_ms ← maybe positive_of (property "checkIntervalMs" fs)
  some (record { preset = preset; check_interval_ms = check_interval_ms })

unfoldable pub tool_of : Option Json → Option ToolSpec
unfolding text_of
tool_of j = do
  fs ← object j
  name ← text_of (property "name" fs)
  description ← maybe text_of (property "description" fs)
  schema ← map_of (property "schema" fs)
  some (record { name = name; description = description; schema = schema })

unfoldable pub execution_of : Option Json → Option ExecutionSpec
execution_of j = do
  fs ← object j
  models ← array_of model_of (property "models" fs)
  parallel ← maybe parallel_of (property "parallel" fs)
  retry ← maybe retry_of (property "retry" fs)
  fallbacks ← maybe (array_of fallback_of) (property "fallbacks" fs)
  tools ← maybe (array_of tool_of) (property "tools" fs)
  timeout ← maybe timeout_of (property "timeout" fs)
  guardrails ← maybe guardrail_of (property "guardrails" fs)
  continued ← maybe boolean_of (property "continueFromLastKnownGoodToken" fs)
  provided (not_empty models) (record {
    models = models;
    parallel = parallel;
    retry = retry;
    fallbacks = fallbacks;
    tools = tools;
    timeout = timeout;
    guardrails = guardrails;
    continue_from_last_known_good_token = continued;
  })

-- JsonOutputSchema, after its kind; `.default(true)` stands in for an absent property
unfoldable pub json_output : Fields → Option OutputSpec
json_output fs = do
  schema ← map_of (property "schema" fs)
  is_strict ← maybe boolean_of (property "strict" fs)
  some (json schema (or_else is_strict true))

-- The union by the property "kind".
unfoldable pub output_kind : String → Fields → Option OutputSpec
unfolding json_output
output_kind kind fs =
    if kind == "text"
    then some text
    else if kind == "tokens"
    then some tokens
    else if kind == "json"
    then json_output fs
    else none

unfoldable pub output_of : Option Json → Option OutputSpec
unfolding output_kind text_of
output_of j = do fs ← object j; kind ← text_of (property "kind" fs); output_kind kind fs

unfoldable pub order_of : Option Json → Option InferenceOrder
order_of j = do
  fs ← object j
  execution ← execution_of (property "execution" fs)
  output ← output_of (property "output" fs)
  some (record { execution = execution; output = output })
