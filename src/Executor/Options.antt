-- ===== src/Executor/Options.antt =====
-- src/executor/executor.ts: the options for the L0 runtime.
pub mod Laws
mod Examples
use l0_worker.Base.{
  ℕ, String, Bool, true, false, ◌&&◌, not, Option, none, some, List, [], ◌∷◌, ◌==◌, if◌then◌else◌,
}
use l0_worker.Base.Int.{ℤ, pos, ltb_ℤ}
use l0_worker.Map
use l0_worker.Map.{Map}
use l0_worker.Json.{Json}
use l0_worker.Order.{
  RetrySpec, Backoff, GuardrailSpec, GuardrailPreset, minimal, recommended, strict, json_only,
  markdown_only, latex_only, TimeoutSpec, ToolSpec, ExecutionSpec, JsonSchema,
}

-- What mapRetrySpec returns.
pub record RetryOptions : Type 0 where
  pub attempts : ℤ
  pub max_retries : ℤ
  pub backoff : Backoff
  pub base_delay : Option ℤ
  pub max_delay : Option ℤ

unfoldable pub map_retry_spec : Option RetrySpec → Option RetryOptions
map_retry_spec none = none
map_retry_spec (some spec) = some (record {
  attempts = spec.attempts;
  max_retries = spec.max_retries;
  backoff = spec.backoff;
  base_delay = spec.base_delay_ms;
  max_delay = spec.max_delay_ms;
})

-- The rule lists that the runtime's package exports.
pub data RuleList : Type 0 where
  minimal_guardrails recommended_guardrails strict_guardrails : RuleList
  json_only_guardrails markdown_only_guardrails latex_only_guardrails : RuleList

-- presetMap
unfoldable pub preset_map : GuardrailPreset → RuleList
preset_map minimal = minimal_guardrails
preset_map recommended = recommended_guardrails
preset_map strict = strict_guardrails
preset_map json_only = json_only_guardrails
preset_map markdown_only = markdown_only_guardrails
preset_map latex_only = latex_only_guardrails

abbrev preset_rules : Option GuardrailPreset → Option RuleList
preset_rules none = none
preset_rules (some p) = some (preset_map p)

unfoldable pub map_guardrails : Option GuardrailSpec → Option RuleList
unfolding preset_map
map_guardrails none = none
map_guardrails (some spec) = preset_rules spec.preset

pub record TimeoutOptions : Type 0 where
  pub initial_token : Option ℤ
  pub inter_token : Option ℤ

-- The common options. `check_intervals` holds the one interval that the code sets, `on_event` says
-- that the runtime's events go to the callback of that name, and the signal is the caller's.
pub record L0Options : Type 0 where
  pub retry : Option RetryOptions
  pub meta : Option (Map Json)
  pub guardrails : Option RuleList
  pub check_intervals : Option ℤ
  pub timeout : Option TimeoutOptions
  pub signal : Bool
  pub continue_from_last_known_good_token : Bool

-- A number that is given and truthy.
abbrev pub truthy : Option ℤ → Option ℤ
truthy none = none
truthy (some n) = if not (ltb_ℤ n (pos 0)) && not (ltb_ℤ (pos 0) n) then none else some n

-- guardrails?.checkIntervalMs, if truthy, where there are guardrails
abbrev interval : Option RuleList → Option GuardrailSpec → Option ℤ
interval none spec = none
interval (some rules) none = none
interval (some rules) (some spec) = truthy spec.check_interval_ms

unfoldable pub map_timeout : Option TimeoutSpec → Option TimeoutOptions
map_timeout none = none
map_timeout (some t) =
    some (record { initial_token = t.initial_token_ms; inter_token = t.inter_token_ms })

abbrev is_true : Option Bool → Bool
is_true none = false
is_true (some b) = b

-- buildCommonL0Options, with or without an abort signal
unfoldable pub build_common_l0_options : ExecutionSpec → Option (Map Json) → Bool → L0Options
unfolding map_retry_spec map_guardrails map_timeout
build_common_l0_options execution meta signal = record {
  retry = map_retry_spec execution.retry;
  meta = meta;
  guardrails = map_guardrails execution.guardrails;
  check_intervals = interval (map_guardrails execution.guardrails) execution.guardrails;
  timeout = map_timeout execution.timeout;
  signal = signal;
  continue_from_last_known_good_token = is_true execution.continue_from_last_known_good_token;
}

-- An AI SDK tool definition.
pub record ToolDefinition : Type 0 where
  pub description : Option String
  pub input_schema : JsonSchema

-- The loop of buildTools: a later tool of the same name takes an earlier one's place.
unfoldable pub add_tools : List ToolSpec → Map ToolDefinition → Map ToolDefinition
add_tools [] tools = tools
add_tools (t ∷ ts) tools =
    add_tools ts
      (Map.set t.name (record { description = t.description; input_schema = t.schema }) tools)

unfoldable pub build_tools : ExecutionSpec → Option (Map ToolDefinition)
unfolding add_tools
build_tools execution = elim execution.tools [
  | none ↦ none
  | some [] ↦ none
  | some (t ∷ ts) ↦ some (add_tools (t ∷ ts) [])
]
