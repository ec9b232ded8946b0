-- ===== src/Order.antt =====
-- src/inference/order.ts: the inference order. A record or data type is what a schema infers; the
-- Boolean tests named `admits` are the checks that a schema makes on a value of that shape
-- (`positive`, `min`), and the ones that nothing restricts have none. Numbers are the integers.
use l0_worker.Base.{String, Bool, true, false, ◌&&◌, Option, none, some, List, [], ◌∷◌}
use l0_worker.Base.Int.{ℤ, pos, ltb_ℤ}
use l0_worker.Map.{Map}
use l0_worker.Json.{Json}

pub record ModelSpec : Type 0 where
  pub provider : String
  pub model : String
  pub params : Option (Map Json)

pub data ParallelMode : Type 0 where
  race fanout : ParallelMode

pub record ParallelSpec : Type 0 where
  pub mode : ParallelMode
  pub max : Option ℤ

pub data Backoff : Type 0 where
  fixed linear exponential fixed_jitter full_jitter : Backoff

pub record RetrySpec : Type 0 where
  pub attempts : ℤ
  pub max_retries : ℤ
  pub backoff : Backoff
  pub base_delay_ms : Option ℤ
  pub max_delay_ms : Option ℤ

pub data FallbackWhen : Type 0 where
  on_error on_timeout on_output_violation : FallbackWhen

pub record FallbackSpec : Type 0 where
  pub when : FallbackWhen
  pub model : ModelSpec

pub record TimeoutSpec : Type 0 where
  pub initial_token_ms : Option ℤ
  pub inter_token_ms : Option ℤ

pub data GuardrailPreset : Type 0 where
  minimal recommended strict json_only markdown_only latex_only : GuardrailPreset

pub record GuardrailSpec : Type 0 where
  pub preset : Option GuardrailPreset
  pub check_interval_ms : Option ℤ

abbrev pub JsonSchema : Type 0
JsonSchema = Map Json

pub record ToolSpec : Type 0 where
  pub name : String
  pub description : Option String
  pub schema : JsonSchema

pub record ExecutionSpec : Type 0 where
  pub models : List ModelSpec
  pub parallel : Option ParallelSpec
  pub retry : Option RetrySpec
  pub fallbacks : Option (List FallbackSpec)
  pub tools : Option (List ToolSpec)
  pub timeout : Option TimeoutSpec
  pub guardrails : Option GuardrailSpec
  pub continue_from_last_known_good_token : Option Bool

pub data OutputSpec : Type 0 where
  text : OutputSpec
  tokens : OutputSpec
  json : JsonSchema → Bool → OutputSpec

pub record InferenceOrder : Type 0 where
  pub execution : ExecutionSpec
  pub output : OutputSpec

-- z.number().positive()
abbrev pub positive : ℤ → Bool
positive n = ltb_ℤ (pos 0) n

-- `.optional()` over a check
abbrev pub optional {ℓ} : {A : Type ℓ} → (A → Bool) → Option A → Bool
optional check none = true
optional check (some a) = check a

abbrev pub parallel_admits : ParallelSpec → Bool
parallel_admits p = optional positive p.max

abbrev pub retry_admits : RetrySpec → Bool
retry_admits r =
    positive r.attempts
    && positive r.max_retries
    && optional positive r.base_delay_ms
    && optional positive r.max_delay_ms

abbrev pub timeout_admits : TimeoutSpec → Bool
timeout_admits t = optional positive t.initial_token_ms && optional positive t.inter_token_ms

abbrev pub guardrail_admits : GuardrailSpec → Bool
guardrail_admits g = optional positive g.check_interval_ms

-- z.array(…).min(1)
abbrev pub not_empty {ℓ} : {A : Type ℓ} → List A → Bool
not_empty [] = false
not_empty (x ∷ xs) = true

unfoldable pub execution_admits : ExecutionSpec → Bool
execution_admits e =
    not_empty e.models
    && optional parallel_admits e.parallel
    && optional retry_admits e.retry
    && optional timeout_admits e.timeout
    && optional guardrail_admits e.guardrails

unfoldable pub order_admits : InferenceOrder → Bool
unfolding execution_admits
order_admits o = execution_admits o.execution
