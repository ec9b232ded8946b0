-- ===== src/Requests/Inference/RoundTrip.antt =====
-- An inference order that the schemas of src/inference/order.ts admit is read back from its JSON.
use l0_worker.Base.{
  String, Bool, true, Option, none, some, List, [], ◌∷◌, arith, ◌==◌, ◌≡◌, refl, ap, if◌then◌else◌,
}
use l0_worker.Base.Int.{ℤ}
use l0_worker.Map.{Map}
use l0_worker.Json.{Json, bool, num, str, Fields, end, field, property}
use l0_worker.Order.{
  ModelSpec, ParallelMode, race, fanout, ParallelSpec, Backoff, fixed, linear, exponential,
  fixed_jitter, full_jitter, RetrySpec, FallbackWhen, on_error, on_timeout, on_output_violation,
  FallbackSpec, TimeoutSpec, GuardrailPreset, minimal, recommended, strict, json_only,
  markdown_only, latex_only, GuardrailSpec, ToolSpec, ExecutionSpec, OutputSpec, text, tokens, json,
  InferenceOrder, positive, optional, parallel_admits, retry_admits, timeout_admits,
  guardrail_admits, not_empty, execution_admits, order_admits,
}
use l0_worker.Requests.{text_of, flag_of, maybe}
use l0_worker.Requests.Inference.{
  entries, map_of, positive_of, each, array_of, model_of, mode_named, parallel_of, boolean_of,
  named, backoff_named, retry_of, when_named, fallback_of, timeout_of, preset_named, guardrail_of,
  tool_of, execution_of, output_kind, json_output, output_of, order_of,
}
use l0_worker.Requests.Inference.Printing.{
  given, print_optional, print_items, print_array, print_entries, print_map, model_json, mode_name,
  parallel_json, backoff_name, retry_json, when_name, fallback_json, timeout_json, preset_json,
  guardrail_json, tool_json, execution_json, output_json, order_json,
}

abbrev pub first : Option Json → Option Json → Option Json
first none other = other
first (some j) other = some j

pub property-given :
    (k j : String) (o : Option Json) (fs : Fields)
    → property k (given j o fs) ≡ (if j == k then first o (property k fs) else property k fs)
unfolding property given
property-given k j none fs = ground arith
property-given k j (some v) fs = refl

pub property-field :
    (k j : String) (v : Json) (fs : Fields)
    → property k (field j v fs) ≡ (if j == k then some v else property k fs)
unfolding property
property-field k j v fs = refl

pub property-end : (k : String) → property k end ≡ none
unfolding property
property-end k = refl

pub first-none : (o : Option Json) → first o none ≡ o
first-none none = refl
first-none (some j) = refl

-- What a property of a printed object is.
pub ruleset lookups = (property-given, property-field, property-end, first-none)

pub entries_lem : (m : Map Json) → entries (print_entries m) ≡ m
entries_lem [] = refl
entries_lem ((k, j) ∷ m) = ap (λ n. (k, j) ∷ n) (entries_lem m)

pub map_of_lem : (m : Map Json) → map_of (some (print_map m)) ≡ some m
unfolding map_of
map_of_lem m = ap some (entries_lem m)

positive_of_lem : (n : ℤ) → positive n ≡ true → positive_of (some (num n)) ≡ some n
unfolding positive_of
positive_of_lem n h = rw h refl

module _ {A : Type 0} (print : A → Json) (read : Option Json → Option A) where
  abbrev pub Reads : A → Type 0
  Reads a = read (some (print a)) ≡ some a

  pub maybe_lem :
      (check : A → Bool) (o : Option A)
      → ((a : A) → check a ≡ true → Reads a)
      → optional check o ≡ true
      → maybe read (print_optional print o) ≡ some o
  maybe_lem check none reads h = refl
  maybe_lem check (some a) reads h = rw (reads a h) refl

  each_lem : ((a : A) → Reads a) → (xs : List A) → each read (print_items print xs) ≡ some xs
  unfolding each
  each_lem reads [] = refl
  each_lem reads (x ∷ xs) = rw (reads x, each_lem reads xs) refl

abbrev pub anything {ℓ} : {A : Type ℓ} → A → Bool
anything a = true

optional-anything {ℓ} : {A : Type ℓ} (o : Option A) → optional anything o ≡ true
optional-anything none = refl
optional-anything (some a) = refl

-- An optional property that every value can be read for.
abbrev pub Always : {A : Type 0} → (A → Json) → (Option Json → Option A) → Option A → Type 0
Always print read o = maybe read (print_optional print o) ≡ some o

pub always_lem :
    {A : Type 0} (print : A → Json) (read : Option Json → Option A)
    → ((a : A) → read (some (print a)) ≡ some a)
    → (o : Option A) → Always print read o
always_lem print read reads o =
    maybe_lem print read anything o (λ a h. reads a) (optional-anything o)

positive_maybe : (o : Option ℤ) → optional positive o ≡ true → Always num positive_of o
positive_maybe o h = maybe_lem num positive_of positive o positive_of_lem h

model_of_lem : (s : ModelSpec) → model_of (some (model_json s)) ≡ some s
unfolding model_of text_of
model_of_lem s = simp (lookups, always_lem print_map map_of map_of_lem s.params)

mode_named_lem : (m : ParallelMode) → mode_named (mode_name m) ≡ some m
unfolding mode_named
mode_named_lem race = refl
mode_named_lem fanout = refl

parallel_of_lem :
    (s : ParallelSpec) → parallel_admits s ≡ true → parallel_of (some (parallel_json s)) ≡ some s
unfolding parallel_of text_of
parallel_of_lem s h = simp (lookups, mode_named_lem s.mode, positive_maybe s.max h)

backoff_named_lem : (b : Backoff) → backoff_named (backoff_name b) ≡ some b
unfolding backoff_named
backoff_named_lem fixed = refl
backoff_named_lem linear = refl
backoff_named_lem exponential = refl
backoff_named_lem fixed_jitter = refl
backoff_named_lem full_jitter = refl

retry_of_lem : (s : RetrySpec) → retry_admits s ≡ true → retry_of (some (retry_json s)) ≡ some s
unfolding retry_of text_of
retry_of_lem s h =
    let attempts : positive s.attempts ≡ true = ground arith in
    let retries : positive s.max_retries ≡ true = ground arith in
    let base : optional positive s.base_delay_ms ≡ true = ground arith in
    let max : optional positive s.max_delay_ms ≡ true = ground arith in
    simp (
      lookups,
      positive_of_lem s.attempts attempts,
      positive_of_lem s.max_retries retries,
      backoff_named_lem s.backoff,
      positive_maybe s.base_delay_ms base,
      positive_maybe s.max_delay_ms max,
    )

when_named_lem : (w : FallbackWhen) → when_named (when_name w) ≡ some w
unfolding when_named
when_named_lem on_error = refl
when_named_lem on_timeout = refl
when_named_lem on_output_violation = refl

fallback_of_lem : (s : FallbackSpec) → fallback_of (some (fallback_json s)) ≡ some s
unfolding fallback_of text_of
fallback_of_lem s = simp (lookups, when_named_lem s.when, model_of_lem s.model)

timeout_of_lem :
    (s : TimeoutSpec) → timeout_admits s ≡ true → timeout_of (some (timeout_json s)) ≡ some s
unfolding timeout_of
timeout_of_lem s h =
    let initial : optional positive s.initial_token_ms ≡ true = ground arith in
    let inter : optional positive s.inter_token_ms ≡ true = ground arith in
    simp (lookups, positive_maybe s.initial_token_ms initial, positive_maybe s.inter_token_ms inter)

preset_lem : (p : GuardrailPreset) → named preset_named (some (preset_json p)) ≡ some p
unfolding preset_named text_of
preset_lem minimal = refl
preset_lem recommended = refl
preset_lem strict = refl
preset_lem json_only = refl
preset_lem markdown_only = refl
preset_lem latex_only = refl

guardrail_of_lem :
    (s : GuardrailSpec)
    → guardrail_admits s ≡ true
    → guardrail_of (some (guardrail_json s)) ≡ some s
unfolding guardrail_of
guardrail_of_lem s h = simp (
  lookups,
  always_lem preset_json (named preset_named) preset_lem s.preset,
  positive_maybe s.check_interval_ms h,
)

pub text_of_lem : (t : String) → text_of (some (str t)) ≡ some t
unfolding text_of
text_of_lem t = refl

tool_of_lem : (s : ToolSpec) → tool_of (some (tool_json s)) ≡ some s
unfolding tool_of
tool_of_lem s = simp (lookups, map_of_lem, always_lem str text_of text_of_lem s.description)

array_of_lem :
    {A : Type 0} (print : A → Json) (read : Option Json → Option A)
    → ((a : A) → read (some (print a)) ≡ some a)
    → (xs : List A) → array_of read (some (print_array print xs)) ≡ some xs
unfolding array_of
array_of_lem print read reads xs = each_lem print read reads xs

pub boolean_of_lem : (b : Bool) → boolean_of (some (bool b)) ≡ some b
unfolding flag_of
boolean_of_lem b = refl

execution_of_lem :
    (s : ExecutionSpec)
    → execution_admits s ≡ true
    → execution_of (some (execution_json s)) ≡ some s
unfolding execution_of execution_admits
execution_of_lem s h =
    let models : not_empty s.models ≡ true = ground arith in
    let parallel : optional parallel_admits s.parallel ≡ true = ground arith in
    let retry : optional retry_admits s.retry ≡ true = ground arith in
    let timeout : optional timeout_admits s.timeout ≡ true = ground arith in
    let guardrails : optional guardrail_admits s.guardrails ≡ true = ground arith in
    simp (
      lookups,
      array_of_lem model_json model_of model_of_lem s.models,
      maybe_lem parallel_json parallel_of parallel_admits s.parallel parallel_of_lem parallel,
      maybe_lem retry_json retry_of retry_admits s.retry retry_of_lem retry,
      always_lem (print_array fallback_json) (array_of fallback_of)
          (array_of_lem fallback_json fallback_of fallback_of_lem) s.fallbacks,
      always_lem (print_array tool_json) (array_of tool_of)
          (array_of_lem tool_json tool_of tool_of_lem) s.tools,
      maybe_lem timeout_json timeout_of timeout_admits s.timeout timeout_of_lem timeout,
      maybe_lem guardrail_json guardrail_of guardrail_admits s.guardrails guardrail_of_lem
          guardrails,
      always_lem bool boolean_of boolean_of_lem s.continue_from_last_known_good_token,
      models,
    )

output_of_lem : (s : OutputSpec) → output_of (some (output_json s)) ≡ some s
unfolding output_of output_kind json_output text_of
output_of_lem text = simp lookups
output_of_lem tokens = simp lookups
output_of_lem (json schema is_strict) = simp (lookups, map_of_lem, boolean_of_lem)

-- An order that the schemas admit is read back unchanged from the JSON that it is.
pub order_of_lem :
    (o : InferenceOrder) → order_admits o ≡ true → order_of (some (order_json o)) ≡ some o
unfolding order_of order_admits
order_of_lem o h = simp (lookups, execution_of_lem o.execution h, output_of_lem o.output)
