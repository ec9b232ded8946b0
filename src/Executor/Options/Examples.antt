-- ===== src/Executor/Options/Examples.antt =====
-- Runs of the options of executor/executor.ts.
use l0_worker.Base.{true, none, some, [], ◌∷◌, ◌≡◌, refl}
use l0_worker.Base.Int.{pos}
use l0_worker.Order.{ExecutionSpec, GuardrailSpec, ToolSpec, execution_admits}

-- Guardrails with an interval and no preset.
abbrev every_ten : GuardrailSpec
every_ten = record { preset = none; check_interval_ms = some (pos 10) }

abbrev search : ToolSpec
search = record { name = "search"; description = none; schema = [] }

abbrev execution : ExecutionSpec
execution = record {
  models = record { provider = "openai"; model = "gpt-4o"; params = none } ∷ [];
  parallel = none;
  retry = none;
  fallbacks = none;
  tools = some (search ∷ []);
  timeout = none;
  guardrails = some every_ten;
  continue_from_last_known_good_token = none;
}

execution_admitted : execution_admits execution ≡ true
unfolding execution_admits
execution_admitted = refl
