-- ===== src/Executor/Options/Laws.antt =====
-- The options for the L0 runtime carry the order's settings.
use l0_worker.Base.{
  String, Bool, true, Option, none, some, List, [], ◌∷◌, ◌==◌, ◌≡◌, ◌≢◌, ◌↔◌, ◌∙◌, ap, refl, arith,
  if◌then◌else◌,
}
use l0_worker.Base.Int.{ℤ}
use l0_worker.Map
use l0_worker.Map.{Map}
use l0_worker.Map.Laws.{get-set}
use l0_worker.Json.{Json}
use l0_worker.Order.{
  ExecutionSpec, ToolSpec, GuardrailSpec, execution_admits, guardrail_admits, optional, positive,
}
use l0_worker.Executor.Options.{
  truthy, build_common_l0_options, add_tools, build_tools, ToolDefinition,
}

admitted_interval :
    (e : ExecutionSpec) (spec : GuardrailSpec)
    → execution_admits e ≡ true
    → e.guardrails ≡ some spec
    → guardrail_admits spec ≡ true
unfolding execution_admits
admitted_interval e spec ok given = ground arith

truthy_positive : (o : Option ℤ) → optional positive o ≡ true → truthy o ≡ o
truthy_positive o h = ground arith

-- In the options of an order that the schema admits, the guardrails and their interval are set exactly
-- as follows: guardrails if the order names a preset, and the interval if the order gives one and names
-- a preset too; an interval without a preset is dropped.
pub guardrail_options :
    (e : ExecutionSpec) (spec : GuardrailSpec) (meta : Option (Map Json)) (signal : Bool)
    → execution_admits e ≡ true
    → e.guardrails ≡ some spec
    → let opts = build_common_l0_options e meta signal in
      ((opts.guardrails ≡ none) ↔ (spec.preset ≡ none))
      × (spec.preset ≡ none → opts.check_intervals ≡ none)
      × (spec.preset ≢ none → opts.check_intervals ≡ spec.check_interval_ms)
unfolding build_common_l0_options
guardrail_options e spec meta signal ok given =
    let given_positive = admitted_interval e spec ok given in
    (
      (λ h. ground arith, λ h. ground arith),
      λ h. ground arith,
      λ h. let kept = truthy_positive spec.check_interval_ms given_positive in ground arith,
    )

-- The definition of the last tool of a name.
unfoldable pub last_tool : String → List ToolSpec → Option ToolDefinition → Option ToolDefinition
last_tool k [] found = found
last_tool k (t ∷ ts) found = last_tool k ts (
    if t.name == k
    then some (record { description = t.description; input_schema = t.schema })
    else found)

add_tools_last :
    (k : String) (ts : List ToolSpec) (tools : Map ToolDefinition)
    → Map.get k (add_tools ts tools) ≡ last_tool k ts (Map.get k tools)
unfolding add_tools last_tool
add_tools_last k [] tools = refl
add_tools_last k (t ∷ ts) tools = rw (add_tools_last k ts _, get-set) refl

-- The tools passed to the model are those of the order: for each name the definition of the last tool
-- of that name, and for any other name none.
pub build_tools_lem :
    (e : ExecutionSpec) (t : ToolSpec) (ts : List ToolSpec) (k : String)
    → e.tools ≡ some (t ∷ ts)
    → (m : Map ToolDefinition) × (build_tools e ≡ some m)
      × (Map.get k m ≡ last_tool k (t ∷ ts) none)
unfolding build_tools
build_tools_lem e t ts k given = (
  add_tools (t ∷ ts) [],
  rw (given, build_tools) refl,
  add_tools_last k (t ∷ ts) [] ∙ ap (last_tool k (t ∷ ts)) (unfold Map.get in refl),
)
