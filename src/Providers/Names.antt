-- ===== src/Providers/Names.antt =====
-- Which names executor/providers.ts takes for providers.
use l0_worker.Base.{true, ◌==◌, ◌≡◌, ◌≢◌, ◌↔◌, refl, arith, eq_iff, if◌then◌else◌}
use l0_worker.Thrown.{ok}
use l0_worker.Order.{ModelSpec}
use l0_worker.Providers.{
  LanguageModel, openai, inherited_call, is_inherited, get_model, is_provider_supported,
}

abbrev model_of : ModelSpec → LanguageModel
model_of spec =
    if spec.provider == "openai" then openai spec.model else inherited_call spec.provider spec.model

-- A provider counts as supported exactly if looking up a model of it does not end in the error "Unknown
-- provider", and the model is one of OpenAI's exactly if the provider is "openai"; for any other name
-- that counts as supported, and there are such, what is called is a property that every object inherits.
pub supported_iff :
    (spec : ModelSpec)
    → ((is_provider_supported spec.provider ≡ true)
        ↔ ((m : LanguageModel) × (get_model spec ≡ ok m)))
      × ((get_model spec ≡ ok (openai spec.model)) ↔ (spec.provider ≡ "openai"))
      × (is_provider_supported spec.provider ≡ true
          → spec.provider ≢ "openai"
          → get_model spec ≡ ok (inherited_call spec.provider spec.model))
      × (is_provider_supported "constructor" ≡ true)
unfolding get_model is_provider_supported
supported_iff spec =
    let name = eq_iff spec.provider "openai" in
    (
      (λ h. (model_of spec, ground arith), λ r. let (m, found) = r in ground arith),
      (λ h. ground (arith, name), λ h. ground (arith, name)),
      λ h ne. ground (arith, name),
      unfold is_inherited in refl,
    )
