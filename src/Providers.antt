-- ===== src/Providers.antt =====
-- src/executor/providers.ts: the registry of providers, a plain object. Looking up a name in it finds
-- the properties that every object inherits too.
pub mod Names
mod Examples
use Prim.Native.String
use l0_worker.Base.{String, Bool, true, false, ◌||◌, List, [], ◌∷◌, ◌==◌, if◌then◌else◌}
use l0_worker.Thrown.{Result, ok, err, new_error}
use l0_worker.Order.{ModelSpec}

-- The names of the properties of Object.prototype.
abbrev pub inherited : List String
inherited =
    "constructor" ∷ "__defineGetter__" ∷ "__defineSetter__" ∷ "hasOwnProperty" ∷ "__lookupGetter__"
    ∷ "__lookupSetter__" ∷ "isPrototypeOf" ∷ "propertyIsEnumerable" ∷ "toString" ∷ "valueOf"
    ∷ "__proto__" ∷ "toLocaleString" ∷ []

abbrev pub among : String → List String → Bool
among s [] = false
among s (t ∷ ts) = t == s || among s ts

unfoldable pub is_inherited : String → Bool
is_inherited name = among name inherited

-- What is called with the model's name: the OpenAI provider, or an inherited property, by its name.
pub data LanguageModel : Type 0 where
  openai : String → LanguageModel
  inherited_call : String → String → LanguageModel

-- getModel(spec)
unfoldable pub get_model : ModelSpec → Result LanguageModel
get_model spec =
    if spec.provider == "openai"
    then ok (openai spec.model)
    else if is_inherited spec.provider
    then ok (inherited_call spec.provider spec.model)
    else err (new_error (String.◌++◌ "Unknown provider: " spec.provider))

-- isProviderSupported(providerName)
unfoldable pub is_provider_supported : String → Bool
is_provider_supported name = name == "openai" || is_inherited name
