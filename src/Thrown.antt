-- ===== src/Thrown.antt =====
-- What JavaScript code throws, and the results of code that can throw.
-- `OutputValidationError` is the class of src/executor/executor.ts.
use Prim.Native.String
use l0_worker.Base.{String, ◌≡◌, refl, ◌⊎◌, inl, inr}

pub data Thrown : Type 0 where
  -- an instance of Error, with its name and message
  error : String → String → Thrown
  -- new OutputValidationError(reason)
  output_validation : String → Thrown
  -- anything else, by the text that String(…) makes of it
  value : String → Thrown

-- error instanceof Error ? error.message : String(error)
unfoldable pub message_of : Thrown → String
message_of (error name message) = message
message_of (output_validation reason) = String.◌++◌ "Output validation failed: " reason
message_of (value text) = text

-- new Error(message)
abbrev pub new_error : String → Thrown
new_error m = error "Error" m

pub data Result {ℓ} (A : Type ℓ) : Type ℓ where
  ok : A → Result A
  err : Thrown → Result A

-- What comes next, if the first part does not throw.
module _ {ℓ κ} {A : Type ℓ} {B : Type κ} where
  infixl 5 ◌>>=◌
  abbrev pub ◌>>=◌ : Result A → (A → Result B) → Result B
  r >>= next = elim r [ err thrown ↦ err thrown | ok value_of ↦ next value_of ]

pub Result-cases {ℓ} :
    {A : Type ℓ} (r : Result A) → ((e : Thrown) × (r ≡ err e)) ⊎ ((a : A) × (r ≡ ok a))
Result-cases (ok a) = inr (a, refl)
Result-cases (err e) = inl (e, refl)
