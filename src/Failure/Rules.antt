-- ===== src/Failure/Rules.antt =====
-- The classes of errors of worker-instance.ts against a table of rules.
use l0_worker.Base.{
  String, Bool, true, false, ◌||◌, List, [], ◌∷◌, ◌≡◌, ◌≢◌, ◌⊎◌, refl, arith, if◌then◌else◌,
}
use l0_worker.Thrown.{Thrown, error, output_validation, value}
use l0_worker.Event.Outbound.{
  FailureClass, timeout, rate_limited, context_length_exceeded, invalid_input, model_error,
  network_error, guardrail_violation, determinism_violation, aborted, unknown,
}
use l0_worker.Failure.{mentions, classify_error, is_retryable}

-- A rule: the words that give a class when the message has one of them, and, if the rule looks at the
-- name too, when the name has one.
pub record Rule : Type 0 where
  pub words : List String
  pub in_name : Bool
  pub class : FailureClass

-- The rules, in order of precedence.
abbrev pub rules : List Rule
rules =
    record { words = "abort" ∷ []; in_name = true; class = aborted }
    ∷ record { words = "timeout" ∷ []; in_name = true; class = timeout }
    ∷ record { words = "rate limit" ∷ "429" ∷ []; in_name = false; class = rate_limited }
    ∷ record {
      words = "context length" ∷ "too long" ∷ [];
      in_name = false;
      class = context_length_exceeded;
    }
    ∷ record {
      words = "network" ∷ "econnreset" ∷ "econnrefused" ∷ [];
      in_name = false;
      class = network_error;
    }
    ∷ record { words = "model" ∷ "invalid model" ∷ []; in_name = false; class = model_error }
    ∷ record { words = "invalid" ∷ "validation" ∷ []; in_name = false; class = invalid_input }
    ∷ []

abbrev pub any_word : String → List String → Bool
any_word text [] = false
any_word text (w ∷ ws) = mentions text w || any_word text ws

abbrev pub fires : String → String → Rule → Bool
fires name message r =
    any_word message r.words || (if r.in_name then any_word name r.words else false)

abbrev pub first_class : String → String → List Rule → FailureClass
first_class name message [] = unknown
first_class name message (r ∷ rs) =
    if fires name message r then r.class else first_class name message rs

-- The class of an error is that of the first rule that fires, in the order abort, timeout, rate
-- limit, context length, network, model, invalid, and unknown if none does; upper and lower case count
-- as one.
pub classify_first_rule :
    (name message : String) → classify_error (error name message) ≡ first_class name message rules
unfolding classify_error
classify_first_rule name message = ground arith

-- A failure is reported as retryable only for an error that speaks of a timeout, a rate limit or the
-- network and not of an abort: never for an output that fails validation, a thrown value that is no
-- error, or an error whose name or message has "abort".
pub retryable_errors :
    (e : Thrown)
    → is_retryable (classify_error e) ≡ true
    → (name : String) × (message : String) × (e ≡ error name message)
      × (mentions message "abort" ≡ false)
      × (mentions name "abort" ≡ false)
      × ((any_word message
              ("timeout" ∷ "rate limit" ∷ "429" ∷ "network" ∷ "econnreset" ∷ "econnrefused" ∷ [])
            ≡ true)
          ⊎ (mentions name "timeout" ≡ true))
unfolding classify_error is_retryable
retryable_errors (error name message) h =
    (name, message, refl, ground arith, ground arith, ground arith)
retryable_errors (output_validation reason) h = cc
retryable_errors (value text) h = cc

-- No error is ever classified as a violation of a guardrail or of determinism.
pub unused_classes :
    (e : Thrown)
    → (classify_error e ≢ guardrail_violation) × (classify_error e ≢ determinism_violation)
unfolding classify_error
unused_classes e = ground arith
