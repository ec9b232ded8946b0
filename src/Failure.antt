-- ===== src/Failure.antt =====
-- src/worker-instance.ts, classifyError and isRetryable: the failure class of an error.
pub mod Rules
mod Examples
use l0_worker.Base.{
  ℕ, ◌+◌, String, Bool, true, false, ◌&&◌, ◌||◌, List, [], ◌∷◌, ◌++◌, leb, eqb, if◌then◌else◌,
}
use l0_worker.Thrown.{Thrown, error, output_validation, value}
use l0_worker.Text.{codes, contains}
use l0_worker.Event.Outbound.{
  FailureClass, timeout, rate_limited, context_length_exceeded, invalid_input, model_error,
  network_error, aborted, unknown,
}

-- toLowerCase() of one code point, where the result is ASCII: besides the letters A to Z these are the
-- Kelvin sign and the capital I with a dot. Every other code point keeps out of ASCII, and is left.
unfoldable pub lower : ℕ → List ℕ
lower c =
    if leb b'A' c && leb c b'Z'
    then (c + 32) ∷ []
    else if eqb c 8490
    then b'k' ∷ []
    else if eqb c 304
    then b'i' ∷ 775 ∷ []
    else c ∷ []

unfoldable pub lower_all : List ℕ → List ℕ
unfolding lower
lower_all [] = []
lower_all (c ∷ cs) = lower c ++ lower_all cs

-- text.toLowerCase().includes(word), for a word in ASCII
unfoldable pub mentions : String → String → Bool
unfolding lower_all contains
mentions text word = contains (codes word) (lower_all (codes text))

unfoldable pub classify_message : String → String → FailureClass
classify_message name message =
    if mentions message "abort" || mentions name "abort"
    then aborted
    else if mentions message "timeout" || mentions name "timeout"
    then timeout
    else if mentions message "rate limit" || mentions message "429"
    then rate_limited
    else if mentions message "context length" || mentions message "too long"
    then context_length_exceeded
    else if mentions message "network"
        || mentions message "econnreset"
        || mentions message "econnrefused"
    then network_error
    else if mentions message "model" || mentions message "invalid model"
    then model_error
    else if mentions message "invalid" || mentions message "validation"
    then invalid_input
    else unknown

unfoldable pub classify_error : Thrown → FailureClass
unfolding classify_message
classify_error (value text) = unknown
classify_error (output_validation reason) = invalid_input
classify_error (error name message) = classify_message name message

unfoldable pub is_retryable : FailureClass → Bool
is_retryable timeout = true
is_retryable rate_limited = true
is_retryable network_error = true
is_retryable _ = false
