-- ===== src/Failure/Examples.antt =====
-- Runs of classifyError and isRetryable of worker-instance.ts.
use l0_worker.Base.{true, ◌≡◌, refl}
use l0_worker.Thrown.{error}
use l0_worker.Text
use l0_worker.Event.Outbound.{rate_limited}
use l0_worker.Failure.{mentions, lower, lower_all, classify_message, classify_error, is_retryable}

too_many : classify_error (error "Error" "429 Too Many Requests") ≡ rate_limited
unfolding classify_error classify_message mentions lower_all lower Text.contains Text.begins
too_many = refl

request_timeout : is_retryable (classify_error (error "Error" "Request Timeout")) ≡ true
unfolding is_retryable classify_error classify_message mentions lower_all lower Text.contains
    Text.begins
request_timeout = refl
