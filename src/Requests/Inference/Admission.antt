-- ===== src/Requests/Inference/Admission.antt =====
-- What the schemas of src/inference/order.ts read is an order that they admit.
use l0_worker.Base.{
  Bool, true, Option, none, some, arith, ◌≡◌, refl, inl, inr, Option-cases, Bool-cases,
}
use l0_worker.Base.Int.{ℤ}
use l0_worker.Json.{Json, property}
use l0_worker.Order.{
  InferenceOrder, positive, optional, parallel_admits, retry_admits, timeout_admits,
  guardrail_admits, execution_admits, order_admits,
}
use l0_worker.Requests.{maybe, number_of, ◌>>=◌}
use l0_worker.Requests.Inference.{
  object, positive_of, parallel_of, retry_of, timeout_of, guardrail_of, execution_of, order_of,
  named, backoff_named, array_of, model_of, fallback_of, tool_of, boolean_of,
}

module _ {A : Type 0} (check : A → Bool) (read : Option Json → Option A) where
  abbrev Sound : Type 0
  Sound = (j : Option Json) (a : A) → read j ≡ some a → check a ≡ true

  maybe_sound :
      Sound → (j : Option Json) (o : Option A) → maybe read j ≡ some o → optional check o ≡ true
  maybe_sound sound none o h = ground arith
  maybe_sound sound (some j) o h = elim (Option-cases (read (some j))) [
    | inl nothing ↦ absurd (ground arith)
    | inr (a, found) ↦ ground (arith, sound (some j) a found)
  ]

positive_of_sound : Sound positive positive_of
unfolding positive_of
positive_of_sound j n h = elim (Option-cases (number_of j)) [
  | inl nothing ↦ absurd (ground arith)
  | inr (m, found) ↦ elim (Bool-cases (positive m)) [
    | inl above ↦ ground arith
    | inr low ↦ absurd (ground arith)
  ]
]

maybe_positive :
    (j : Option Json) (o : Option ℤ) → maybe positive_of j ≡ some o → optional positive o ≡ true
maybe_positive j o h = maybe_sound positive positive_of positive_of_sound j o h

-- Whatever the read gives has the property.
record Yields {A : Type 0} (P : A → Type 0) (m : Option A) : Type 0 where
  at : (a : A) → m ≡ some a → P a

bind-Yields :
    {A B : Type 0} {P : B → Type 0} (m : Option A) (f : A → Option B)
    → ((a : A) → m ≡ some a → Yields P (f a))
    → Yields P (m >>= f)
bind-Yields none f next = record { at = λ b h. absurd (ground arith) }
bind-Yields (some a) f next = next a refl

parallel_of_sound : Sound parallel_admits parallel_of
unfolding parallel_of
parallel_of_sound j s h = elim (Option-cases (object j)) [
  | inl nothing ↦ absurd (ground arith)
  | inr (fs, found) ↦ ground (arith, maybe_positive (property "max" fs) s.max)
]

retry-Yields : (j : Option Json) → Yields (λ s. retry_admits s ≡ true) (retry_of j)
unfolding retry_of
retry-Yields j = bind-Yields (object j) _ λ fs _.
    bind-Yields (positive_of (property "attempts" fs)) _ λ attempts e1.
      bind-Yields (positive_of (property "maxRetries" fs)) _ λ retries e2.
        bind-Yields (named backoff_named (property "backoff" fs)) _ λ backoff _.
          bind-Yields (maybe positive_of (property "baseDelayMs" fs)) _ λ base e3.
            bind-Yields (maybe positive_of (property "maxDelayMs" fs)) _ λ max e4. record {
              at = λ s h. ground (
                arith,
                positive_of_sound (property "attempts" fs) attempts e1,
                positive_of_sound (property "maxRetries" fs) retries e2,
                maybe_positive (property "baseDelayMs" fs) base e3,
                maybe_positive (property "maxDelayMs" fs) max e4,
              );
            }

retry_of_sound : Sound retry_admits retry_of
retry_of_sound j = (retry-Yields j).at

timeout_of_sound : Sound timeout_admits timeout_of
unfolding timeout_of
timeout_of_sound j s h = elim (Option-cases (object j)) [
  | inl nothing ↦ absurd (ground arith)
  | inr (fs, found) ↦ ground (
    arith,
    maybe_positive (property "initialTokenMs" fs) s.initial_token_ms,
    maybe_positive (property "interTokenMs" fs) s.inter_token_ms,
  )
]

guardrail_of_sound : Sound guardrail_admits guardrail_of
unfolding guardrail_of
guardrail_of_sound j s h = elim (Option-cases (object j)) [
  | inl nothing ↦ absurd (ground arith)
  | inr (fs, found) ↦
      ground (arith, maybe_positive (property "checkIntervalMs" fs) s.check_interval_ms)
]

execution-Yields : (j : Option Json) → Yields (λ s. execution_admits s ≡ true) (execution_of j)
unfolding execution_of execution_admits
execution-Yields j = bind-Yields (object j) _ λ fs _.
    bind-Yields (array_of model_of (property "models" fs)) _ λ models _.
      bind-Yields (maybe parallel_of (property "parallel" fs)) _ λ parallel e1.
        bind-Yields (maybe retry_of (property "retry" fs)) _ λ retry e2.
          bind-Yields (maybe (array_of fallback_of) (property "fallbacks" fs)) _ λ fallbacks _.
            bind-Yields (maybe (array_of tool_of) (property "tools" fs)) _ λ tools _.
              bind-Yields (maybe timeout_of (property "timeout" fs)) _ λ timeout e3.
                bind-Yields (maybe guardrail_of (property "guardrails" fs)) _ λ guardrails e4.
                  bind-Yields (maybe boolean_of (property "continueFromLastKnownGoodToken" fs)) _
                    λ continued _. record {
                      at = λ s h. ground (
                        arith,
                        maybe_sound parallel_admits parallel_of parallel_of_sound
                            (property "parallel" fs) parallel e1,
                        maybe_sound retry_admits retry_of retry_of_sound (property "retry" fs) retry
                            e2,
                        maybe_sound timeout_admits timeout_of timeout_of_sound
                            (property "timeout" fs) timeout e3,
                        maybe_sound guardrail_admits guardrail_of guardrail_of_sound
                            (property "guardrails" fs) guardrails e4,
                      );
                    }

execution_of_sound : Sound execution_admits execution_of
execution_of_sound j = (execution-Yields j).at

-- What is read as an order is an order that the schemas admit.
pub order_of_sound :
    (j : Option Json) (o : InferenceOrder) → order_of j ≡ some o → order_admits o ≡ true
unfolding order_of order_admits
order_of_sound j o h = elim (Option-cases (object j)) [
  | inl nothing ↦ absurd (ground arith)
  | inr (fs, found) ↦ ground (arith, execution_of_sound (property "execution" fs) o.execution)
]
