-- ===== src/Clock/Monotone.antt =====
-- Order and accuracy of the timestamps of utils/clock.ts.
use l0_worker.Base.{ℕ, suc, ◌+◌, ◌≤◌, ◌<◌, List, [], ◌∷◌, arith, ◌≡◌, refl, length}
use mathlib.Core.Path.{subst}
use l0_worker.Clock.{MonotonicClock, now, stamps}

-- Each number is above the one before it, and the first is above `n`.
abbrev pub Increasing : ℕ → List ℕ → Type 0
Increasing n [] = Unit
Increasing n (t ∷ ts) = (n < t) × Increasing t ts

-- The readings are at most `bound`.
abbrev pub AtMost : ℕ → List ℕ → Type 0
AtMost bound [] = Unit
AtMost bound (r ∷ rs) = (r ≤ bound) × AtMost bound rs

-- The timestamp is the clock's state, it is above the last one, and it does not lie before the
-- reading.
pub now_bounds :
    (r : ℕ) (c : MonotonicClock)
    → (c.last_timestamp < (now r c).1)
      × (r ≤ (now r c).1)
      × ((now r c).0.last_timestamp ≡ (now r c).1)
unfolding now
now_bounds r c = ground arith

-- Whatever the system's clock reads, drift backwards included, successive calls of `now` return
-- strictly increasing timestamps, all above the last one before them, one for each call.
pub stamps-Increasing :
    (rs : List ℕ) (c : MonotonicClock)
    → Increasing c.last_timestamp (stamps rs c) × (length (stamps rs c) ≡ length rs)
unfolding stamps
stamps-Increasing [] c = (tt, refl)
stamps-Increasing (r ∷ rs) c = ground (arith, now_bounds r c, stamps-Increasing rs (now r c).0)

AtMost-mono : (b : ℕ) (rs : List ℕ) → AtMost b rs → AtMost (suc b) rs
AtMost-mono b [] k = tt
AtMost-mono b (r ∷ rs) k = (omega arith, AtMost-mono b rs k.1)

stamp-le : (r : ℕ) (c : MonotonicClock) (b : ℕ) → c.last_timestamp ≤ b → r ≤ b → (now r c).1 ≤ suc b
unfolding now
stamp-le r c b h k = ground arith

-- The timestamps run ahead of the system's clock by no more than the number of calls: if neither a
-- reading nor the clock is above `bound`, no timestamp is above `bound` plus the number of calls.
pub stamps_drift :
    (bound : ℕ) (rs : List ℕ) (c : MonotonicClock)
    → c.last_timestamp ≤ bound
    → AtMost bound rs
    → AtMost (bound + length rs) (stamps rs c)
unfolding stamps
stamps_drift bound [] c h k = tt
stamps_drift bound (r ∷ rs) c h k =
    let first = stamp-le r c bound h k.0 in
    let later =
      stamps_drift (suc bound) rs (now r c).0 (omega (arith, now_bounds r c))
        (AtMost-mono bound rs k.1) in
    let total : suc bound + length rs ≡ bound + suc (length rs) = omega arith in
    (omega arith, subst (λ n. AtMost n (stamps rs (now r c).0)) total later)
