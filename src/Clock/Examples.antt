-- ===== src/Clock/Examples.antt =====
-- Runs of utils/clock.ts.
use l0_worker.Base.{◌≡◌, refl, [], ◌∷◌}
use l0_worker.Clock.{new, stamps}

-- The clock goes back and stands still.
stamps_drifting : stamps (5 ∷ 3 ∷ 3 ∷ 9 ∷ []) new ≡ 5 ∷ 6 ∷ 7 ∷ 9 ∷ []
unfolding stamps
stamps_drifting = refl
