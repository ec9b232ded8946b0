-- ===== src/Clock.antt =====
-- src/utils/clock.ts: the monotonic clock. A reading of `Date.now()` is an argument.
pub mod Monotone
mod Examples
use l0_worker.Base.{ℕ, suc, ◌+◌, List, [], ◌∷◌, leb, if◌then◌else◌}

pub record MonotonicClock : Type 0 where
  pub last_timestamp : ℕ

-- A new clock.
abbrev pub new : MonotonicClock
new = record { last_timestamp = 0 }

-- now(): the new clock and the timestamp, for the reading `current` of the system's clock.
unfoldable pub now : ℕ → MonotonicClock → MonotonicClock × ℕ
now current c =
    let t = if leb current c.last_timestamp then c.last_timestamp + 1 else current in
    (record c { last_timestamp = t }, t)

-- The timestamps of successive calls, one for each reading.
unfoldable pub stamps : List ℕ → MonotonicClock → List ℕ
unfolding now
stamps [] c = []
stamps (r ∷ rs) c = let (c', t) = now r c in t ∷ stamps rs c'
