-- ===== src/Server/Drain/Ending.antt =====
-- The wait for the tasks in flight of server.ts ends.
use l0_worker.Base.{
  ℕ, zero, suc, ◌+◌, ◌≤◌, ◌<◌, some, arith, ◌≡◌, ◌⊎◌, inl, inr, refl, Bool-cases, eqb,
}
use mathlib.Core.Path.{subst}
use native.Mathlib.Decide.{dec_lt}
use l0_worker.Base.Int.{ℤ, pos, pos_part, ◌-ℤ◌, ◌≤ℤ◌, ◌<ℤ◌, ltb_ℤ}
use l0_worker.Server.Drain.{Drained, drained, timed_out, wait_loop, max_wait_of, wait_for_drained}

module _ (inflight : ℕ → ℕ) (times : ℕ → ℕ) (start : ℕ) (max_wait : ℤ) where
  abbrev elapsed : ℕ → ℤ
  elapsed k = pos (times k) -ℤ pos start

  -- At the poll there are tasks in flight, and there is time left.
  abbrev pub Waiting : ℕ → Type 0
  Waiting k = (0 < inflight k) × (elapsed k ≤ℤ max_wait)

  -- The wait ends at the poll in this way.
  abbrev pub Ends : ℕ → Drained → Type 0
  Ends k o =
      ((inflight k ≡ 0) × (o ≡ drained))
      ⊎ ((0 < inflight k) × (max_wait <ℤ elapsed k) × (o ≡ timed_out (inflight k)))

  room : (k : ℕ) → start + k ≤ times k → Waiting k → k + 1 ≤ pos_part max_wait + 1
  room k h here = ground arith

  module _ (later : (k : ℕ) → times k < times (k + 1)) where
    wait_loop-Ends :
        (fuel k : ℕ)
        → start + k ≤ times k
        → pos_part max_wait + 1 < fuel + k
        → k ≤ pos_part max_wait + 1
        → (n : ℕ) × (o : Drained) × (wait_loop inflight times start max_wait fuel k ≡ some o)
          × (n ≤ pos_part max_wait + 1)
          × Ends n o
          × ((i : ℕ) → k ≤ i → i < n → Waiting i)
    unfolding wait_loop
    wait_loop-Ends zero k h enough small = absurd (omega arith)
    wait_loop-Ends (suc fuel) k h enough small = elim (Bool-cases (eqb (inflight k) 0)) [
      | inl empty ↦ (
        k,
        drained,
        rw empty refl,
        small,
        inl (ground arith, refl),
        λ i a b. absurd (omega arith),
      )
      | inr busy ↦ elim (Bool-cases (ltb_ℤ max_wait (elapsed k))) [
        | inl late ↦ (
          k,
          timed_out (inflight k),
          rw (busy, late) refl,
          small,
          inr (ground arith, ground arith, refl),
          λ i a b. absurd (omega arith),
        )
        | inr early ↦
            let here : Waiting k = (ground arith, ground arith) in
            let (n, o, run, bound, ends, before) =
              wait_loop-Ends fuel (k + 1) (omega (arith, later k)) (omega arith) (room k h here) in
            (
              n,
              o,
              rw (busy, early) run,
              bound,
              ends,
              λ i a b. elim (dec_lt k i) [
                | yes after ↦ before i (omega arith) b
                | no other ↦ let same : k ≡ i = omega arith in subst Waiting same here
              ],
            )
      ]
    ]

-- Wherever each poll reads a later time than the one before it, the first no earlier than the start, the wait
-- for the tasks in flight ends, after at most as many polls as the milliseconds that the buffer leaves, and
-- two more: at the first poll at which no task is in flight, with `worker.drained`; or at the first at
-- which the time is up while there are tasks in flight, with `worker.drained`, that it timed out and how
-- many tasks are pending. At every poll before that one there were tasks in flight and there was time left.
pub wait-Ends :
    (inflight times : ℕ → ℕ) (start fuel : ℕ) (drain_buffer_ms : ℤ)
    → ((k : ℕ) → times k < times (k + 1))
    → start ≤ times 0
    → pos_part (max_wait_of drain_buffer_ms) + 1 < fuel
    → (n : ℕ) × (o : Drained) × (wait_for_drained inflight times start drain_buffer_ms fuel
        ≡ some o)
      × (n ≤ pos_part (max_wait_of drain_buffer_ms) + 1)
      × Ends inflight times start (max_wait_of drain_buffer_ms) n o
      × ((i : ℕ) → i < n → Waiting inflight times start (max_wait_of drain_buffer_ms) i)
unfolding wait_for_drained
wait-Ends inflight times start fuel drain_buffer_ms later first enough =
    let max_wait : ℤ = max_wait_of drain_buffer_ms in
    let (n, o, run, bound, ends, before) =
      wait_loop-Ends inflight times start max_wait later fuel 0 (omega arith) (omega arith)
        (omega arith) in
    (n, o, run, bound, ends, λ i b. before i (omega arith) b)
