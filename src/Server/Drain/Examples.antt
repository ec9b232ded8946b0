-- ===== src/Server/Drain/Examples.antt =====
-- Runs of waitForDrained of server.ts.
use l0_worker.Base.{ℕ, ◌+◌, ◌*◌, ◌-◌, ◌≤◌, ◌<◌, some, arith, ◌≡◌, refl}
use l0_worker.Base.Int.{pos}
use l0_worker.Server.Drain.{Drained, drained, timed_out, wait_for_drained}
use l0_worker.Server.Drain.Ending.{wait-Ends, Ends, Waiting}

-- Three tasks end one after the other.
abbrev leaving : ℕ → ℕ
leaving k = 3 - k

abbrev times : ℕ → ℕ
times k = 50 * k + 100

wait-Ends_example :
    (n : ℕ) × (o : Drained) × (wait_for_drained leaving times 100 (pos 5000) 5000 ≡ some o)
    × (n ≤ 4901)
    × Ends leaving times 100 (pos 4900) n o
    × ((i : ℕ) → i < n → Waiting leaving times 100 (pos 4900) i)
wait-Ends_example =
    wait-Ends leaving times 100 5000 (pos 5000) (λ k. omega arith) (omega arith) (omega arith)

all_leave : wait_for_drained leaving times 100 (pos 5000) 10 ≡ some drained
unfolding wait_for_drained
all_leave = refl

-- With a buffer of 200 ms the time is up at the fourth poll.
time_is_up : wait_for_drained (λ k. 2) times 100 (pos 200) 10 ≡ some (timed_out 2)
unfolding wait_for_drained
time_is_up = refl
