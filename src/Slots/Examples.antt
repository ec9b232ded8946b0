-- ===== src/Slots/Examples.antt =====
-- Runs of executor/slots.ts.
use l0_worker.Base.{String, List, [], ◌∷◌, ◌≡◌, refl, arith}
use l0_worker.Base.Int.{pos, ◌≤ℤ◌}
use l0_worker.Thrown.{ok}
use l0_worker.Map
use l0_worker.Map.{HasDistinctKeys}
use l0_worker.Slots.{
  SlotManager, acquire, acquired, no_slots, duplicate, inflight_count, has_available_slot, new,
}
use l0_worker.Slots.Bounds.{run_bounded, run, IsValid, Op, op_acquire, op_release, op_set_max}

abbrev first : String
first = "a"

abbrev second : String
second = "b"

-- Two slots, of which "a" has one since the time 1.
abbrev one_taken : SlotManager
one_taken = record {
  slots = ("a", record { task_id = "a"; started_at = 1 }) ∷ [];
  max_concurrency = pos 2;
}

abbrev both_taken : SlotManager
both_taken = record {
  slots =
      ("a", record { task_id = "a"; started_at = 1 })
      ∷ ("b", record { task_id = "b"; started_at = 7 })
      ∷ [];
  max_concurrency = pos 2;
}

acquire_second : acquire 7 "b" one_taken ≡ (both_taken, acquired)
unfolding acquire Map.set Map.has has_available_slot
acquire_second = refl

acquire_full : acquire 8 "c" both_taken ≡ (both_taken, no_slots)
unfolding acquire Map.set Map.has has_available_slot
acquire_full = refl

acquire_again : acquire 8 "a" both_taken ≡ (both_taken, duplicate)
unfolding acquire Map.has
acquire_again = refl

one_taken_distinct : HasDistinctKeys one_taken.slots
unfolding Map.has
one_taken_distinct = (refl, tt)

abbrev none_taken : SlotManager
none_taken = record { slots = []; max_concurrency = pos 1 }

-- A second task is refused, the maximum is raised, and the task gets a slot.
abbrev retried : List Op
retried =
    op_acquire 1 "a"
    ∷ op_acquire 2 "b"
    ∷ op_set_max (pos 2)
    ∷ op_acquire 3 "b"
    ∷ op_release "a"
    ∷ []

new_one : new (pos 1) ≡ ok none_taken
unfolding new
new_one = ground arith

run_bounded_example :
    IsValid (run retried none_taken) × (pos (inflight_count (run retried none_taken)) ≤ℤ pos 3)
run_bounded_example =
    run_bounded (pos 1) (pos 3) none_taken retried new_one (ground arith) (ground arith)
