-- ===== src/Store/Examples.antt =====
-- Runs of store/memory-store.ts.
use l0_worker.Base.{String, [], ◌∷◌, ◌++◌, ◌≡◌, ◌≢◌, refl, arith, texts_differ}
use l0_worker.Base.Int.{ℤ, pos, ◌<ℤ◌}
use l0_worker.Map
use l0_worker.Event.Outbound.{OutboundEvent, task_accepted}
use l0_worker.Store.{MemoryEventStore, record_event, size}
use l0_worker.Store.Records.{History, record_all}
use l0_worker.Store.Eviction.{
  AllNamed, IsValid, IsFull, IsBounded, task_ids, record_all-IsBounded, behind_empty,
  empty_name_never_evicted,
}

abbrev accepted : String → OutboundEvent
accepted t = task_accepted (record { task_id = t; worker_id = "w1"; ts = 1 })

abbrev name_a : String
name_a = "a"

abbrev name_b : String
name_b = "b"

b_named : name_b ≢ ""
b_named = texts_differ name_b "" refl

a_named : name_a ≢ ""
a_named = texts_differ name_a "" refl

abbrev history : History
history = (name_a, accepted "a") ∷ (name_b, accepted "b") ∷ (name_a, accepted "a") ∷ []

history_named : AllNamed history
history_named = (a_named, (b_named, (a_named, tt)))

abbrev only_a : ℤ → MemoryEventStore
only_a limit = record { events = (name_a, accepted "a" ∷ []) ∷ []; max_tasks = limit }

only_a_valid : IsValid (only_a (pos 1))
unfolding Map.has
only_a_valid = record { distinct = (refl, tt); named = refl }

only_a-IsBounded : IsBounded (only_a (pos 1))
unfolding size
only_a-IsBounded = ground arith

record_all-IsBounded_example : IsBounded (record_all history (only_a (pos 1)))
record_all-IsBounded_example =
    record_all-IsBounded history (only_a (pos 1)) history_named only_a_valid only_a-IsBounded

only_empty-IsFull : IsFull (behind_empty [] [] (pos 1))
unfolding size
only_empty-IsFull = ground arith

empty_name_never_evicted_example :
    (pos 1 <ℤ pos (size (record_event name_b (accepted "b") (behind_empty [] [] (pos 1)))))
    × (task_ids (record_event name_b (accepted "b") (behind_empty [] [] (pos 1)))
        ≡ "" ∷ ([] ++ name_b ∷ []))
empty_name_never_evicted_example =
    empty_name_never_evicted name_b (accepted "b") [] [] (pos 1) b_named (unfold Map.has in refl)
      only_empty-IsFull
