-- ===== src/Replay/Examples.antt =====
-- Runs of replay/replayer.ts.
use l0_worker.Base.{◌≤◌, String, true, none, some, List, [], ◌∷◌, length, ◌↔◌, ◌≡◌, refl, arith}
use l0_worker.Base.Int.{pos}
use l0_worker.Map
use l0_worker.Event.Outbound.{OutboundEvent, task_completed}
use l0_worker.Store.{MemoryEventStore, new, events_for_task, output_hash, first_hash}
use l0_worker.Store.Interface.{memory_store}
use l0_worker.Store.Records.{History, record_all, select, mentions}
use l0_worker.Replay.{replay, replay_with_validation, can_replay, recorded_output_hash}
use l0_worker.Replay.Exactness.{replay_exact, replay_history}
use l0_worker.Replay.Hashes.{last_hash, completions}

abbrev done : String → OutboundEvent
done hash = task_completed (record {
  task_id = "a";
  worker_id = "w1";
  final_metrics = record {
    duration_ms = pos 3;
    token_count = 1;
    prompt_tokens = none;
    completion_tokens = none;
  };
  output_hash = hash;
  output = "text";
  ts = 9;
})

-- A store with one task, which has these events.
abbrev with_events : List OutboundEvent → MemoryEventStore
with_events es = record { events = ("a", es) ∷ []; max_tasks = pos 0 }

abbrev once : MemoryEventStore
once = with_events (done "h1" ∷ [])

abbrev twice : MemoryEventStore
twice = with_events (done "h1" ∷ done "h2" ∷ [])

events_once : events_for_task "a" once ≡ done "h1" ∷ []
unfolding events_for_task Map.get
events_once = refl

once_completed : completions (events_for_task "a" once) ≤ 1
unfolding events_for_task Map.get completions
once_completed = ground arith

recorded_once : recorded_output_hash memory_store "a" once ≡ some "h1"
unfolding recorded_output_hash output_hash first_hash events_for_task Map.get
recorded_once = refl

recorded_twice : recorded_output_hash memory_store "a" twice ≡ some "h1"
unfolding recorded_output_hash output_hash first_hash events_for_task Map.get
recorded_twice = refl

last_twice : last_hash (events_for_task "a" twice) none ≡ some "h2"
unfolding events_for_task Map.get last_hash
last_twice = refl

replay_exact_example :
    let (emitted, result) = replay_with_validation memory_store "a" none once in
    (emitted ≡ events_for_task "a" once)
    × (emitted ≡ replay memory_store "a" once)
    × (result.success ≡ can_replay memory_store "a" once)
    × (result.events_replayed ≡ length emitted)
    × ((result.error ≡ none) ↔ (can_replay memory_store "a" once ≡ true))
replay_exact_example = replay_exact memory_store "a" none once

abbrev two_tasks : History
two_tasks = ("a", done "h1") ∷ ("b", done "h2") ∷ []

replay_history_example :
    let (emitted, result) =
      replay_with_validation memory_store "a" (some "h1") (record_all two_tasks (new (pos 0))) in
    (emitted ≡ select "a" two_tasks)
    × (result.success ≡ mentions "a" two_tasks)
    × (result.events_replayed ≡ length (select "a" two_tasks))
replay_history_example = replay_history two_tasks "a" (some "h1")
