-- ===== src/Store.antt =====
-- src/store/memory-store.ts: recorded events in memory, by task. A task's list of events is handed
-- out by reference in the source; no caller changes it, and here it is a value.
pub mod Interface
pub mod Records
pub mod Eviction
mod Examples
use l0_worker.Base.{
  ℕ, String, Bool, true, false, not, ◌&&◌, Option, none, some, List, [], ◌∷◌, ◌++◌, ◌==◌,
  if◌then◌else◌, or_else, leb, ltb,
}
use l0_worker.Base.Int.{ℤ, pos, ltb_ℤ, leb_ℤ}
use l0_worker.Map
use l0_worker.Map.{Map}
use l0_worker.Event.Outbound.{OutboundEvent, task_completed}

pub record MemoryEventStore : Type 0 where
  pub events : Map (List OutboundEvent)
  pub max_tasks : ℤ

-- new MemoryEventStore(maxTasks)
abbrev pub new : ℤ → MemoryEventStore
new max_tasks = record { events = []; max_tasks = max_tasks }

-- The oldest key, unless there is none or it is the empty text, which is falsy.
unfoldable pub evict_oldest : Map (List OutboundEvent) → Map (List OutboundEvent)
evict_oldest [] = []
evict_oldest ((oldest, es) ∷ m) =
    if oldest == "" then (oldest, es) ∷ m else Map.delete oldest ((oldest, es) ∷ m)

unfoldable pub make_room : String → MemoryEventStore → MemoryEventStore
unfolding evict_oldest
make_room task_id s =
    if ltb_ℤ (pos 0) s.max_tasks
      && not (Map.has task_id s.events)
      && leb_ℤ s.max_tasks (pos (Map.size s.events))
    then record s { events = evict_oldest s.events }
    else s

unfoldable pub events_for_task : String → MemoryEventStore → List OutboundEvent
events_for_task task_id s = or_else (Map.get task_id s.events) []

-- record(taskId, event)
unfoldable pub record_event : String → OutboundEvent → MemoryEventStore → MemoryEventStore
unfolding make_room events_for_task
record_event task_id event s =
    let t = make_room task_id s in
    record t { events = Map.set task_id (events_for_task task_id t ++ event ∷ []) t.events }

unfoldable pub has_task : String → MemoryEventStore → Bool
has_task task_id s = Map.has task_id s.events

-- The loop of `getOutputHash`: the first TASK_COMPLETED.
unfoldable pub first_hash : List OutboundEvent → Option String
first_hash [] = none
first_hash (task_completed e ∷ es) = some e.output_hash
first_hash (_ ∷ es) = first_hash es

unfoldable pub output_hash : String → MemoryEventStore → Option String
unfolding first_hash events_for_task
output_hash task_id s = first_hash (events_for_task task_id s)

unfoldable pub clear_task : String → MemoryEventStore → MemoryEventStore
clear_task task_id s = record s { events = Map.delete task_id s.events }

unfoldable pub clear : MemoryEventStore → MemoryEventStore
clear s = record s { events = [] }

unfoldable pub size : MemoryEventStore → ℕ
size s = Map.size s.events
