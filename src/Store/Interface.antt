-- ===== src/Store/Interface.antt =====
-- src/store/event-store.ts: what the rest of the worker asks of a store of events, and what it relies
-- on. `S` is the type of the store's states; a promise that resolves is its value.
use l0_worker.Base.{String, Bool, false, Option, List, [], ◌≡◌, refl, arith}
use l0_worker.Map.Laws.{has-eq-get}
use l0_worker.Event.Outbound.{OutboundEvent}
use l0_worker.Store.{
  MemoryEventStore, record_event, events_for_task, has_task, output_hash, first_hash, clear_task,
}

pub record EventStore (S : Type 0) : Type 0 where
  pub record_event : String → OutboundEvent → S → S
  pub events_for_task : String → S → List OutboundEvent
  pub has_task : String → S → Bool
  pub output_hash : String → S → Option String
  pub clear_task : String → S → S
  pub no_task_no_events : (t : String) (s : S) → has_task t s ≡ false → events_for_task t s ≡ []
  pub hash_of_events : (t : String) (s : S) → output_hash t s ≡ first_hash (events_for_task t s)

pub memory_no_events :
    (t : String) (s : MemoryEventStore) → has_task t s ≡ false → events_for_task t s ≡ []
unfolding has_task events_for_task
memory_no_events t s h = ground (arith, has-eq-get t s.events)

pub memory_hash :
    (t : String) (s : MemoryEventStore) → output_hash t s ≡ first_hash (events_for_task t s)
unfolding output_hash
memory_hash t s = refl

-- The store in memory is such a store.
abbrev pub memory_store : EventStore MemoryEventStore
memory_store = record {
  record_event = record_event;
  events_for_task = events_for_task;
  has_task = has_task;
  output_hash = output_hash;
  clear_task = clear_task;
  no_task_no_events = memory_no_events;
  hash_of_events = memory_hash;
}
