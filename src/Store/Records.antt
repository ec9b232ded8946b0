-- ===== src/Store/Records.antt =====
-- The store of store/memory-store.ts without a limit on its tasks, as the worker makes it: it is the
-- history of what was recorded, read by task.
use l0_worker.Base.{
  String, Bool, false, List, [], ◌∷◌, ◌++◌, ◌==◌, if◌then◌else◌, ap, or_else, arith, ◌≡◌, eq_iff,
  append_assoc, append-nil, sym, ◌||◌,
}
use l0_worker.Base.Int.{pos, ◌≤ℤ◌}
use l0_worker.Map
use l0_worker.Map.{Map}
use l0_worker.Map.Laws.{get-set, has-set, get-delete, has-delete}
use l0_worker.Event.Outbound.{OutboundEvent}
use l0_worker.Store.{
  MemoryEventStore, new, make_room, record_event, events_for_task, has_task, output_hash,
  first_hash, clear_task,
}

-- What was recorded, in order.
abbrev pub History : Type 0
History = List (String × OutboundEvent)

unfoldable pub record_all : History → MemoryEventStore → MemoryEventStore
record_all [] s = s
record_all ((t, e) ∷ h) s = record_all h (record_event t e s)

-- The events of a history that were recorded for a task, in order.
unfoldable pub select : String → History → List OutboundEvent
select j [] = []
select j ((t, e) ∷ h) = if t == j then e ∷ select j h else select j h

-- Whether a history has an event for a task.
unfoldable pub mentions : String → History → Bool
mentions j [] = false
mentions j ((t, e) ∷ h) = t == j || mentions j h

abbrev pub Unlimited : MemoryEventStore → Type 0
Unlimited s = s.max_tasks ≤ℤ pos 0

make_room-Unlimited : (t : String) (s : MemoryEventStore) → Unlimited s → make_room t s ≡ s
unfolding make_room
make_room-Unlimited t s u = ground arith

pub record_event-Unlimited :
    (t j : String) (e : OutboundEvent) (s : MemoryEventStore)
    → Unlimited s
    → (events_for_task j (record_event t e s)
        ≡ (if t == j then events_for_task j s ++ e ∷ [] else events_for_task j s))
      × (has_task j (record_event t e s) ≡ t == j || has_task j s)
      × Unlimited (record_event t e s)
unfolding record_event events_for_task has_task
record_event-Unlimited t j e s u = rw (make_room-Unlimited t s u) (
  ground (arith, get-set t j (or_else (Map.get t s.events) [] ++ e ∷ []) s.events, eq_iff t j),
  ground (arith, has-set t j (or_else (Map.get t s.events) [] ++ e ∷ []) s.events),
  u,
)

record_all_reads :
    (h : History) (j : String) (s : MemoryEventStore)
    → Unlimited s
    → (events_for_task j (record_all h s) ≡ events_for_task j s ++ select j h)
      × (has_task j (record_all h s) ≡ has_task j s || mentions j h)
unfolding record_all select mentions
record_all_reads [] j s u = (sym (append-nil _), ground arith)
record_all_reads ((t, e) ∷ h) j s u =
    let (events, tasks, u') = record_event-Unlimited t j e s u in
    let (later_events, later_tasks) = record_all_reads h j (record_event t e s) u' in
    ground (arith, append_assoc (events_for_task j s) (e ∷ []) (select j h))

-- In a store with no limit, after any history of recordings: reading a task gives exactly the events
-- recorded for it, in order, and no other; the store has exactly the tasks that the history
-- mentions; and a task's output hash is that of its first TASK_COMPLETED.
pub record_all_history :
    (h : History) (j : String)
    → (events_for_task j (record_all h (new (pos 0))) ≡ select j h)
      × (has_task j (record_all h (new (pos 0))) ≡ mentions j h)
      × (output_hash j (record_all h (new (pos 0))) ≡ first_hash (select j h))
unfolding output_hash
record_all_history h j =
    let (events, tasks) = record_all_reads h j (new (pos 0)) (omega arith) in
    let all_events : events_for_task j (record_all h (new (pos 0))) ≡ select j h =
      unfold events_for_task Map.get in events in
    (all_events, unfold has_task Map.has in tasks, ap first_hash all_events)

-- Clearing a task removes what is recorded of it and nothing else.
pub clear_task_reads :
    (t j : String) (s : MemoryEventStore)
    → (events_for_task j (clear_task t s) ≡ (if t == j then [] else events_for_task j s))
      × (has_task j (clear_task t s) ≡ (if t == j then false else has_task j s))
unfolding clear_task events_for_task has_task
clear_task_reads t j s =
    (ground (arith, get-delete t j s.events), ground (arith, has-delete t j s.events))
