-- ===== src/Store/Eviction.antt =====
-- The limit on tasks of store/memory-store.ts: first in, first out.
use l0_worker.Base.{
  suc, ◌<◌, String, true, false, List, [], ◌∷◌, ◌++◌, arith, ◌≡◌, ◌≢◌, refl, eq_iff, eq_refl, All,
}
use l0_worker.Base.Int.{ℤ, pos, ◌≤ℤ◌, ◌<ℤ◌}
use l0_worker.Map
use l0_worker.Map.{Map, HasDistinctKeys}
use l0_worker.Map.Laws.{
  set-HasDistinctKeys, delete-HasDistinctKeys, delete_absent, has-delete, has-set,
}
use l0_worker.Map.Size.{size-set, keys-set}
use l0_worker.Event.Outbound.{OutboundEvent}
use l0_worker.Store.{
  MemoryEventStore, make_room, record_event, has_task, size, evict_oldest, events_for_task,
}
use l0_worker.Store.Records.{History, record_all}

-- Keys are distinct and none of them is the empty text.
pub record IsValid (s : MemoryEventStore) : Type 0 where
  pub distinct : HasDistinctKeys s.events
  pub named : Map.has "" s.events ≡ false

abbrev pub task_ids : MemoryEventStore → List String
task_ids s = Map.keys s.events

abbrev pub IsFull : MemoryEventStore → Type 0
IsFull s = (pos 0 <ℤ s.max_tasks) × (s.max_tasks ≤ℤ pos (size s))

abbrev pub drop_first : List String → List String
drop_first [] = []
drop_first (k ∷ ks) = ks

keys-evict_oldest :
    (m : Map (List OutboundEvent))
    → HasDistinctKeys m
    → Map.has "" m ≡ false
    → Map.keys (evict_oldest m) ≡ drop_first (Map.keys m)
unfolding evict_oldest Map.delete Map.has
keys-evict_oldest [] d n = refl
keys-evict_oldest ((k, es) ∷ m) d n = ground (arith, eq_refl k, delete_absent k m d.0)

has-evict_oldest :
    (t : String) (m : Map (List OutboundEvent))
    → Map.has t m ≡ false
    → Map.has t (evict_oldest m) ≡ false
unfolding evict_oldest
has-evict_oldest t [] n = n
has-evict_oldest t ((k, es) ∷ m) n = ground (arith, has-delete k t ((k, es) ∷ m))

kept_room : (t : String) (s : MemoryEventStore) → Map.has t s.events ≡ true → make_room t s ≡ s
unfolding make_room
kept_room t s old = ground arith

full_room :
    (t : String) (s : MemoryEventStore)
    → Map.has t s.events ≡ false
    → IsFull s
    → make_room t s ≡ record s { events = evict_oldest s.events }
unfolding make_room size
full_room t s fresh full = ground arith

free_room : (t : String) (s : MemoryEventStore) → ¬ (IsFull s) → make_room t s ≡ s
unfolding make_room size
free_room t s free = ground arith

-- A recording for a task that the store has leaves the tasks and their order as they are; one for a
-- new task puts it last, and when the store is full, and only then, drops the oldest task, that is
-- the first, with its events.
pub record_order :
    (t : String) (e : OutboundEvent) (s : MemoryEventStore)
    → IsValid s
    → (has_task t s ≡ true → task_ids (record_event t e s) ≡ task_ids s)
      × (has_task t s ≡ false
          → IsFull s
          → task_ids (record_event t e s) ≡ drop_first (task_ids s) ++ t ∷ [])
      × (has_task t s ≡ false → ¬ (IsFull s) → task_ids (record_event t e s) ≡ task_ids s ++ t ∷ [])
unfolding has_task record_event size
record_order t e s v =
    let room = make_room t s in
    let es = events_for_task t room ++ e ∷ [] in
    (
      λ old. ground (arith, kept_room t s old, keys-set t es room.events),
      λ fresh full. ground (
        arith,
        full_room t s fresh full,
        keys-set t es room.events,
        keys-evict_oldest s.events v.distinct v.named,
        has-evict_oldest t s.events fresh,
      ),
      λ fresh open_slot. ground (arith, free_room t s open_slot, keys-set t es room.events),
    )

size-evict_oldest :
    (m : Map (List OutboundEvent))
    → HasDistinctKeys m
    → Map.has "" m ≡ false
    → m ≢ []
    → Map.size m ≡ suc (Map.size (evict_oldest m))
unfolding evict_oldest Map.delete Map.has
size-evict_oldest [] d n ne = absurd (ne refl)
size-evict_oldest ((k, es) ∷ m) d n ne = ground (arith, eq_refl k, delete_absent k m d.0)

evict_oldest-HasDistinctKeys :
    (m : Map (List OutboundEvent)) → HasDistinctKeys m → HasDistinctKeys (evict_oldest m)
unfolding evict_oldest
evict_oldest-HasDistinctKeys [] d = d
evict_oldest-HasDistinctKeys ((k, es) ∷ m) d =
    ground (arith, delete-HasDistinctKeys k ((k, es) ∷ m) d)

make_room-IsValid : (t : String) (s : MemoryEventStore) → IsValid s → IsValid (make_room t s)
unfolding make_room
make_room-IsValid t s v =
    ground (
      arith,
      evict_oldest-HasDistinctKeys s.events v.distinct,
      has-evict_oldest "" s.events v.named,
    )

-- Recording keeps the store's keys distinct, and named if the new one is not the empty text.
pub record-IsValid :
    (t : String) (e : OutboundEvent) (s : MemoryEventStore)
    → t ≢ ""
    → IsValid s
    → IsValid (record_event t e s)
unfolding record_event
record-IsValid t e s ne v =
    let room = make_room t s in
    let valid = make_room-IsValid t s v in
    let es = events_for_task t room ++ e ∷ [] in
    record {
      distinct = set-HasDistinctKeys t es room.events valid.distinct;
      named = ground (arith, has-set t "" es room.events, eq_iff t "", valid.named);
    }

-- The limit: it is on, and no more tasks are stored than it allows.
abbrev pub IsBounded : MemoryEventStore → Type 0
IsBounded s = (pos 0 <ℤ s.max_tasks) × (pos (size s) ≤ℤ s.max_tasks)

size-ne-nil : (m : Map (List OutboundEvent)) → 0 < Map.size m → m ≢ []
size-ne-nil [] h e = omega arith
size-ne-nil (x ∷ m) h e = cc

record-IsBounded :
    (t : String) (e : OutboundEvent) (s : MemoryEventStore)
    → IsValid s
    → IsBounded s
    → IsBounded (record_event t e s)
unfolding record_event make_room size
record-IsBounded t e s v b = ground (
  arith,
  size-evict_oldest s.events v.distinct v.named,
  size-ne-nil s.events,
  size-set t (events_for_task t (make_room t s) ++ e ∷ []) (make_room t s).events,
  has-evict_oldest t s.events,
)

-- The tasks of a history have names.
abbrev pub AllNamed : History → Type 0
AllNamed h = All (λ (r : String × OutboundEvent). r.0 ≢ "") h

-- With a limit, and whatever is recorded for tasks with non-empty names, the store never holds more
-- tasks than the limit.
pub record_all-IsBounded :
    (h : History) (s : MemoryEventStore)
    → AllNamed h
    → IsValid s
    → IsBounded s
    → IsBounded (record_all h s)
unfolding record_all
record_all-IsBounded [] s n v b = b
record_all-IsBounded ((t, e) ∷ h) s n v b =
    record_all-IsBounded h (record_event t e s) n.1 (record-IsValid t e s n.0 v)
      (record-IsBounded t e s v b)

-- A store whose oldest task has the empty text for a name.
abbrev pub behind_empty : List OutboundEvent → Map (List OutboundEvent) → ℤ → MemoryEventStore
behind_empty es m limit = record { events = ("", es) ∷ m; max_tasks = limit }

-- A task whose name is the empty text, once it is the oldest of a full store, is never evicted: every
-- new task then adds to the store, beyond the limit, and the empty name stays the oldest.
pub empty_name_never_evicted :
    (t : String) (e : OutboundEvent) (es : List OutboundEvent) (m : Map (List OutboundEvent))
    (limit : ℤ)
    → t ≢ ""
    → Map.has t m ≡ false
    → IsFull (behind_empty es m limit)
    → (limit <ℤ pos (size (record_event t e (behind_empty es m limit))))
      × (task_ids (record_event t e (behind_empty es m limit)) ≡ "" ∷ (Map.keys m ++ t ∷ []))
unfolding record_event make_room evict_oldest size Map.has Map.set
empty_name_never_evicted t e es m limit ne fresh full =
    let new_events = events_for_task t (behind_empty es m limit) ++ e ∷ [] in
    ground (
      arith,
      eq_iff "" t,
      eq_refl "",
      keys-set t new_events m,
      size-set t new_events m,
      full.0,
      full.1,
    )
