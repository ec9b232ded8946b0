-- ===== src/Slots.antt =====
-- src/executor/slots.ts: the slot manager. A reading of `Date.now()` is an argument, and a method
-- that changes the object returns the new one.
pub mod Branches
pub mod Bounds
mod Examples
use l0_worker.Base.{
  ℕ, String, Bool, true, false, not, Option, none, some, List, [], ◌∷◌, if◌then◌else◌,
}
use l0_worker.Base.Int.{ℤ, pos, ◌-ℤ◌, ltb_ℤ, max_ℤ}
use l0_worker.Map
use l0_worker.Map.{Map}
use l0_worker.Thrown.{Result, ok, err, new_error}

pub record SlotInfo : Type 0 where
  pub task_id : String
  pub started_at : ℕ

pub record SlotManager : Type 0 where
  pub slots : Map SlotInfo
  pub max_concurrency : ℤ

-- The check of the setter, which the constructor calls too.
unfoldable pub check_concurrency : ℤ → Result ℤ
check_concurrency value =
    if ltb_ℤ value (pos 1) then err (new_error "maxConcurrency must be at least 1") else ok value

-- new SlotManager(maxConcurrency)
unfoldable pub new : ℤ → Result SlotManager
unfolding check_concurrency
new max_concurrency = elim (check_concurrency max_concurrency) [
  | err e ↦ err e
  | ok value ↦ ok (record { slots = []; max_concurrency = value })
]

-- set maxConcurrency(value)
unfoldable pub set_max_concurrency : ℤ → SlotManager → Result SlotManager
unfolding check_concurrency
set_max_concurrency value s = elim (check_concurrency value) [
  | err e ↦ err e
  | ok v ↦ ok (record s { max_concurrency = v })
]

unfoldable pub inflight_count : SlotManager → ℕ
inflight_count s = Map.size s.slots

unfoldable pub available_count : SlotManager → ℤ
available_count s = max_ℤ (pos 0) (s.max_concurrency -ℤ pos (Map.size s.slots))

unfoldable pub has_available_slot : SlotManager → Bool
has_available_slot s = ltb_ℤ (pos (Map.size s.slots)) s.max_concurrency

pub data Acquired : Type 0 where
  acquired no_slots duplicate : Acquired

-- acquire(taskId), at the time `now`
unfoldable pub acquire : ℕ → String → SlotManager → SlotManager × Acquired
unfolding has_available_slot
acquire now task_id s =
    if Map.has task_id s.slots
    then (s, duplicate)
    else if not (has_available_slot s)
    then (s, no_slots)
    else (
      record s { slots = Map.set task_id (record { task_id = task_id; started_at = now }) s.slots },
      acquired,
    )

-- release(taskId): true if the task had a slot
unfoldable pub release : String → SlotManager → SlotManager × Bool
release task_id s = (record s { slots = Map.delete task_id s.slots }, Map.has task_id s.slots)

unfoldable pub has_slot : String → SlotManager → Bool
has_slot task_id s = Map.has task_id s.slots

unfoldable pub inflight_task_ids : SlotManager → List String
inflight_task_ids s = Map.keys s.slots

unfoldable pub slot_info : String → SlotManager → Option SlotInfo
slot_info task_id s = Map.get task_id s.slots

unfoldable pub clear : SlotManager → SlotManager
clear s = record s { slots = [] }
