-- ===== src/Slots/Branches.antt =====
-- What one call of acquire or release of executor/slots.ts does, on each of its branches.
use l0_worker.Base.{
  ℕ, ◌+◌, String, true, false, some, [], ◌∷◌, ◌++◌, if◌then◌else◌, arith, ◌≡◌, ◌≢◌, ◌↔◌, refl,
  eq_refl, eq_iff,
}
use l0_worker.Base.Int.{pos, ◌≤ℤ◌, ◌<ℤ◌, ◌+ℤ◌}
use mathlib.Core.List.{map-append}
use l0_worker.Map
use l0_worker.Map.{Map, HasDistinctKeys}
use l0_worker.Map.Laws.{has-set, has-delete, delete-set, get-set, get-delete}
use l0_worker.Map.Size.{size-set, size-delete, set_new}
use l0_worker.Slots.{
  SlotManager, SlotInfo, acquired, no_slots, duplicate, acquire, release, has_slot, inflight_count,
  inflight_task_ids, available_count, has_available_slot, slot_info,
}

-- `acquire` reports a duplicate exactly for a task that has a slot; it reports that there are no
-- slots exactly for any other task while the slots in use reach the maximum; and in both cases
-- leaves the manager as it was. Otherwise, and only then, the slot is acquired.
pub acquire_refusals :
    (now : ℕ) (t : String) (s : SlotManager)
    → (((acquire now t s).1 ≡ duplicate) ↔ (has_slot t s ≡ true))
      × (((acquire now t s).1 ≡ no_slots)
          ↔ ((has_slot t s ≡ false) × (s.max_concurrency ≤ℤ pos (inflight_count s))))
      × ((acquire now t s).1 ≢ acquired → (acquire now t s).0 ≡ s)
unfolding acquire has_slot inflight_count
acquire_refusals now t s = (
  (λ h. ground arith, λ h. ground arith),
  (λ h. ground arith, λ h. ground arith),
  λ h. ground arith,
)

abbrev slot : ℕ → String → SlotInfo
slot now t = record { task_id = t; started_at = now }

acquire_shape :
    (now : ℕ) (t : String) (s s' : SlotManager)
    → acquire now t s ≡ (s', acquired)
    → (s' ≡ record s { slots = Map.set t (slot now t) s.slots })
      × (Map.has t s.slots ≡ false)
      × (pos (Map.size s.slots) <ℤ s.max_concurrency)
unfolding acquire
acquire_shape now t s s' h = ground arith

keys-append :
    (t : String) (v : SlotInfo) (m : Map SlotInfo)
    → Map.keys (m ++ (t, v) ∷ []) ≡ Map.keys m ++ t ∷ []
keys-append t v m = rw map-append

-- An acquired slot is one more slot in use, for the task that asked, started now and listed last;
-- no other task's slot changes, the maximum stays, and there was room: the slots in use after the
-- call do not exceed it.
pub acquire_acquired :
    (now : ℕ) (t j : String) (s s' : SlotManager)
    → acquire now t s ≡ (s', acquired)
    → (slot_info t s' ≡ some (record { task_id = t; started_at = now }))
      × (t ≢ j → slot_info j s' ≡ slot_info j s)
      × (inflight_count s' ≡ inflight_count s + 1)
      × (inflight_task_ids s' ≡ inflight_task_ids s ++ t ∷ [])
      × (s'.max_concurrency ≡ s.max_concurrency)
      × (pos (inflight_count s') ≤ℤ s'.max_concurrency)
unfolding slot_info inflight_count inflight_task_ids
acquire_acquired now t j s s' h =
    let (e, fresh, room) = acquire_shape now t s s' h in
    let info = slot now t in
    rw e (
      rw (get-set t t info s.slots, eq_refl t) refl,
      λ ne. ground (arith, get-set t j info s.slots, eq_iff t j),
      ground (arith, size-set t info s.slots),
      rw (set_new t info s.slots fresh) (keys-append t info s.slots),
      refl,
      ground (arith, size-set t info s.slots),
    )

-- A slot that was acquired and is then released leaves the manager exactly as it was before, and the
-- release reports that it freed a slot.
pub release-acquire :
    (now : ℕ) (t : String) (s s' : SlotManager)
    → acquire now t s ≡ (s', acquired)
    → release t s' ≡ (s, true)
unfolding release
release-acquire now t s s' h =
    let (e, fresh, room) = acquire_shape now t s s' h in
    let info = slot now t in
    rw e (ground (arith, delete-set t info s.slots, has-set t t info s.slots, eq_refl t))

-- `release` reports whether the task had a slot; afterwards that task has none, no other task's slot
-- has changed, and one slot less is in use if there was one to free.
pub release_effect :
    (t j : String) (s : SlotManager)
    → HasDistinctKeys s.slots
    → ((release t s).1 ≡ has_slot t s)
      × (has_slot t (release t s).0 ≡ false)
      × (t ≢ j → slot_info j (release t s).0 ≡ slot_info j s)
      × (inflight_count s ≡ (
          if has_slot t s
          then inflight_count (release t s).0 + 1
          else inflight_count (release t s).0))
      × ((release t s).0.max_concurrency ≡ s.max_concurrency)
unfolding release has_slot slot_info inflight_count
release_effect t j s d = (
  refl,
  ground (arith, has-delete t t s.slots, eq_refl t),
  λ ne. ground (arith, get-delete t j s.slots, eq_iff t j),
  ground (arith, size-delete t s.slots d),
  refl,
)

-- There is an available slot exactly when the number of available slots is not 0, and the slots in
-- use and the available ones add up to the maximum unless more slots than that are in use.
pub available_count_exact :
    (s : SlotManager)
    → ((has_available_slot s ≡ true) ↔ (pos 1 ≤ℤ available_count s))
      × (pos (inflight_count s) ≤ℤ s.max_concurrency
          → pos (inflight_count s) +ℤ available_count s ≡ s.max_concurrency)
      × (s.max_concurrency ≤ℤ pos (inflight_count s) → available_count s ≡ pos 0)
unfolding has_available_slot available_count inflight_count
available_count_exact s = ground arith
