-- ===== src/Slots/Bounds.antt =====
-- What holds of the slot manager of executor/slots.ts between any two calls of its methods.
use l0_worker.Base.{ℕ, String, List, [], ◌∷◌, arith, ◌≡◌, refl, All, eq_iff}
use l0_worker.Base.Int.{ℤ, pos, ◌≤ℤ◌}
use l0_worker.Map
use l0_worker.Map.{Map, HasDistinctKeys}
use l0_worker.Map.Laws.{set-HasDistinctKeys, delete-HasDistinctKeys}
use l0_worker.Map.Size.{size-set, size-delete}
use l0_worker.Thrown.{Result, ok, err}
use l0_worker.Slots.{
  SlotManager, SlotInfo, new, acquire, release, clear, set_max_concurrency, inflight_count,
}

-- The names of the tasks in the entries are their keys.
abbrev pub NamesItself : String × SlotInfo → Type 0
NamesItself e = e.1.task_id ≡ e.0

-- Every task has one slot at most, each entry names the task that holds it, and the maximum is at
-- least 1.
pub record IsValid (s : SlotManager) : Type 0 where
  pub distinct : HasDistinctKeys s.slots
  pub named : All NamesItself s.slots
  pub positive : pos 1 ≤ℤ s.max_concurrency

set-named :
    (t : String) (info : SlotInfo) (m : Map SlotInfo)
    → info.task_id ≡ t
    → All NamesItself m
    → All NamesItself (Map.set t info m)
unfolding Map.set
set-named t info [] e h = (e, tt)
set-named t info ((k, i) ∷ m) e h = ground (arith, eq_iff k t, set-named t info m e h.1)

delete-named :
    (t : String) (m : Map SlotInfo) → All NamesItself m → All NamesItself (Map.delete t m)
unfolding Map.delete
delete-named t [] h = tt
delete-named t ((k, i) ∷ m) h = ground (arith, delete-named t m h.1)

-- A call of a method that changes the manager; a setter's call that throws changes nothing.
pub data Op : Type 0 where
  op_acquire : ℕ → String → Op
  op_release : String → Op
  op_set_max : ℤ → Op
  op_clear : Op

abbrev kept : SlotManager → Result SlotManager → SlotManager
kept s (ok s') = s'
kept s (err e) = s

unfoldable pub apply : Op → SlotManager → SlotManager
apply (op_acquire now t) s = (acquire now t s).0
apply (op_release t) s = (release t s).0
apply (op_set_max v) s = kept s (set_max_concurrency v s)
apply op_clear s = clear s

unfoldable pub run : List Op → SlotManager → SlotManager
run [] s = s
run (o ∷ os) s = run os (apply o s)

new-IsValid : (v : ℤ) (s : SlotManager) → new v ≡ ok s → IsValid s
unfolding new
new-IsValid v s h = ground arith

apply-IsValid : (o : Op) (s : SlotManager) → IsValid s → IsValid (apply o s)
unfolding apply acquire release set_max_concurrency clear
apply-IsValid (op_acquire now t) s v =
    let info : SlotInfo = record { task_id = t; started_at = now } in
    ground
      (arith, set-HasDistinctKeys t info s.slots v.distinct, set-named t info s.slots refl v.named)
apply-IsValid (op_release t) s v = record {
  distinct = delete-HasDistinctKeys t s.slots v.distinct;
  named = delete-named t s.slots v.named;
  positive = v.positive;
}
apply-IsValid (op_set_max n) s v = ground arith
apply-IsValid op_clear s v = record { distinct = tt; named = tt; positive = v.positive }

run-IsValid : (os : List Op) (s : SlotManager) → IsValid s → IsValid (run os s)
unfolding run
run-IsValid [] s v = v
run-IsValid (o ∷ os) s v = run-IsValid os (apply o s) (apply-IsValid o s v)

-- The maxima that the calls set are at most `bound`.
abbrev pub SetsAtMost : ℤ → Op → Type 0
SetsAtMost bound (op_set_max v) = v ≤ℤ bound
SetsAtMost bound _ = Unit

abbrev Capped : ℤ → SlotManager → Type 0
Capped bound s = (s.max_concurrency ≤ℤ bound) × (pos (inflight_count s) ≤ℤ bound)

apply-Capped :
    (bound : ℤ) (o : Op) (s : SlotManager)
    → IsValid s
    → SetsAtMost bound o
    → Capped bound s
    → Capped bound (apply o s)
unfolding apply acquire release set_max_concurrency clear inflight_count
apply-Capped bound (op_acquire now t) s v b c =
    ground (arith, size-set t (record { task_id = t; started_at = now }) s.slots)
apply-Capped bound (op_release t) s v b c = ground (arith, size-delete t s.slots v.distinct)
apply-Capped bound (op_set_max n) s v b c = ground arith
apply-Capped bound op_clear s v b c = ground arith

run-Capped :
    (bound : ℤ) (os : List Op) (s : SlotManager)
    → IsValid s
    → All (SetsAtMost bound) os
    → Capped bound s
    → Capped bound (run os s)
unfolding run
run-Capped bound [] s v b c = c
run-Capped bound (o ∷ os) s v b c =
    run-Capped bound os (apply o s) (apply-IsValid o s v) b.1 (apply-Capped bound o s v b.0 c)

new-Capped :
    (initial bound : ℤ) (s : SlotManager) → new initial ≡ ok s → initial ≤ℤ bound → Capped bound s
unfolding new inflight_count
new-Capped initial bound s h le = ground arith

-- From construction on, whatever methods are called in whatever order, the manager is valid, and no
-- more slots are in use than the largest maximum that was ever set: any bound on the constructor's
-- maximum and on those that the calls set bounds the slots in use.
pub run_bounded :
    (initial bound : ℤ) (s : SlotManager) (os : List Op)
    → new initial ≡ ok s
    → initial ≤ℤ bound
    → All (SetsAtMost bound) os
    → IsValid (run os s) × (pos (inflight_count (run os s)) ≤ℤ bound)
run_bounded initial bound s os h le b =
    let valid = new-IsValid initial s h in
    (run-IsValid os s valid, (run-Capped bound os s valid b (new-Capped initial bound s h le)).1)
