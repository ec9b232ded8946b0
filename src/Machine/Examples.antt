-- ===== src/Machine/Examples.antt =====
-- Runs of state/machine.ts.
use l0_worker.Base.{◌<◌, true, false, List, [], ◌∷◌, ◌≡◌, ◌↔◌, inl, refl}
use l0_worker.Thrown.{ok}
use l0_worker.Machine.{
  WorkerState, WorkerStateMachine, Notice, boot, ready, accepting, draining, offline, transition,
  is_accepting, is_offline, new,
}
use l0_worker.Machine.Lifecycle.{transition_iff, draining_final, moves, age, here, next, move}

abbrev heard : WorkerState → WorkerStateMachine
heard s = record { state = s; listeners = 3 ∷ 5 ∷ [] }

abbrev to_draining : List Notice
to_draining =
    record { listener = 3; from = accepting; to = draining }
    ∷ record { listener = 5; from = accepting; to = draining }
    ∷ []

drained : transition draining (heard accepting) ≡ ok (heard draining, to_draining)
unfolding transition
drained = refl

stopped :
    transition offline (heard draining)
    ≡ ok (
      heard offline,
      record { listener = 3; from = draining; to = offline }
          ∷ record { listener = 5; from = draining; to = offline }
          ∷ [],
    )
unfolding transition
stopped = refl

transition_iff_example :
    ((n : WorkerStateMachine) × (calls : List Notice) × (transition offline (heard ready)
        ≡ ok (n, calls))
      × (n.state ≡ offline))
    ↔ ((age ready < age offline) × (ready ≡ boot → offline ≡ ready))
transition_iff_example = transition_iff (heard ready) offline

draining_final_example :
    (is_accepting (heard offline) ≡ false)
    × (is_offline (heard draining) ≡ true → is_offline (heard offline) ≡ true)
draining_final_example = draining_final (next here (move offline _ stopped)) (inl refl)

served :
    moves new (ready ∷ accepting ∷ draining ∷ []) ≡ ok (record { state = draining; listeners = [] })
unfolding moves transition
served = refl
