-- ===== src/Machine/Lifecycle.antt =====
-- Lifetimes of a worker: what sequences of transitions the table of state/machine.ts allows.
use l0_worker.Base.{
  ℕ, ◌+◌, ◌≤◌, ◌<◌, true, false, List, [], ◌∷◌, arith, ◌≡◌, ◌↔◌, ◌⊎◌, refl, length, inl, inr,
}
use l0_worker.Thrown.{Result-cases, Result, ok, err}
use l0_worker.Machine.{
  notices, WorkerState, boot, ready, accepting, draining, offline, WorkerStateMachine, Notice,
  transition, is_accepting, is_offline, Listener, on_transition, unsubscribe,
}

-- What can be done to a machine: a transition that succeeds, and changes to its listeners.
pub data Step (m : WorkerStateMachine) : WorkerStateMachine → Type 0 where
  move :
      {n : WorkerStateMachine} (to : WorkerState) (calls : List Notice)
      → transition to m ≡ ok (n, calls)
      → Step m n
  subscribe : (l : Listener) → Step m (on_transition l m)
  leave : (l : Listener) → Step m (unsubscribe l m)

pub data Reach (m : WorkerStateMachine) : WorkerStateMachine → Type 0 where
  here : Reach m m
  next : {n o : WorkerStateMachine} → Reach m n → Step n o → Reach m o

-- How far in its life a worker is.
abbrev pub age : WorkerState → ℕ
age boot = 0
age ready = 1
age accepting = 2
age draining = 3
age offline = 4

move_ages :
    (m n : WorkerStateMachine) (to : WorkerState) (calls : List Notice)
    → transition to m ≡ ok (n, calls)
    → (age m.state < age n.state) × (n.state ≡ to)
unfolding transition
move_ages m n to calls h = ground arith

Step_ages : {m n : WorkerStateMachine} → Step m n → age m.state ≤ age n.state
unfolding on_transition unsubscribe
Step_ages {m} {n} (move to calls h) = omega (arith, move_ages m n to calls h)
Step_ages (subscribe l) = omega arith
Step_ages (leave l) = omega arith

Reach-ages : {m n : WorkerStateMachine} → Reach m n → age m.state ≤ age n.state
Reach-ages here = omega arith
Reach-ages (next r s) = omega (arith, Reach-ages r, Step_ages s)

transition_older :
    (m : WorkerStateMachine) (to : WorkerState)
    → (age m.state < age to) × (m.state ≡ boot → to ≡ ready)
    → transition to m ≡ ok (record m { state = to }, notices m to)
unfolding transition
transition_older m to h = ground arith

-- A transition succeeds exactly when the target's age is greater, and from BOOT only to READY; one
-- that succeeds ends in the target.
pub transition_iff :
    (m : WorkerStateMachine) (to : WorkerState)
    → ((n : WorkerStateMachine) × (calls : List Notice) × (transition to m ≡ ok (n, calls))
        × (n.state ≡ to))
      ↔ ((age m.state < age to) × (m.state ≡ boot → to ≡ ready))
unfolding transition
transition_iff m to = (
  λ r. let (n, calls, h, e) = r in ground arith,
  λ h. (record m { state = to }, notices m to, transition_older m to h, refl),
)

-- A worker that is draining or offline never accepts a task again, whatever happens to it, and a
-- worker that is offline stays offline.
pub draining_final :
    {m n : WorkerStateMachine}
    → Reach m n
    → (m.state ≡ draining) ⊎ (m.state ≡ offline)
    → (is_accepting n ≡ false) × (is_offline m ≡ true → is_offline n ≡ true)
unfolding is_accepting is_offline
draining_final {m} {n} r h = ground (arith, Reach-ages r)

-- Successive moves of a machine.
unfoldable pub moves : WorkerStateMachine → List WorkerState → Result WorkerStateMachine
moves m [] = ok m
moves m (s ∷ ss) = elim (transition s m) [ ok (n, calls) ↦ moves n ss | err e ↦ err e ]

-- The moves of a machine that all succeed lead to ever greater ages: no more moves succeed than
-- there are ages left, so a new worker makes at most four.
pub moves_bounded :
    (m n : WorkerStateMachine) (ss : List WorkerState)
    → moves m ss ≡ ok n
    → age m.state + length ss ≤ age n.state
unfolding moves
moves_bounded m n [] h = ground arith
moves_bounded m n (s ∷ ss) h = elim (Result-cases (transition s m)) [
  | inl (e, bad) ↦ ground arith
  | inr ((k, calls), good) ↦ ground (arith, move_ages m k s calls good, moves_bounded k n ss)
]
