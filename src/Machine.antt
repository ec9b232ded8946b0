-- ===== src/Machine.antt =====
-- src/state/machine.ts: the worker's state machine. A listener is known by a number, its identity
-- as a function object; `transition` returns the calls that it makes, in order, and a listener is
-- taken to return normally.
pub mod Lifecycle
pub mod Listeners
mod Examples
use Prim.Native.String
use l0_worker.Base.{
  ℕ, String, Bool, true, false, ◌||◌, List, [], ◌∷◌, ◌++◌, map, eqb, if◌then◌else◌,
}
use l0_worker.Thrown.{Result, ok, err, new_error}

pub data WorkerState : Type 0 where
  boot ready accepting draining offline : WorkerState

-- s === t
abbrev pub same : WorkerState → WorkerState → Bool
same boot boot = true
same ready ready = true
same accepting accepting = true
same draining draining = true
same offline offline = true
same _ _ = false

abbrev pub label : WorkerState → String
label boot = "BOOT"
label ready = "READY"
label accepting = "ACCEPTING"
label draining = "DRAINING"
label offline = "OFFLINE"

-- TRANSITIONS
abbrev pub transitions : WorkerState → List WorkerState
transitions boot = ready ∷ []
transitions ready = accepting ∷ draining ∷ offline ∷ []
transitions accepting = draining ∷ offline ∷ []
transitions draining = offline ∷ []
transitions offline = []

-- ss.includes(s)
abbrev pub includes : List WorkerState → WorkerState → Bool
includes [] s = false
includes (t ∷ ts) s = same t s || includes ts s

abbrev pub Listener : Type 0
Listener = ℕ

pub record WorkerStateMachine : Type 0 where
  pub state : WorkerState
  pub listeners : List Listener

-- new WorkerStateMachine()
abbrev pub new : WorkerStateMachine
new = record { state = boot; listeners = [] }

unfoldable pub can_transition : WorkerState → WorkerStateMachine → Bool
can_transition to m = includes (transitions m.state) to

-- A call `listener(from, to)`.
pub record Notice : Type 0 where
  pub listener : Listener
  pub from : WorkerState
  pub to : WorkerState

abbrev pub invalid_transition : WorkerState → WorkerState → String
invalid_transition from to =
    String.◌++◌ "Invalid state transition: "
      (String.◌++◌ (label from) (String.◌++◌ " -> " (label to)))

-- The calls of the listeners for a move from the state of `m`.
abbrev pub notices : WorkerStateMachine → WorkerState → List Notice
notices m to = map (λ l. record { listener = l; from = m.state; to = to }) m.listeners

unfoldable pub transition :
    WorkerState → WorkerStateMachine → Result (WorkerStateMachine × List Notice)
unfolding can_transition
transition to m =
    if can_transition to m
    then ok (record m { state = to }, notices m to)
    else err (new_error (invalid_transition m.state to))

-- onTransition(listener): the subscription.
unfoldable pub on_transition : Listener → WorkerStateMachine → WorkerStateMachine
on_transition l m = record m { listeners = m.listeners ++ l ∷ [] }

-- listeners.splice(listeners.indexOf(listener), 1), if it is found
unfoldable pub remove_first : Listener → List Listener → List Listener
remove_first l [] = []
remove_first l (k ∷ ks) = if eqb k l then ks else k ∷ remove_first l ks

-- The function that `onTransition` returns.
unfoldable pub unsubscribe : Listener → WorkerStateMachine → WorkerStateMachine
unfolding remove_first
unsubscribe l m = record m { listeners = remove_first l m.listeners }

unfoldable pub is_accepting : WorkerStateMachine → Bool
is_accepting m = same m.state ready || same m.state accepting

unfoldable pub is_offline : WorkerStateMachine → Bool
is_offline m = same m.state offline

unfoldable pub is_draining : WorkerStateMachine → Bool
is_draining m = same m.state draining
