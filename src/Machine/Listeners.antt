-- ===== src/Machine/Listeners.antt =====
-- The listeners of state/machine.ts.
use l0_worker.Base.{List, [], ◌∷◌, ◌++◌, map, arith, ◌≡◌, ◌≢◌, refl, All}
use l0_worker.Thrown.{ok}
use l0_worker.Machine.{
  WorkerState, WorkerStateMachine, Notice, Listener, transition, on_transition, remove_first,
  unsubscribe, notices,
}

module _ (from to : WorkerState) where
  abbrev notice : Listener → Notice
  notice l = record { listener = l; from = from; to = to }

  map-listener : (ls : List Listener) → map (λ (c : Notice). c.listener) (map notice ls) ≡ ls
  map-listener [] = refl
  map-listener (l ∷ ls) = rw (map-listener ls)

  All-notice :
      (ls : List Listener) → All (λ (c : Notice). (c.from ≡ from) × (c.to ≡ to)) (map notice ls)
  All-notice [] = tt
  All-notice (l ∷ ls) = ((refl, refl), All-notice ls)

transition_shape :
    (m n : WorkerStateMachine) (to : WorkerState) (calls : List Notice)
    → transition to m ≡ ok (n, calls)
    → (calls ≡ notices m to) × (n.state ≡ to) × (n.listeners ≡ m.listeners)
unfolding transition
transition_shape m n to calls h = ground arith

-- A transition that succeeds calls every listener once, in the order of subscription, with the
-- states before and after, and the listeners stay subscribed.
pub transition_notifies :
    (m n : WorkerStateMachine) (to : WorkerState) (calls : List Notice)
    → transition to m ≡ ok (n, calls)
    → (map (λ (c : Notice). c.listener) calls ≡ m.listeners)
      × All (λ (c : Notice). (c.from ≡ m.state) × (c.to ≡ n.state)) calls
      × (n.listeners ≡ m.listeners)
transition_notifies m n to calls h =
    let (a, b, c) = transition_shape m n to calls h in
    rw (a, b) (map-listener m.state to m.listeners, All-notice m.state to m.listeners, c)

remove_first-append :
    (l : Listener) (ls : List Listener) → All (λ k. k ≢ l) ls → remove_first l (ls ++ l ∷ []) ≡ ls
unfolding remove_first
remove_first-append l [] h = ground arith
remove_first-append l (k ∷ ks) h = ground (arith, remove_first-append l ks h.1)

-- Subscribing a listener that was not subscribed, and then calling the function that the
-- subscription returned, restores the machine.
pub unsubscribe-on_transition :
    (l : Listener) (m : WorkerStateMachine)
    → All (λ k. k ≢ l) m.listeners
    → unsubscribe l (on_transition l m) ≡ m
unfolding unsubscribe on_transition
unsubscribe-on_transition l m h = rw (remove_first-append l m.listeners h)
