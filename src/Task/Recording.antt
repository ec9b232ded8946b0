-- ===== src/Task/Recording.antt =====
-- What the execution of a task of worker-instance.ts records, against what it emits.
use l0_worker.Base.{
  String, List, [], ◌∷◌, ◌++◌, append_assoc, append-nil, arith, ◌≡◌, refl, ap, sym, ◌∙◌,
}
use l0_worker.Base.Int.{pos, ◌≤ℤ◌}
use l0_worker.Event.Outbound.{OutboundEvent, worker_draining}
use l0_worker.Store.{record_event, make_room, events_for_task, MemoryEventStore}
use l0_worker.Effects.Follows.{IsPreorder}
use l0_worker.World.{World, Emission, event, l0}

-- The events to be recorded among emissions: all but the worker's own and those of the runtime.
unfoldable pub recordable : List Emission → List OutboundEvent
recordable [] = []
recordable (event (worker_draining e) ∷ es) = recordable es
recordable (event e ∷ es) = e ∷ recordable es
recordable (l0 e ∷ es) = recordable es

abbrev pub events_of : String → World → List OutboundEvent
events_of t w = events_for_task t w.worker.event_store

-- What was sent since `w` is sent at its end, and the events to be recorded among it are recorded for the
-- task, in order, if the store has no limit.
pub record Recorded (t : String) (w w' : World) : Type 0 where
  pub limit : w'.worker.event_store.max_tasks ≡ w.worker.event_store.max_tasks
  pub emissions : List Emission
  pub sent : w'.sent ≡ w.sent ++ emissions
  pub recorded :
      w.worker.event_store.max_tasks ≤ℤ pos 0
      → events_of t w' ≡ events_of t w ++ recordable emissions

pub recordable-append :
    (es fs : List Emission) → recordable (es ++ fs) ≡ recordable es ++ recordable fs
unfolding recordable
recordable-append [] fs = refl
recordable-append (event (worker_draining e) ∷ es) fs = recordable-append es fs
recordable-append (event e ∷ es) fs = ap (λ xs. e ∷ xs) (recordable-append es fs)
recordable-append (l0 e ∷ es) fs = recordable-append es fs

pub nothing_new :
    (t : String) (w w' : World)
    → w'.worker.event_store ≡ w.worker.event_store
    → w'.sent ≡ w.sent
    → Recorded t w w'
unfolding recordable
nothing_new t w w' store sent = record {
  limit = ap (λ (s : MemoryEventStore). s.max_tasks) store;
  emissions = [];
  sent = sent ∙ sym (append-nil w.sent);
  recorded = λ u. ap (events_for_task t) store ∙ sym (append-nil (events_of t w));
}

transitive : (t : String) (u v w : World) → Recorded t u v → Recorded t v w → Recorded t u w
transitive t u v w a b = record {
  limit = b.limit ∙ a.limit;
  emissions = a.emissions ++ b.emissions;
  sent = b.sent ∙ ap (λ s. s ++ b.emissions) a.sent ∙ append_assoc u.sent a.emissions b.emissions;
  recorded = λ unlimited.
      b.recorded (rw a.limit unlimited)
      ∙ ap (λ es. es ++ recordable b.emissions) (a.recorded unlimited)
      ∙ append_assoc (events_of t u) (recordable a.emissions) (recordable b.emissions)
      ∙ ap (λ es. events_of t u ++ es) (sym (recordable-append a.emissions b.emissions));
}

pub Recorded-IsPreorder : (t : String) → IsPreorder (Recorded t)
Recorded-IsPreorder t = record {
  reflexive = λ w. nothing_new t w w refl refl;
  transitive = transitive t;
}

pub record_event-max_tasks :
    (t : String) (e : OutboundEvent) (s : MemoryEventStore)
    → (record_event t e s).max_tasks ≡ s.max_tasks
unfolding record_event make_room
record_event-max_tasks t e s = ground arith
