-- ===== src/Interleaving/Emissions.antt =====
-- What is recorded for a task of worker-instance.ts against the TASK events that are emitted with its name among the emissions of all
-- tasks.
use l0_worker.Base.{
  String, Bool, true, false, List, [], ◌∷◌, ◌++◌, append_assoc, append-nil, arith, ◌==◌, ◌≡◌, inl,
  inr, refl, ap, sym, ◌∙◌, if◌then◌else◌,
}
use l0_worker.Base.Int.{pos, ◌≤ℤ◌}
use l0_worker.Machine
use l0_worker.Store.{MemoryEventStore, events_for_task}
use l0_worker.Event.Outbound.{
  OutboundEvent, task_accepted, task_progress, task_completed, task_failed,
}
use l0_worker.Effects.{change}
use l0_worker.Effects.Follows.{IsPreorder, Follows}
use l0_worker.World.{Env, World, Emission, event, l0, date_now, clock_now, emit}
use l0_worker.Task.{move_to, abort, get_machine}
use l0_worker.Task.Recording.{events_of}
use l0_worker.Task.Replayable.{heard, unheard, emit_cases}

-- The event is one of the task.
unfoldable pub concerns : String → OutboundEvent → Bool
concerns j (task_accepted e) = e.task_id == j
concerns j (task_progress e) = e.task_id == j
concerns j (task_completed e) = e.task_id == j
concerns j (task_failed e) = e.task_id == j
concerns j _ = false

abbrev pub keep : Bool → OutboundEvent → List OutboundEvent
keep true e = e ∷ []
keep false e = []

-- The TASK events of the task among emissions: none of the runtime's own.
unfoldable pub own : String → List Emission → List OutboundEvent
own j [] = []
own j (event e ∷ es) = keep (concerns j e) e ++ own j es
own j (l0 e ∷ es) = own j es

pub own-append : (j : String) (xs ys : List Emission) → own j (xs ++ ys) ≡ own j xs ++ own j ys
unfolding own
own-append j [] ys = refl
own-append j (event e ∷ xs) ys =
    ap (λ zs. keep (concerns j e) e ++ zs) (own-append j xs ys)
    ∙ sym (append_assoc (keep (concerns j e) e) (own j xs) (own j ys))
own-append j (l0 e ∷ xs) ys = own-append j xs ys

-- What is recorded for the task is the TASK events that were emitted with its name, if that was so before.
pub record Kept (j : String) (w w' : World) : Type 0 where
  pub limit : w'.worker.event_store.max_tasks ≡ w.worker.event_store.max_tasks
  pub recorded :
      w.worker.event_store.max_tasks ≤ℤ pos 0
      → events_of j w ≡ own j w.sent
      → events_of j w' ≡ own j w'.sent

pub beside-Kept :
    (j : String) (w w' : World)
    → w'.worker.event_store ≡ w.worker.event_store
    → w'.sent ≡ w.sent
    → Kept j w w'
beside-Kept j w w' store sent = record {
  limit = ap (λ (s : MemoryEventStore). s.max_tasks) store;
  recorded = λ u h. ap (events_for_task j) store ∙ h ∙ ap (own j) (sym sent);
}

pub Kept-IsPreorder : (j : String) → IsPreorder (Kept j)
Kept-IsPreorder j = record {
  reflexive = λ w. beside-Kept j w w refl refl;
  transitive = λ u v w a b. record {
    limit = b.limit ∙ a.limit;
    recorded = λ unlimited h. b.recorded (rw a.limit unlimited) (a.recorded unlimited h);
  };
}

pub chosen :
    (b : Bool) (e : OutboundEvent) (es : List OutboundEvent)
    → (if b then es ++ e ∷ [] else es) ≡ es ++ keep b e
chosen true e es = refl
chosen false e es = sym (append-nil es)

module _ (env : Env) (j : String) where
  pub clock_now-Kept : Follows (Kept j) (change (clock_now env))
  unfolding clock_now change
  clock_now-Kept = record { at = λ w. beside-Kept j w _ refl refl }

  pub date_now-Kept : Follows (Kept j) (change (date_now env))
  unfolding date_now change
  date_now-Kept = record { at = λ w. beside-Kept j w _ refl refl }

  pub machine-Kept : Follows (Kept j) (change get_machine)
  unfolding change
  machine-Kept = record { at = λ w. beside-Kept j w _ refl refl }

  pub abort-Kept : Follows (Kept j) (change abort)
  unfolding change
  abort-Kept = record { at = λ w. beside-Kept j w _ refl refl }

  pub move_to-Kept : (to : Machine.WorkerState) → Follows (Kept j) (move_to to)
  unfolding move_to
  move_to-Kept to = record { at = λ w. beside-Kept j w _ (ground arith) (ground arith) }

  -- An emission of no task.
  heard_beside : (e : Emission) (w : World) → own j (e ∷ []) ≡ [] → Kept j w (heard env j e w)
  heard_beside e w nothing = record {
    limit = refl;
    recorded = λ u h.
        h
        ∙ sym (
            own-append j w.sent (e ∷ [])
            ∙ ap (λ es. own j w.sent ++ es) nothing
            ∙ append-nil (own j w.sent));
  }

  pub emit-Kept : (e : Emission) → own j (e ∷ []) ≡ [] → Follows (Kept j) (emit env e)
  emit-Kept e nothing = record {
    at = λ w. elim (emit_cases env j e w) [
      | inl taken ↦ rw taken (heard_beside e w nothing)
      | inr (x, thrown) ↦ rw thrown (beside-Kept j w (unheard env j w) refl refl)
    ];
  }
