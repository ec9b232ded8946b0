-- ===== src/Task/Lifecycle.antt =====
-- The events of a task of worker-instance.ts from its acceptance to its end, for a receiver of events that
-- never throws.
use l0_worker.Base.{
  ℕ, String, true, Option, none, some, List, ◌++◌, ◌≡◌, ◌⊎◌, inl, inr, refl, ap, ◌∙◌, if◌then◌else◌,
}
use l0_worker.Thrown.{Thrown, Result, ok, err}
use l0_worker.Payload.{TaskPayload, parse_task_payload}
use l0_worker.Event.Inbound.{TaskSubmit}
use l0_worker.Executor.Consume.{Callback, ExecutionResult}
use l0_worker.Executor.Execute.{execute_order}
use l0_worker.Effects.{try_catch, try_finally}
use l0_worker.Worker
use l0_worker.World.{Env, World}
use l0_worker.Task.{report, failed, attempt, guarded, leave, timer_set, execute_task_with_events}
use l0_worker.Task.Entry.{entry, admitted, Refused}
use l0_worker.Task.Speech.{Events, Emits, Emits-Then}
use l0_worker.Task.Protocol.{entered, entered_sent, weaken}
use l0_worker.Task.Body.{
  Whole, outcome_of, attempt-body, failed-Says, body-Says, body-Fails, completed_whole,
  failed_whole,
}

module _ (env : Env) (quiet : (n : ℕ) → env.sink n ≡ none) (submit : TaskSubmit)
    (worker : String) where
  abbrev left : World → World
  left w = leave submit.task_id w

  left_sent : (w : World) → (left w).sent ≡ w.sent
  unfolding leave
  left_sent w = refl

  guarded_ok :
      (p : TaskPayload) (w v : World)
      → attempt env submit worker p w ≡ (ok tt, v)
      → guarded env submit worker p w ≡ (ok tt, left v)
  unfolding guarded try_finally try_catch
  guarded_ok p w v done = rw done refl

  guarded_err :
      (p : TaskPayload) (w v u : World) (e : Thrown)
      → attempt env submit worker p w ≡ (err e, v)
      → report env submit.task_id (failed env submit worker e) v ≡ (ok tt, u)
      → guarded env submit worker p w ≡ (ok tt, left u)
  unfolding guarded try_finally try_catch
  guarded_err p w v u e threw reported = rw (threw, reported) refl

  -- From where the action starts to where it ends, with the same emissions as between.
  around :
      {P : Events} (w v u x : World) → v.sent ≡ w.sent → x.sent ≡ u.sent → Emits P v u → Emits P w x
  around w v u x before after h = record {
    emissions = h.emissions;
    sent = after ∙ h.sent ∙ ap (λ s. s ++ h.emissions) before;
    events = h.events;
  }

  abbrev calls_and_timer : TaskPayload → List Callback × Option ℕ
  calls_and_timer p = (
    (execute_order env.runtime submit.order p submit.meta worker true).calls,
    if timer_set env then env.timer_at else none,
  )

  guarded-whole :
      (p : TaskPayload) (o : Result ExecutionResult) (w : World)
      → outcome_of env submit worker p ≡ o
      → (w' : World) × (guarded env submit worker p w ≡ (ok tt, w'))
        × Emits (Whole env submit worker o) w w'
  guarded-whole p (ok r) w given =
      let (cs, timer) = calls_and_timer p in
      let (_, v, done, said) = (body-Says env quiet submit worker cs timer r).at (entered w) in
      let path = attempt-body env submit worker p w in
      (
        left v,
        guarded_ok p w v (rw (path, given) done),
        around w (entered w) v (left v) (entered_sent w) (left_sent v)
            (weaken env quiet (entered w) v (completed_whole env quiet submit worker r) said),
      )
  guarded-whole p (err e) w given =
      let (cs, timer) = calls_and_timer p in
      let (v, threw, said) = (body-Fails env quiet submit worker cs timer e).at (entered w) in
      let (_, u, reported, last) = (failed-Says env quiet submit worker e).at v in
      let path = attempt-body env submit worker p w in
      (
        left u,
        guarded_err p w v u e (rw (path, given) threw) reported,
        around w (entered w) u (left u) (entered_sent w) (left_sent u) (
            weaken env quiet (entered w) u (failed_whole env quiet submit worker e)
              (Emits-Then (entered w) v u said last)),
      )

module _ (env : Env) (quiet : (n : ℕ) → env.sink n ≡ none) where
  -- Where the receiver of the events never throws, executing a task ends in one of two ways. Either the task
  -- is refused, with an error that says why and with nothing changed; or the execution returns normally, and
  -- what it emits, apart from WORKER_DRAINING and the runtime's own events, is TASK_ACCEPTED for the task and
  -- the worker, then any number of TASK_PROGRESS of the task, and then exactly one end: TASK_COMPLETED with
  -- the result of executing the order, if there is one, and otherwise TASK_FAILED with its error, classified.
  pub task_lifecycle :
      (submit : TaskSubmit) (w : World)
      → ((e : Thrown) × (execute_task_with_events env submit w ≡ (err e, w))
          × Refused env submit w e)
        ⊎ ((p : TaskPayload) × (w' : World) × (parse_task_payload submit.payload ≡ some p)
            × (execute_task_with_events env submit w ≡ (ok tt, w'))
            × Emits
                (Whole env submit
                  (Worker.worker_id w.worker)
                  (outcome_of env submit (Worker.worker_id w.worker) p))
                w
                w')
  task_lifecycle submit w = elim (entry env submit w) [
    | inl refused ↦ inl refused
    | inr (p, good, _, entered_as) ↦
        let worker = Worker.worker_id w.worker in
        let (w', done, said) =
          guarded-whole env quiet submit worker p (outcome_of env submit worker p)
            (admitted env submit w) refl in
        inr (
          p,
          w',
          good,
          entered_as ∙ done,
          around env quiet submit worker w (admitted env submit w) w' w' refl refl said,
        )
  ]
