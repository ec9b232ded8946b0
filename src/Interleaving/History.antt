-- ===== src/Interleaving/History.antt =====
-- What is recorded for the tasks of a worker of worker-instance.ts while they are interleaved.
use l0_worker.Base.{
  ℕ, String, Bool, List, [], ◌∷◌, ◌++◌, append-nil, arith, ◌==◌, ◌≡◌, inl, inr, refl, ap, sym, ◌∙◌,
}
use l0_worker.Base.Int.{pos, ◌≤ℤ◌}
use l0_worker.Thrown.{Thrown, Result, ok, err, Result-cases}
use l0_worker.Settings
use l0_worker.Settings.{Update}
use l0_worker.Store.Records.{record_event-Unlimited}
use l0_worker.Event.Inbound.{TaskSubmit}
use l0_worker.Event.Outbound.{OutboundEvent, task_accepted, worker_draining, WorkerDrainingEvent}
use l0_worker.Executor.Consume.{
  Callback, on_first_token, on_token, on_l0_event, on_tool_call, ExecutionResult,
}
use l0_worker.Effects.{throw}
use l0_worker.Effects.Follows.{Follows, follows_rules}
use l0_worker.Worker.{VercelWorker, update_config, notify}
use l0_worker.World.{Env, World, event, l0, clock_now, emit, store_event}
use l0_worker.Task as Task
use l0_worker.Task.{
  report, move_to, abort, start_draining, drain, timer_fires, get_machine, callback, acquire_slot,
  leave, completed, failed,
}
use l0_worker.Task.Recording.{events_of, record_event-max_tasks}
use l0_worker.Task.Replayable.{heard, unheard, report_cases}
use l0_worker.Interleaving.{
  InFlight, Scene, opening, timing, completing, failure, Stage, Piece, open_task, begin, call, stop,
  complete, fail, Next, enter, piece, fire, depart, configure, Reach, here, step,
}
use l0_worker.Interleaving.Emissions.{
  concerns, keep, own, own-append, Kept, beside-Kept, Kept-IsPreorder, chosen, clock_now-Kept,
  date_now-Kept, machine-Kept, abort-Kept, move_to-Kept, emit-Kept,
}

module _ (env : Env) (j : String) where
  -- An event that is emitted, and recorded for the task that it concerns.
  stored_Kept :
      (t : String) (e : OutboundEvent) (w : World)
      → concerns j e ≡ t == j
      → Kept j w (store_event t e (heard env t (event e) w)).1
  unfolding store_event own
  stored_Kept t e w its = record {
    limit = record_event-max_tasks t e w.worker.event_store;
    recorded = λ u h.
        let (now, _, _) = record_event-Unlimited t j e w.worker.event_store u in
        now
        ∙ chosen (t == j) e (events_of j w)
        ∙ ap (λ (xs : List OutboundEvent). xs ++ keep (t == j) e) h
        ∙ ap (λ (b : Bool). own j w.sent ++ keep b e) (sym its)
        ∙ ap (λ (es : List OutboundEvent). own j w.sent ++ es)
            (sym (append-nil (keep (concerns j e) e)))
        ∙ sym (own-append j w.sent (event e ∷ []));
  }

  report-Kept :
      (t : String) (make : ℕ → OutboundEvent)
      → ((ts : ℕ) → concerns j (make ts) ≡ t == j)
      → Follows (Kept j) (report env t make)
  unfolding clock_now
  report-Kept t make its = record {
    at = λ w.
        let (ts, w1) = clock_now env w in
        elim (report_cases env t make w) [
          | inl stored ↦ rw stored (
              (Kept-IsPreorder j).transitive w w1 _ (beside-Kept j w w1 refl refl)
                (stored_Kept t (make ts) w1 (its ts)))
          | inr lost ↦ rw lost (beside-Kept j w (unheard env t w1) refl refl)
        ];
  }

  ruleset kept = (
    follows_rules, Kept-IsPreorder, clock_now-Kept, date_now-Kept, machine-Kept, abort-Kept,
    move_to-Kept, emit-Kept,
  )

  draining-Kept :
      (x : WorkerDrainingEvent) → Follows (Kept j) (emit env (event (worker_draining x)))
  unfolding own concerns
  draining-Kept x = emit-Kept env j (event (worker_draining x)) refl

  start_draining-Kept : (worker : String) → Follows (Kept j) (start_draining env worker)
  unfolding start_draining
  start_draining-Kept worker = search (kept, draining-Kept)

  drain-Kept : (worker : String) → Follows (Kept j) (drain env worker)
  unfolding drain
  drain-Kept worker = search (kept, start_draining-Kept)

  fired :
      (r : Result (Unit {0})) (w w' : World)
      → Kept j w w'
      → Kept j w (elim r [ ok u ↦ w' | err e ↦ record w' { uncaught = w'.uncaught ++ e ∷ [] } ])
  fired (ok u) w w' h = h
  fired (err e) w w' h = (Kept-IsPreorder j).transitive w w' _ h (beside-Kept j w' _ refl refl)

  timer_fires-Kept : (worker : String) (w : World) → Kept j w (timer_fires env worker w)
  unfolding timer_fires
  timer_fires-Kept worker w =
      let (r, w') = drain env worker w in fired r w w' ((drain-Kept worker).at w)

  callback-Kept : (t : String) (c : Callback) → Follows (Kept j) (callback env t c)
  unfolding callback concerns
  callback-Kept t on_first_token = report-Kept t _ (λ ts. refl)
  callback-Kept t (on_token token) = search kept
  callback-Kept t (on_l0_event e) = emit-Kept env j (l0 e) (unfold own in refl)
  callback-Kept t (on_tool_call name args) = report-Kept t _ (λ ts. refl)

  accepted-Kept :
      (s : TaskSubmit) (worker : String)
      → Follows (Kept j) (
          report env s.task_id
            (λ ts. task_accepted (record { task_id = s.task_id; worker_id = worker; ts = ts })))
  unfolding concerns
  accepted-Kept s worker = report-Kept s.task_id _ (λ ts. refl)

  completed-Kept :
      (s : TaskSubmit) (worker : String) (r : ExecutionResult) (start end : ℕ)
      → Follows (Kept j) (report env s.task_id (completed env s worker r start end))
  unfolding completed concerns
  completed-Kept s worker r start end = report-Kept s.task_id _ (λ ts. refl)

  failed-Kept :
      (s : TaskSubmit) (worker : String) (e : Thrown)
      → Follows (Kept j) (report env s.task_id (failed env s worker e))
  unfolding failed concerns
  failed-Kept s worker e = report-Kept s.task_id _ (λ ts. refl)

  throw-Kept : (e : Thrown) → Follows (Kept j) (throw {A = Unit {0}} e)
  unfolding throw
  throw-Kept e = record { at = λ w. beside-Kept j w w refl refl }

  piece-Kept :
      {k : InFlight} {from to : Stage} {m : Task.Step} → Piece env k from m to → Follows (Kept j) m
  unfolding opening timing completing failure
  piece-Kept {k} open_task = search (kept, accepted-Kept) depth 12
  piece-Kept begin = search kept
  piece-Kept {k} (call c) = callback-Kept k.submit.task_id c
  piece-Kept (stop e) = throw-Kept e
  piece-Kept (complete result start) = search (kept, completed-Kept)
  piece-Kept (fail e) = search (kept, failed-Kept)

  entered-Kept : (t : String) (w v : World) → acquire_slot env t w ≡ (ok tt, v) → Kept j w v
  unfolding acquire_slot
  entered-Kept t w v h = beside-Kept j w v (ground arith) (ground arith)

  left-Kept : (t : String) (w : World) → Kept j w (leave t w)
  unfolding leave
  left-Kept t w = beside-Kept j w _ refl refl

  configured-Kept :
      (u : Update) (w : World) (v : VercelWorker)
      → update_config u w.worker ≡ ok v
      → Kept j w (record w { worker = v })
  unfolding update_config
  configured-Kept u w v h = elim (Result-cases (Settings.update u w.worker.config_manager)) [
    | inl (e, threw) ↦ absurd (ground arith)
    | inr ((c, calls), made) ↦ elim (Result-cases (notify calls c.runtime w.worker.slots)) [
      | inl (e, threw) ↦ absurd (ground arith)
      | inr (s, told) ↦ beside-Kept j w _ (ground arith) refl
    ]
  ]

  Next-Kept : {c d : Scene} → Next env c d → Kept j c.world d.world
  Next-Kept {c} (enter s p w good taken) = entered-Kept s.task_id c.world w taken
  Next-Kept {c} (piece t k m next found may) = (piece-Kept may).at c.world
  Next-Kept {c} (fire t k found) = timer_fires-Kept k.worker c.world
  Next-Kept {c} (depart t k found is) = left-Kept t c.world
  Next-Kept {c} (configure u w done) = configured-Kept u c.world w done

  Reach-Kept : {c d : Scene} → Reach env c d → Kept j c.world d.world
  Reach-Kept {c} here = beside-Kept j c.world c.world refl refl
  Reach-Kept {c} {d} (step {d = b} r n) =
      (Kept-IsPreorder j).transitive c.world b.world d.world (Reach-Kept r) (Next-Kept n)

  -- However the tasks of a worker are interleaved, and whatever they and the receivers of their events throw:
  -- over a store without a limit, from a state in which nothing is emitted or recorded on, what is recorded
  -- for a task is exactly the TASK events that were emitted with its name, in the order of emission; the
  -- runtime's own events and WORKER_DRAINING are not among them.
  pub interleaved_records :
      (c d : Scene)
      → Reach env c d
      → c.world.worker.event_store.max_tasks ≤ℤ pos 0
      → c.world.sent ≡ []
      → events_of j c.world ≡ []
      → events_of j d.world ≡ own j d.world.sent
  unfolding own
  interleaved_records c d r unlimited unsent unrecorded =
      (Reach-Kept r).recorded unlimited (unrecorded ∙ ap (own j) (sym unsent))
