-- ===== src/Task/Ordering.antt =====
-- The order in time of what an execution of a task of worker-instance.ts emits.
use l0_worker.Base.{
  ℕ, zero, suc, String, Option, none, some, List, [], ◌∷◌, ◌++◌, arith, ◌≡◌, inl, inr, refl,
}
use l0_worker.Thrown.{Thrown, Result, ok, err}
use l0_worker.Payload.{TaskPayload}
use l0_worker.Event.Inbound.{TaskSubmit}
use l0_worker.Event.Outbound.{task_accepted}
use l0_worker.Executor.Consume.{
  Callback, on_first_token, on_token, on_l0_event, on_tool_call, ExecutionResult,
}
use l0_worker.Effects.Follows.{Follows, Follows-bind, Follows-try_catch, Follows-try_finally}
use l0_worker.Worker
use l0_worker.World.{Env, World, Emission}
use l0_worker.Task.{
  report, drain, timer_fires, callback, tick, callbacks, attempt, guarded, failed, completed, leave,
  execute_task_with_events,
}
use l0_worker.Task.Entry.{entry, admitted}
use l0_worker.Task.Timing.{
  Timed, Timed-IsPreorder, quiet, last_stamp, stamps_of, Within, ts_of, timed, drain-Timed,
  report-Timed, l0-Timed,
}

module _ (env : Env) where
  after_timer :
      (r : Result (Unit {0})) (w w' : World)
      → Timed w w'
      → Timed w (elim r [ ok u ↦ w' | err e ↦ record w' { uncaught = w'.uncaught ++ e ∷ [] } ])
  after_timer (ok u) w w' h = h
  after_timer (err e) w w' h = Timed-IsPreorder.transitive w w' _ h (quiet w' _ refl (omega arith))

  timer_fires-Timed : (worker : String) (w : World) → Timed w (timer_fires env worker w)
  unfolding timer_fires
  timer_fires-Timed worker w =
      let (r, w') = drain env worker w in after_timer r w w' ((drain-Timed env worker).at w)

  callback-Timed : (t : String) (c : Callback) → Follows Timed (callback env t c)
  unfolding callback ts_of
  callback-Timed t on_first_token = report-Timed env t _ (λ ts. refl)
  callback-Timed t (on_token token) = search timed
  callback-Timed t (on_l0_event e) = l0-Timed env t e
  callback-Timed t (on_tool_call name args) = report-Timed env t _ (λ ts. refl)

  tick-Timed :
      (worker : String) (timer : Option ℕ) (w : World) → Timed w (tick env worker timer w).1
  tick-Timed worker none w = quiet w w refl (omega arith)
  tick-Timed worker (some zero) w = timer_fires-Timed worker w
  tick-Timed worker (some (suc n)) w = quiet w w refl (omega arith)

  callbacks-at :
      (worker t : String) (cs : List Callback) (timer : Option ℕ) (w : World)
      → Timed w (callbacks env worker t cs timer w).1
  unfolding callbacks
  callbacks-at worker t [] timer w = tick-Timed worker timer w
  callbacks-at worker t (c ∷ cs) timer w =
      let (timer', w') = tick env worker timer w in
      Timed-IsPreorder.transitive w w' _ (tick-Timed worker timer w) (
        (Follows-bind Timed Timed-IsPreorder (callback env t c)
            (λ _. callbacks env worker t cs timer') (callback-Timed t c)
            (λ _. record { at = callbacks-at worker t cs timer' })).at
          w')

  callbacks-Timed :
      (worker t : String) (cs : List Callback) (timer : Option ℕ)
      → Follows Timed (callbacks env worker t cs timer)
  callbacks-Timed worker t cs timer = record { at = callbacks-at worker t cs timer }

  accepted-Timed :
      (submit : TaskSubmit) (worker : String)
      → Follows Timed (
          report env submit.task_id (λ ts.
            task_accepted (record { task_id = submit.task_id; worker_id = worker; ts = ts })))
  unfolding ts_of
  accepted-Timed submit worker = report-Timed env submit.task_id _ (λ ts. refl)

  completed-Timed :
      (submit : TaskSubmit) (worker : String) (r : ExecutionResult) (start end : ℕ)
      → Follows Timed (report env submit.task_id (completed env submit worker r start end))
  unfolding ts_of completed
  completed-Timed submit worker r start end = report-Timed env submit.task_id _ (λ ts. refl)

  failed-Timed :
      (submit : TaskSubmit) (worker : String) (e : Thrown)
      → Follows Timed (report env submit.task_id (failed env submit worker e))
  unfolding ts_of failed
  failed-Timed submit worker e = report-Timed env submit.task_id _ (λ ts. refl)

  attempt-Timed :
      (submit : TaskSubmit) (worker : String) (p : TaskPayload)
      → Follows Timed (attempt env submit worker p)
  unfolding attempt
  attempt-Timed submit worker p =
      search (timed, accepted-Timed, completed-Timed, callbacks-Timed) depth 12

  guarded-Timed :
      (submit : TaskSubmit) (worker : String) (p : TaskPayload)
      → Follows Timed (guarded env submit worker p)
  unfolding guarded leave
  guarded-Timed submit worker p =
      Follows-try_finally Timed Timed-IsPreorder _ _
        (Follows-try_catch Timed Timed-IsPreorder (attempt env submit worker p) _
          (attempt-Timed submit worker p) (failed-Timed submit worker))
        (λ w. quiet w _ refl (omega arith))

  -- Whatever the system's clock reads, and however the execution of a task ends, the timestamps of the
  -- worker's own events that are emitted in it, WORKER_DRAINING included, increase strictly in the order of
  -- emission, above every timestamp that was given before, and none is above the clock's last.
  pub execution_ordered :
      (submit : TaskSubmit) (w : World)
      → let w' = (execute_task_with_events env submit w).1 in
        (new : List Emission) × (w'.sent ≡ w.sent ++ new)
        × Within (last_stamp w) (stamps_of new) (last_stamp w')
  execution_ordered submit w = elim (entry env submit w) [
    | inl (e, refused, _) ↦
        let x : Timed w (execute_task_with_events env submit w).1 =
          rw refused (quiet w w refl (omega arith)) in
        (x.emissions, x.sent, x.within)
    | inr (p, _, _, entered) ↦
        let worker = Worker.worker_id w.worker in
        let x : Timed w (execute_task_with_events env submit w).1 = rw entered (
          Timed-IsPreorder.transitive w (admitted env submit w) _
            (quiet w (admitted env submit w) refl (omega arith))
            ((guarded-Timed submit worker p).at (admitted env submit w))) in
        (x.emissions, x.sent, x.within)
  ]
