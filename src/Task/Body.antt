-- ===== src/Task/Body.antt =====
-- The `try` block of executeTaskWithEvents of worker-instance.ts, for a receiver of events that never
-- throws: what it emits when the order's execution returns, and when it throws.
use l0_worker.Base.{
  ℕ, String, true, Option, none, some, List, [], ◌∷◌, ◌++◌, append-nil, ◌≡◌, refl, All,
  if◌then◌else◌,
}
use l0_worker.Thrown.{Thrown, Result, ok, err, message_of}
use l0_worker.Payload.{TaskPayload}
use l0_worker.Event.Inbound.{TaskSubmit}
use l0_worker.Event.Outbound.{
  OutboundEvent, task_accepted, task_completed, task_failed, TaskCompletedEvent, TaskFailedEvent,
}
use l0_worker.Failure.{classify_error, is_retryable}
use l0_worker.Executor.Consume.{Callback, ExecutionResult}
use l0_worker.Executor.Execute.{execute_order}
use l0_worker.Effects.{Action, lift, change, ◌>>=◌, ◌>>◌}
use l0_worker.World.{Env, World, date_now}
use l0_worker.Task.{Step, report, callbacks, completed, failed, attempt, timer_set}
use l0_worker.Task.Recording.{recordable}
use l0_worker.Task.Speech.{Events, Silent, Then, Says, Fails, silence, Says-bind, Fails-after}
use l0_worker.Task.Protocol.{
  One, Progress, IsProgress, report-Says, date_now-Says, callbacks-Says, entering, entered,
  Says-weaken,
}

module _ (env : Env) (submit : TaskSubmit) (worker : String) where
  -- TASK_COMPLETED with the result of the task's execution.
  abbrev pub Completes : ExecutionResult → TaskCompletedEvent → Type 0
  Completes r x =
      (x.task_id ≡ submit.task_id)
      × (x.worker_id ≡ worker)
      × (x.output ≡ r.content)
      × (x.output_hash ≡ env.sha256 r.content)
      × (x.final_metrics.token_count ≡ r.token_count)
      × (x.final_metrics.prompt_tokens ≡ some r.input_tokens)
      × (x.final_metrics.completion_tokens ≡ some r.output_tokens)

  -- TASK_FAILED with the error of the task's execution, classified.
  abbrev pub FailsWith : Thrown → TaskFailedEvent → Type 0
  FailsWith e x =
      (x.task_id ≡ submit.task_id)
      × (x.worker_id ≡ worker)
      × (x.failure_class ≡ classify_error e)
      × (x.retryable ≡ is_retryable (classify_error e))
      × (x.message ≡ some (message_of e))

  -- The end of a task.
  abbrev pub Ending : Result ExecutionResult → OutboundEvent → Type 0
  Ending (ok r) e = (x : TaskCompletedEvent) × (e ≡ task_completed x) × Completes r x
  Ending (err t) e = (x : TaskFailedEvent) × (e ≡ task_failed x) × FailsWith t x

  completed-Ending :
      (r : ExecutionResult) (start end ts : ℕ)
      → Ending (ok r) (completed env submit worker r start end ts)
  unfolding completed
  completed-Ending r start end ts = (_, refl, (refl, refl, refl, refl, refl, refl, refl))

  failed-Ending : (e : Thrown) (ts : ℕ) → Ending (err e) (failed env submit worker e ts)
  unfolding failed
  failed-Ending e ts = (_, refl, (refl, refl, refl, refl, refl))

  abbrev pub accepted : ℕ → OutboundEvent
  accepted ts = task_accepted (record { task_id = submit.task_id; worker_id = worker; ts = ts })

  -- TASK_ACCEPTED, any number of TASK_PROGRESS, and the end.
  abbrev pub Whole : Result ExecutionResult → Events
  Whole outcome es =
      (ts : ℕ) × (ps : List OutboundEvent) × (last : OutboundEvent) × (es
        ≡ task_accepted (record { task_id = submit.task_id; worker_id = worker; ts = ts })
          ∷ (ps ++ last ∷ []))
      × All (IsProgress submit.task_id) ps
      × Ending outcome last

  -- The `try` block once the worker is accepting.
  abbrev pub body : List Callback → Option ℕ → Result ExecutionResult → Step
  body cs timer outcome = do
    report env submit.task_id accepted
    start ← change (date_now env)
    callbacks env worker submit.task_id cs timer
    result ← lift outcome
    end ← change (date_now env)
    report env submit.task_id (completed env submit worker result start end)

  abbrev pub outcome_of : TaskPayload → Result ExecutionResult
  outcome_of p = (execute_order env.runtime submit.order p submit.meta worker true).outcome

  pub attempt-body :
      (p : TaskPayload) (w : World)
      → attempt env submit worker p w
        ≡ body
            (execute_order env.runtime submit.order p submit.meta worker true).calls
            (if timer_set env then env.timer_at else none)
            (outcome_of p)
            (entered w)
  unfolding attempt
  attempt-body p w = entering _ w

module _ (env : Env) (quiet : (n : ℕ) → env.sink n ≡ none) (submit : TaskSubmit)
    (worker : String) where
  accepted-Says :
      Says
        (report env submit.task_id (accepted env submit worker))
        (One (accepted env submit worker))
  unfolding recordable
  accepted-Says = report-Says env quiet submit.task_id (accepted env submit worker) (λ ts. refl)

  pub failed-Says :
      (e : Thrown)
      → Says
          (report env submit.task_id (failed env submit worker e))
          (One (failed env submit worker e))
  unfolding recordable failed
  failed-Says e = report-Says env quiet submit.task_id (failed env submit worker e) (λ ts. refl)

  completed-Says :
      (r : ExecutionResult) (start end : ℕ)
      → Says
          (report env submit.task_id (completed env submit worker r start end))
          (One (completed env submit worker r start end))
  unfolding recordable completed
  completed-Says r start end =
      report-Says env quiet submit.task_id (completed env submit worker r start end) (λ ts. refl)

  abbrev pub Last : Result ExecutionResult → Events
  Last o es = (e : OutboundEvent) × (es ≡ e ∷ []) × Ending env submit worker o e

  -- What follows the callbacks.
  finish-Says :
      (r : ExecutionResult) (start : ℕ)
      → Says
          (lift (ok r) >>= λ result. change (date_now env) >>= λ end.
            report env submit.task_id (completed env submit worker result start end))
          (Then Silent (Last (ok r)))
  unfolding lift ◌>>=◌
  finish-Says r start = record {
    at =
        (Says-bind (change (date_now env))
          (λ end. report env submit.task_id (completed env submit worker r start end))
          (date_now-Says env quiet)
          (λ end.
            Says-weaken env quiet _ (One (completed env submit worker r start end)) (Last (ok r))
              (λ es h.
                let (ts, e) = h in
                (
                  completed env submit worker r start end ts,
                  e,
                  completed-Ending env submit worker r start end ts,
                ))
              (completed-Says r start end))).at;
  }

  abbrev pub Started : Events → Events
  Started rest =
      Then (One (accepted env submit worker)) (Then Silent (Then (Progress submit.task_id) rest))

  pub body-Says :
      (cs : List Callback) (timer : Option ℕ) (r : ExecutionResult)
      → Says (body env submit worker cs timer (ok r)) (Started (Then Silent (Last (ok r))))
  body-Says cs timer r = Says-bind _ _ accepted-Says (λ _.
      Says-bind _ _ (date_now-Says env quiet) (λ start.
        Says-bind _ _ (callbacks-Says env quiet worker submit.task_id cs timer)
          (λ _. finish-Says r start)))

  lift-Fails :
      {A B : Type 0} (e : Thrown) (f : A → Action World B) → Fails (lift (err e) >>= f) e Silent
  unfolding lift ◌>>=◌
  lift-Fails e f = record { at = λ w. (w, refl, silence w w refl) }

  pub body-Fails :
      (cs : List Callback) (timer : Option ℕ) (e : Thrown)
      → Fails (body env submit worker cs timer (err e)) e (Started Silent)
  body-Fails cs timer e = Fails-after _ _ e accepted-Says (λ _.
      Fails-after _ _ e (date_now-Says env quiet) (λ start.
        Fails-after _ _ e (callbacks-Says env quiet worker submit.task_id cs timer)
          (λ _. lift-Fails e _)))

  pub completed_whole :
      (r : ExecutionResult) (es : List OutboundEvent)
      → Started (Then Silent (Last (ok r))) es
      → Whole env submit worker (ok r) es
  completed_whole r es
        (
          xs,
          ys,
          (ts, one),
          (
            us,
            vs,
            silent,
            (ps, zs, progress, (qs, bs, quiet_too, (last, is_last, ending), split3), split2),
            split1,
          ),
          split0,
        ) =
      (
        ts,
        ps,
        last,
        rw (split0, one, split1, silent, split2, split3, quiet_too, is_last) refl,
        progress,
        ending,
      )

  pub failed_whole :
      (e : Thrown) (es : List OutboundEvent)
      → Then (Started Silent) (One (failed env submit worker e)) es
      → Whole env submit worker (err e) es
  failed_whole e es
        (
          fs,
          gs,
          (
            xs,
            ys,
            (ts, one),
            (us, vs, silent, (ps, zs, progress, nothing, split2), split1),
            split0,
          ),
          (ts', last),
          split,
        ) =
      (
        ts,
        ps,
        failed env submit worker e ts',
        rw (split, split0, one, split1, silent, split2, nothing, append-nil, last) refl,
        progress,
        failed-Ending env submit worker e ts',
      )
