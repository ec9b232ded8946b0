-- ===== src/Task/Release.antt =====
-- The slot of a task of worker-instance.ts: taken for the execution, and given back.
use l0_worker.Base.{
  ℕ, zero, suc, String, Option, none, some, List, [], ◌∷◌, arith, ◌≡◌, inl, inr, refl, ap, ◌∙◌,
}
use l0_worker.Machine
use l0_worker.Slots
use l0_worker.Slots.{acquired, no_slots, duplicate, Acquired}
use l0_worker.Slots.Branches.{release-acquire}
use l0_worker.Payload.{TaskPayload}
use l0_worker.Event.Inbound.{TaskSubmit}
use l0_worker.Event.Outbound.{OutboundEvent}
use l0_worker.Executor.Consume.{Callback, on_first_token, on_token, on_l0_event, on_tool_call}
use l0_worker.Effects.{change, try_finally}
use l0_worker.Effects.Preserves.{Preserves, preserves_rules, Preserves-bind, Preserves-try_catch}
use l0_worker.Worker
use l0_worker.World.{Env, World, Emission, date_now, clock_now, emit, store_event}
use l0_worker.Task.Entry.{entry, admitted}
use l0_worker.Task.{
  abort, start_draining, get_machine, task_slots, move_to, leave, report, drain, timer_fires,
  callback, tick, callbacks, attempt, guarded, failed, execute_task_with_events,
}

module _ (env : Env) where
  pub clock_now-Keeps : Preserves task_slots (change (clock_now env))
  unfolding clock_now change
  clock_now-Keeps = record { at = λ w. refl }

  pub date_now-Keeps : Preserves task_slots (change (date_now env))
  unfolding date_now change
  date_now-Keeps = record { at = λ w. refl }

  pub emit-Keeps : (e : Emission) → Preserves task_slots (emit env e)
  unfolding emit
  emit-Keeps e = record { at = λ w. ground arith }

  pub store_event-Keeps :
      (t : String) (e : OutboundEvent) → Preserves task_slots (change (store_event t e))
  unfolding store_event change
  store_event-Keeps t e = record { at = λ w. refl }

  pub aborted-Keeps : Preserves task_slots (change abort)
  unfolding change
  aborted-Keeps = record { at = λ w. refl }

  pub machine-Keeps : Preserves task_slots (change get_machine)
  unfolding change
  machine-Keeps = record { at = λ w. refl }

  pub move_to-Keeps : (to : Machine.WorkerState) → Preserves task_slots (move_to to)
  unfolding move_to
  move_to-Keeps to = record { at = λ w. ground arith }

  pub ruleset keeps_slots = (
    preserves_rules, clock_now-Keeps, date_now-Keeps, emit-Keeps, store_event-Keeps, aborted-Keeps,
    machine-Keeps, move_to-Keeps,
  )

  pub report-Keeps :
      (t : String) (make : ℕ → OutboundEvent) → Preserves task_slots (report env t make)
  unfolding report
  report-Keeps t make = search keeps_slots

  start_draining-Keeps : (worker : String) → Preserves task_slots (start_draining env worker)
  unfolding start_draining
  start_draining-Keeps worker = search keeps_slots

  drain-Keeps : (worker : String) → Preserves task_slots (drain env worker)
  unfolding drain
  drain-Keeps worker = search (keeps_slots, start_draining-Keeps)

  pub timer_fires-slots :
      (worker : String) (w : World) → task_slots (timer_fires env worker w) ≡ task_slots w
  unfolding timer_fires
  timer_fires-slots worker w = ground (arith, (drain-Keeps worker).at w)

  pub callback-Keeps : (t : String) (c : Callback) → Preserves task_slots (callback env t c)
  unfolding callback
  callback-Keeps t on_first_token = search report-Keeps
  callback-Keeps t (on_token token) = search keeps_slots
  callback-Keeps t (on_l0_event e) = search keeps_slots
  callback-Keeps t (on_tool_call name args) = search report-Keeps

  tick-slots :
      (worker : String) (timer : Option ℕ) (w : World)
      → task_slots (tick env worker timer w).1 ≡ task_slots w
  tick-slots worker none w = refl
  tick-slots worker (some zero) w = timer_fires-slots worker w
  tick-slots worker (some (suc n)) w = refl

  callbacks-slots :
      (worker t : String) (cs : List Callback) (timer : Option ℕ) (w : World)
      → task_slots (callbacks env worker t cs timer w).1 ≡ task_slots w
  unfolding callbacks
  callbacks-slots worker t [] timer w = tick-slots worker timer w
  callbacks-slots worker t (c ∷ cs) timer w =
      let (timer', w') = tick env worker timer w in
      (Preserves-bind task_slots (callback env t c) (λ _. callbacks env worker t cs timer')
          (callback-Keeps t c) (λ _. record { at = callbacks-slots worker t cs timer' })).at
        w'
      ∙ tick-slots worker timer w

  callbacks-Keeps :
      (worker t : String) (cs : List Callback) (timer : Option ℕ)
      → Preserves task_slots (callbacks env worker t cs timer)
  callbacks-Keeps worker t cs timer = record { at = callbacks-slots worker t cs timer }

  attempt-Keeps :
      (submit : TaskSubmit) (worker : String) (p : TaskPayload)
      → Preserves task_slots (attempt env submit worker p)
  unfolding attempt
  attempt-Keeps submit worker p = search (keeps_slots, report-Keeps, callbacks-Keeps) depth 12

  guarded-slots :
      (submit : TaskSubmit) (worker : String) (p : TaskPayload) (w : World)
      → task_slots (guarded env submit worker p w).1
        ≡ (Slots.release submit.task_id (task_slots w)).0
  unfolding guarded try_finally leave
  guarded-slots submit worker p w =
      let body =
        Preserves-try_catch task_slots (attempt env submit worker p)
          (λ e. report env submit.task_id (failed env submit worker e))
          (attempt-Keeps submit worker p)
          (λ e. report-Keeps submit.task_id (failed env submit worker e)) in
      ap (λ s. (Slots.release submit.task_id s).0) (body.at w)

  -- However the execution of a task ends, with whatever the runtime, the clock, the drain timer and the
  -- receiver of the events do, errors of the receiver included, the slots are afterwards exactly what they
  -- were before: the task's slot is released if it was acquired, and no other task's slot is touched.
  pub execute_restores_slots :
      (submit : TaskSubmit) (w : World)
      → task_slots (execute_task_with_events env submit w).1 ≡ task_slots w
  execute_restores_slots submit w = elim (entry env submit w) [
    | inl (e, refused, _) ↦ ap (λ r. task_slots r.1) refused
    | inr (p, _, taken, entered) ↦
        ap (λ r. task_slots r.1) entered
        ∙ guarded-slots submit (Worker.worker_id w.worker) p (admitted env submit w)
        ∙ ap (λ r. r.0)
            (release-acquire (env.times w.reads) submit.task_id (task_slots w)
              (task_slots (admitted env submit w)) taken)
  ]
