-- ===== src/Task/Isolation.antt =====
-- What the execution of a task of worker-instance.ts leaves alone: the configuration, and the records of the
-- other tasks.
use l0_worker.Base.{
  ℕ, zero, suc, String, Option, none, some, List, [], ◌∷◌, if◌then◌else◌, arith, ◌≡◌, ◌≢◌, inl, inr,
  refl, ap, ◌∙◌, eq_iff, ◌⊎◌, ◌==◌, Bool-cases, texts_differ,
}
use l0_worker.Base.Int.{ℤ, pos, ◌≤ℤ◌, ◌<ℤ◌, leb_ℤ}
use l0_worker.Machine
use l0_worker.Settings.{ConfigManager}
use l0_worker.Payload.{TaskPayload}
use l0_worker.Event.Inbound.{TaskSubmit}
use l0_worker.Event.Outbound.{OutboundEvent}
use l0_worker.Store.{record_event, events_for_task, MemoryEventStore}
use l0_worker.Store.Records.{record_event-Unlimited}
use l0_worker.Executor.Consume.{Callback, on_first_token, on_token, on_l0_event, on_tool_call}
use l0_worker.Effects.{change, try_finally}
use l0_worker.Effects.Preserves.{Preserves, preserves_rules, Preserves-bind, Preserves-try_catch}
use l0_worker.Worker
use l0_worker.World.{Env, World, Emission, date_now, clock_now, emit, store_event}
use l0_worker.Task.{
  abort, start_draining, get_machine, move_to, leave, report, drain, timer_fires, callback, tick,
  callbacks, attempt, guarded, failed, execute_task_with_events,
}
use l0_worker.Task.Entry.{entry, admitted}
use l0_worker.Task.Recording.{events_of, record_event-max_tasks}

-- The configuration, the store's limit, and, if there is none, the record of the task `j`.
abbrev seen : String → World → ConfigManager × ℤ × List OutboundEvent
seen j w = (
  w.worker.config_manager,
  w.worker.event_store.max_tasks,
  if leb_ℤ w.worker.event_store.max_tasks (pos 0) then events_of j w else [],
)

module _ (env : Env) (j : String) where
  clock_now-Spares : Preserves (seen j) (change (clock_now env))
  unfolding clock_now change
  clock_now-Spares = record { at = λ w. refl }

  date_now-Spares : Preserves (seen j) (change (date_now env))
  unfolding date_now change
  date_now-Spares = record { at = λ w. refl }

  emit-Spares : (e : Emission) → Preserves (seen j) (emit env e)
  unfolding emit
  emit-Spares e = record { at = λ w. ground arith }

  aborted-Spares : Preserves (seen j) (change abort)
  unfolding change
  aborted-Spares = record { at = λ w. refl }

  machine-Spares : Preserves (seen j) (change get_machine)
  unfolding change
  machine-Spares = record { at = λ w. refl }

  move_to-Spares : (to : Machine.WorkerState) → Preserves (seen j) (move_to to)
  unfolding move_to
  move_to-Spares to = record { at = λ w. ground arith }

  abbrev shown : ℤ → List OutboundEvent → List OutboundEvent
  shown limit es = if leb_ℤ limit (pos 0) then es else []

  other_events :
      (t : String) (e : OutboundEvent) (s : MemoryEventStore)
      → t ≢ j
      → shown s.max_tasks (events_for_task j (record_event t e s))
        ≡ shown s.max_tasks (events_for_task j s)
  other_events t e s differs = ground (arith, eq_iff t j, record_event-Unlimited t j e s)

  store_event-Spares :
      (t : String) (e : OutboundEvent) → t ≢ j → Preserves (seen j) (change (store_event t e))
  unfolding store_event change
  store_event-Spares t e differs = record {
    at = λ w.
        let s = w.worker.event_store in
        rw (record_event-max_tasks t e s, other_events t e s differs) refl;
  }

  ruleset spares = (
    preserves_rules, clock_now-Spares, date_now-Spares, emit-Spares, aborted-Spares, machine-Spares,
    move_to-Spares,
  )

  report-Spares :
      (t : String) (make : ℕ → OutboundEvent) → t ≢ j → Preserves (seen j) (report env t make)
  unfolding report
  report-Spares t make differs = search (spares, store_event-Spares)

  start_draining-Spares : (worker : String) → Preserves (seen j) (start_draining env worker)
  unfolding start_draining
  start_draining-Spares worker = search spares

  drain-Spares : (worker : String) → Preserves (seen j) (drain env worker)
  unfolding drain
  drain-Spares worker = search (spares, start_draining-Spares)

  timer_fires-seen : (worker : String) (w : World) → seen j (timer_fires env worker w) ≡ seen j w
  unfolding timer_fires
  timer_fires-seen worker w = ground (arith, (drain-Spares worker).at w)

  callback-Spares : (t : String) (c : Callback) → t ≢ j → Preserves (seen j) (callback env t c)
  unfolding callback
  callback-Spares t on_first_token differs = search report-Spares
  callback-Spares t (on_token token) differs = search spares
  callback-Spares t (on_l0_event e) differs = search spares
  callback-Spares t (on_tool_call name args) differs = search report-Spares

  tick-seen :
      (worker : String) (timer : Option ℕ) (w : World)
      → seen j (tick env worker timer w).1 ≡ seen j w
  tick-seen worker none w = refl
  tick-seen worker (some zero) w = timer_fires-seen worker w
  tick-seen worker (some (suc n)) w = refl

  callbacks-seen :
      (worker t : String) (cs : List Callback) (timer : Option ℕ) (w : World)
      → t ≢ j
      → seen j (callbacks env worker t cs timer w).1 ≡ seen j w
  unfolding callbacks
  callbacks-seen worker t [] timer w differs = tick-seen worker timer w
  callbacks-seen worker t (c ∷ cs) timer w differs =
      let (timer', w') = tick env worker timer w in
      (Preserves-bind (seen j) (callback env t c) (λ _. callbacks env worker t cs timer')
          (callback-Spares t c differs)
          (λ _. record { at = λ v. callbacks-seen worker t cs timer' v differs })).at
        w'
      ∙ tick-seen worker timer w

  callbacks-Spares :
      (worker t : String) (cs : List Callback) (timer : Option ℕ)
      → t ≢ j
      → Preserves (seen j) (callbacks env worker t cs timer)
  callbacks-Spares worker t cs timer differs = record {
    at = λ w. callbacks-seen worker t cs timer w differs;
  }

  attempt-Spares :
      (submit : TaskSubmit) (worker : String) (p : TaskPayload)
      → submit.task_id ≢ j
      → Preserves (seen j) (attempt env submit worker p)
  unfolding attempt
  attempt-Spares submit worker p differs = search (spares, report-Spares, callbacks-Spares) depth 12

  guarded-seen :
      (submit : TaskSubmit) (worker : String) (p : TaskPayload) (w : World)
      → submit.task_id ≢ j
      → seen j (guarded env submit worker p w).1 ≡ seen j w
  unfolding guarded try_finally leave
  guarded-seen submit worker p w differs =
      (Preserves-try_catch (seen j) (attempt env submit worker p)
          (λ e. report env submit.task_id (failed env submit worker e))
          (attempt-Spares submit worker p differs)
          (λ e. report-Spares submit.task_id (failed env submit worker e) differs)).at
        w

  execute-seen :
      (submit : TaskSubmit) (w : World)
      → submit.task_id ≢ j
      → seen j (execute_task_with_events env submit w).1 ≡ seen j w
  execute-seen submit w differs = elim (entry env submit w) [
    | inl (e, refused, _) ↦ ap (λ r. seen j r.1) refused
    | inr (p, _, _, entered) ↦
        ap (λ r. seen j r.1) entered
        ∙ guarded-seen submit (Worker.worker_id w.worker) p (admitted env submit w) differs
  ]

  seen_events :
      (v w : World)
      → seen j v ≡ seen j w
      → w.worker.event_store.max_tasks ≤ℤ pos 0
      → events_of j v ≡ events_of j w
  seen_events v w same unlimited =
      let limits = ap (λ (r : ConfigManager × ℤ × List OutboundEvent). r.1) same in
      let records = ap (λ (r : ConfigManager × ℤ × List OutboundEvent). r.2) same in ground arith

-- A name that is not the given one.
abbrev another : String → String
another t = if t == "a" then "b" else "a"

another-differs : (t : String) → t ≢ another t
another-differs t e = ground (arith, eq_iff t "a", eq_iff t "b", texts_differ "a" "b" refl)

module _ (env : Env) where
  configuration_kept :
      (submit : TaskSubmit) (w : World)
      → (execute_task_with_events env submit w).1.worker.config_manager ≡ w.worker.config_manager
  configuration_kept submit w =
      let t = submit.task_id in
      ap (λ (r : ConfigManager × ℤ × List OutboundEvent). r.0)
        (execute-seen env (another t) submit w (another-differs t))

  -- However the execution of a task ends, it does not change the worker's configuration, whatever the store;
  -- and of every name, either it is that of the task, or the store has a limit, or what is recorded under the
  -- name is as before.
  pub execution_isolated :
      (submit : TaskSubmit) (w : World) (j : String)
      → let w' = (execute_task_with_events env submit w).1 in
        (w'.worker.config_manager ≡ w.worker.config_manager)
        × ((submit.task_id ≡ j)
            ⊎ ((pos 0 <ℤ w.worker.event_store.max_tasks) ⊎ (events_of j w' ≡ events_of j w)))
  execution_isolated submit w j =
      let w' = (execute_task_with_events env submit w).1 in
      (
        configuration_kept submit w,
        elim (Bool-cases (submit.task_id == j)) [
          | inl own ↦ inl ((eq_iff submit.task_id j).0 own)
          | inr other ↦ elim (Bool-cases (leb_ℤ w.worker.event_store.max_tasks (pos 0))) [
            | inr limited ↦ inr (inl (ground arith))
            | inl unlimited ↦
                let same = execute-seen env j submit w (texts_differ submit.task_id j other) in
                inr (inr (seen_events env j w' w same (ground arith)))
          ]
        ],
      )
