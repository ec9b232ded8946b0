-- ===== src/Task/Replayable.antt =====
-- An executed task of worker-instance.ts can be replayed: what was emitted for it is what is recorded.
use l0_worker.Base.{
  ℕ, zero, suc, ◌+◌, String, Option, none, some, List, [], ◌∷◌, ◌++◌, append-nil, ◌==◌, eq_refl,
  if◌then◌else◌, Option-cases, arith, ◌≡◌, ◌⊎◌, inl, inr, refl, ap, sym, ◌∙◌,
}
use l0_worker.Thrown.{Thrown, Result, ok, err}
use l0_worker.Machine
use l0_worker.Payload.{TaskPayload}
use l0_worker.Event.Inbound.{TaskSubmit}
use l0_worker.Event.Outbound.{OutboundEvent, worker_draining, WorkerDrainingEvent, task_accepted}
use l0_worker.Store.Records.{record_event-Unlimited}
use l0_worker.Executor.Consume.{
  Callback, on_first_token, on_token, on_l0_event, on_tool_call, ExecutionResult,
}
use l0_worker.Effects.{change, ◌>>=◌}
use l0_worker.Effects.Follows.{
  Follows, follows_rules, Follows-bind, Follows-try_catch, Follows-try_finally,
}
use l0_worker.World.{Env, World, Emission, event, l0, date_now, clock_now, emit, store_event}
use l0_worker.Task.{
  report, move_to, abort, start_draining, drain, timer_fires, get_machine, callback, tick,
  callbacks, attempt, guarded, failed, completed, leave,
}
use l0_worker.Task.Recording.{
  recordable, events_of, Recorded, Recorded-IsPreorder, nothing_new, record_event-max_tasks,
}

module _ (env : Env) (t : String) where
  clock_now-Records : Follows (Recorded t) (change (clock_now env))
  unfolding clock_now change
  clock_now-Records = record { at = λ w. nothing_new t w _ refl refl }

  date_now-Records : Follows (Recorded t) (change (date_now env))
  unfolding date_now change
  date_now-Records = record { at = λ w. nothing_new t w _ refl refl }

  machine-Records : Follows (Recorded t) (change get_machine)
  unfolding change
  machine-Records = record { at = λ w. nothing_new t w _ refl refl }

  abort-Records : Follows (Recorded t) (change abort)
  unfolding change
  abort-Records = record { at = λ w. nothing_new t w _ refl refl }

  move_to-Records : (to : Machine.WorkerState) → Follows (Recorded t) (move_to to)
  unfolding move_to
  move_to-Records to = record { at = λ w. nothing_new t w _ (ground arith) (ground arith) }

  abbrev pub heard : Emission → World → World
  heard e w = record w { emits = w.emits + 1; sent = w.sent ++ e ∷ [] }

  abbrev pub unheard : World → World
  unheard w = record w { emits = w.emits + 1 }

  pub emit_cases :
      (e : Emission) (w : World)
      → (emit env e w ≡ (ok tt, heard e w)) ⊎ ((x : Thrown) × (emit env e w ≡ (err x, unheard w)))
  unfolding emit
  emit_cases e w = elim (Option-cases (env.sink w.emits)) [
    | inl taken ↦ inl (ground arith)
    | inr (x, thrown) ↦ inr (x, ground arith)
  ]

  heard-Recorded : (e : Emission) (w : World) → recordable (e ∷ []) ≡ [] → Recorded t w (heard e w)
  heard-Recorded e w none_of_it = record {
    limit = refl;
    emissions = e ∷ [];
    sent = refl;
    recorded = λ u. sym (ap (λ es. events_of t w ++ es) none_of_it ∙ append-nil (events_of t w));
  }

  -- An emission with nothing to be recorded.
  emit-Records : (e : Emission) → recordable (e ∷ []) ≡ [] → Follows (Recorded t) (emit env e)
  emit-Records e none_of_it = record {
    at = λ w. elim (emit_cases e w) [
      | inl taken ↦ rw taken (heard-Recorded e w none_of_it)
      | inr (x, thrown) ↦ rw thrown (nothing_new t w (unheard w) refl refl)
    ];
  }

  stored-Recorded :
      (e : OutboundEvent) (w : World)
      → recordable (event e ∷ []) ≡ e ∷ []
      → Recorded t w (store_event t e (heard (event e) w)).1
  unfolding store_event
  stored-Recorded e w all_of_it = record {
    limit = record_event-max_tasks t e w.worker.event_store;
    emissions = event e ∷ [];
    sent = refl;
    recorded = λ u.
        let (now, _, _) = record_event-Unlimited t t e w.worker.event_store u in
        let own : (if t == t then events_of t w ++ e ∷ [] else events_of t w)
            ≡ events_of t w ++ e ∷ [] =
          ground (arith, eq_refl t) in
        now ∙ own ∙ ap (λ es. events_of t w ++ es) (sym all_of_it);
  }

  pub report_cases :
      (make : ℕ → OutboundEvent) (w : World)
      → let (ts, w1) = clock_now env w in
        ((report env t make w).1 ≡ (store_event t (make ts) (heard (event (make ts)) w1)).1)
        ⊎ ((report env t make w).1 ≡ unheard w1)
  unfolding report ◌>>=◌ change
  report_cases make w =
      let (ts, w1) = clock_now env w in
      elim (emit_cases (event (make ts)) w1) [
        | inl taken ↦ inl (rw taken refl)
        | inr (x, thrown) ↦ inr (rw thrown refl)
      ]

  report-Records :
      (make : ℕ → OutboundEvent)
      → ((ts : ℕ) → recordable (event (make ts) ∷ []) ≡ make ts ∷ [])
      → Follows (Recorded t) (report env t make)
  unfolding clock_now
  report-Records make all_of_it = record {
    at = λ w.
        let (ts, w1) = clock_now env w in
        elim (report_cases make w) [
          | inl stored ↦ rw stored (
              (Recorded-IsPreorder t).transitive w w1 _ (nothing_new t w w1 refl refl)
                (stored-Recorded (make ts) w1 (all_of_it ts)))
          | inr lost ↦ rw lost (nothing_new t w (unheard w1) refl refl)
        ];
  }

  ruleset records = (
    follows_rules, Recorded-IsPreorder, clock_now-Records, date_now-Records, machine-Records,
    abort-Records, move_to-Records, emit-Records,
  )

  draining-Records :
      (x : WorkerDrainingEvent) → Follows (Recorded t) (emit env (event (worker_draining x)))
  unfolding recordable
  draining-Records x = emit-Records (event (worker_draining x)) refl

  start_draining-Records : (worker : String) → Follows (Recorded t) (start_draining env worker)
  unfolding start_draining
  start_draining-Records worker = search (records, draining-Records)

  drain-Records : (worker : String) → Follows (Recorded t) (drain env worker)
  unfolding drain
  drain-Records worker = search (records, start_draining-Records)

  after_timer :
      (r : Result (Unit {0})) (w w' : World)
      → Recorded t w w'
      → Recorded t w (elim r [ ok u ↦ w' | err e ↦ record w' { uncaught = w'.uncaught ++ e ∷ [] } ])
  after_timer (ok u) w w' h = h
  after_timer (err e) w w' h =
      (Recorded-IsPreorder t).transitive w w' _ h (nothing_new t w' _ refl refl)

  timer_fires-Recorded : (worker : String) (w : World) → Recorded t w (timer_fires env worker w)
  unfolding timer_fires
  timer_fires-Recorded worker w =
      let (r, w') = drain env worker w in after_timer r w w' ((drain-Records worker).at w)

  callback-Records : (c : Callback) → Follows (Recorded t) (callback env t c)
  unfolding callback recordable
  callback-Records on_first_token = report-Records _ (λ ts. refl)
  callback-Records (on_token token) = search records
  callback-Records (on_l0_event e) = emit-Records (l0 e) refl
  callback-Records (on_tool_call name args) = report-Records _ (λ ts. refl)

  tick-Recorded :
      (worker : String) (timer : Option ℕ) (w : World) → Recorded t w (tick env worker timer w).1
  tick-Recorded worker none w = nothing_new t w w refl refl
  tick-Recorded worker (some zero) w = timer_fires-Recorded worker w
  tick-Recorded worker (some (suc n)) w = nothing_new t w w refl refl

  callbacks-Recorded :
      (worker : String) (cs : List Callback) (timer : Option ℕ) (w : World)
      → Recorded t w (callbacks env worker t cs timer w).1
  unfolding callbacks
  callbacks-Recorded worker [] timer w = tick-Recorded worker timer w
  callbacks-Recorded worker (c ∷ cs) timer w =
      let (timer', w') = tick env worker timer w in
      (Recorded-IsPreorder t).transitive w w' _ (tick-Recorded worker timer w) (
        (Follows-bind (Recorded t) (Recorded-IsPreorder t) (callback env t c)
            (λ _. callbacks env worker t cs timer') (callback-Records c)
            (λ _. record { at = callbacks-Recorded worker cs timer' })).at
          w')

  callbacks-Records :
      (worker : String) (cs : List Callback) (timer : Option ℕ)
      → Follows (Recorded t) (callbacks env worker t cs timer)
  callbacks-Records worker cs timer = record { at = callbacks-Recorded worker cs timer }

module _ (env : Env) (submit : TaskSubmit) (worker : String) where
  accepted-Records : Follows (Recorded submit.task_id) (
      report env submit.task_id
        (λ ts. task_accepted (record { task_id = submit.task_id; worker_id = worker; ts = ts })))
  unfolding recordable
  accepted-Records = report-Records env submit.task_id _ (λ ts. refl)

  completed-Records :
      (result : ExecutionResult) (start end : ℕ)
      → Follows
          (Recorded submit.task_id)
          (report env submit.task_id (completed env submit worker result start end))
  unfolding recordable completed
  completed-Records result start end = report-Records env submit.task_id _ (λ ts. refl)

  failed-Records :
      (e : Thrown)
      → Follows (Recorded submit.task_id) (report env submit.task_id (failed env submit worker e))
  unfolding recordable failed
  failed-Records e = report-Records env submit.task_id _ (λ ts. refl)

  attempt-Records :
      (p : TaskPayload) → Follows (Recorded submit.task_id) (attempt env submit worker p)
  unfolding attempt
  attempt-Records p =
      search (records, accepted-Records, completed-Records, callbacks-Records) depth 12

  leave-Recorded : (w : World) → Recorded submit.task_id w (leave submit.task_id w)
  unfolding leave
  leave-Recorded w = nothing_new submit.task_id w _ refl refl

  pub guarded-Records :
      (p : TaskPayload) → Follows (Recorded submit.task_id) (guarded env submit worker p)
  unfolding guarded
  guarded-Records p =
      let t = submit.task_id in
      let order = Recorded-IsPreorder t in
      Follows-try_finally (Recorded t) order _ _
        (Follows-try_catch (Recorded t) order (attempt env submit worker p) _ (attempt-Records p)
          failed-Records)
        leave-Recorded
