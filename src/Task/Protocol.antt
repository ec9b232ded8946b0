-- ===== src/Task/Protocol.antt =====
-- The steps of a task of worker-instance.ts for a receiver of events that never throws.
use l0_worker.Base.{
  ℕ, zero, suc, ◌+◌, String, Option, none, some, List, [], ◌∷◌, ◌++◌, All, All-append, ◌≡◌, ◌⊎◌,
  inl, inr, refl, arith, if◌then◌else◌, Bool-cases,
}
use l0_worker.Thrown.{ok, Result-cases}
use l0_worker.Machine
use l0_worker.Machine.{WorkerState, ready, accepting, draining, same}
use l0_worker.Event.Outbound.{
  OutboundEvent, task_progress, TaskProgressEvent, worker_draining, WorkerDrainingEvent,
}
use l0_worker.Executor.Runtime.{L0Event}
use l0_worker.Executor.Consume.{Callback, on_first_token, on_token, on_l0_event, on_tool_call}
use l0_worker.Effects.{Action, pure, change, ◌>>=◌}
use l0_worker.World.{Env, World, Emission, event, l0, date_now, clock_now, emit, store_event}
use l0_worker.Task.{
  Step, report, move_to, get_machine, with_machine, start_draining, drain, timer_fires, callback,
  tick, callbacks,
}
use l0_worker.Task.Recording.{recordable}
use l0_worker.Task.Speech.{Events, Emits, Silent, Then, Says, silence, Emits-Then, Says-bind}

-- One event of a kind, at some time.
abbrev pub One : (ℕ → OutboundEvent) → Events
One make es = (ts : ℕ) × (es ≡ make ts ∷ [])

-- A TASK_PROGRESS of the task.
abbrev pub IsProgress : String → OutboundEvent → Type 0
IsProgress t e = (x : TaskProgressEvent) × (e ≡ task_progress x) × (x.task_id ≡ t)

abbrev pub Progress : String → Events
Progress t es = All (IsProgress t) es

abbrev pub entered : World → World
entered w =
    if same w.worker.state_machine.state ready
    then with_machine (record w.worker.state_machine { state = accepting }) w
    else w

pub entered_sent : (w : World) → (entered w).sent ≡ w.sent
entered_sent w = ground arith

pub entering :
    (k : Step) (w : World)
    → (change get_machine >>= λ m.
          (if same m.state ready then move_to accepting else pure tt) >>= λ _. k)
        w
      ≡ k (entered w)
unfolding ◌>>=◌ change pure move_to Machine.transition Machine.can_transition
entering k w = ground arith

module _ (env : Env) (quiet : (n : ℕ) → env.sink n ≡ none) where
  abbrev heard : Emission → World → World
  heard e w = record w { emits = w.emits + 1; sent = w.sent ++ e ∷ [] }

  emit-heard : (e : Emission) (w : World) → emit env e w ≡ (ok tt, heard e w)
  unfolding emit
  emit-heard e w = rw (quiet w.emits, emit) refl

  abbrev reported : String → OutboundEvent → World → World
  reported t e w = (store_event t e (heard (event e) w)).1

  report_ok :
      (t : String) (make : ℕ → OutboundEvent) (w : World)
      → report env t make w ≡ (ok tt, reported t (make (clock_now env w).0) (clock_now env w).1)
  unfolding report ◌>>=◌ change
  report_ok t make w = let (ts, v) = clock_now env w in rw (emit-heard (event (make ts)) v) refl

  pub report-Says :
      (t : String) (make : ℕ → OutboundEvent)
      → ((ts : ℕ) → recordable (event (make ts) ∷ []) ≡ make ts ∷ [])
      → Says (report env t make) (One make)
  unfolding clock_now store_event
  report-Says t make own = record {
    at = λ w.
        let ts = (clock_now env w).0 in
        (
          tt,
          reported t (make ts) (clock_now env w).1,
          report_ok t make w,
          record { emissions = event (make ts) ∷ []; sent = refl; events = (ts, own ts) },
        );
  }

  pub date_now-Says : Says (change (date_now env)) Silent
  unfolding change date_now
  date_now-Says = record {
    at = λ w. (env.times w.reads, record w { reads = w.reads + 1 }, refl, silence w _ refl);
  }

  timer_sent :
      (worker : String) (w : World)
      → ((timer_fires env worker w).sent ≡ w.sent)
        ⊎ ((x : WorkerDrainingEvent) × ((timer_fires env worker w).sent
              ≡ w.sent ++ event (worker_draining x) ∷ []))
  unfolding timer_fires drain start_draining ◌>>=◌ change pure move_to emit clock_now
  timer_sent worker w = elim (Bool-cases (same w.worker.state_machine.state draining)) [
    | inl is ↦ inl (ground arith)
    | inr differs ↦ elim (Result-cases (Machine.transition draining w.worker.state_machine)) [
      | inl (e, bad) ↦ inl (ground arith)
      | inr (r, good) ↦ inr (
        record {
          worker_id = worker;
          reason = "function_timeout_approaching";
          ts = (clock_now env w).0;
        },
        ground (arith, quiet w.emits),
      )
    ]
  ]

  timer-Emits : (worker : String) (w : World) → Emits Silent w (timer_fires env worker w)
  unfolding recordable
  timer-Emits worker w = elim (timer_sent worker w) [
    | inl nothing ↦ silence w (timer_fires env worker w) nothing
    | inr (x, own) ↦ record {
      emissions = event (worker_draining x) ∷ [];
      sent = own;
      events = refl;
    }
  ]

  tick-Emits :
      (worker : String) (timer : Option ℕ) (w : World) → Emits Silent w (tick env worker timer w).1
  tick-Emits worker none w = silence w w refl
  tick-Emits worker (some zero) w = timer-Emits worker w
  tick-Emits worker (some (suc n)) w = silence w w refl

  pub weaken :
      {P Q : Events} (w w' : World)
      → ((es : List OutboundEvent) → P es → Q es)
      → Emits P w w'
      → Emits Q w w'
  weaken w w' f x = record { emissions = x.emissions; sent = x.sent; events = f _ x.events }

  pub Says-weaken :
      {A : Type 0} (m : Action World A) (P Q : Events)
      → ((es : List OutboundEvent) → P es → Q es)
      → Says m P
      → Says m Q
  Says-weaken m P Q f s = record {
    at = λ w. let (a, w', returned, x) = s.at w in (a, w', returned, weaken w w' f x);
  }

  silent-Progress : (t : String) (es : List OutboundEvent) → Silent es → Progress t es
  silent-Progress t es h = rw h tt

  progress_one :
      (t : String) (x : ℕ → TaskProgressEvent)
      → ((ts : ℕ) → (x ts).task_id ≡ t)
      → (es : List OutboundEvent) → One (λ ts. task_progress (x ts)) es
      → Progress t es
  progress_one t x own es h = let (ts, e) = h in rw e ((x ts, refl, own ts), tt)

  progress-Then :
      (t : String) (es : List OutboundEvent) → Then (Progress t) (Progress t) es → Progress t es
  progress-Then t es h = let (xs, ys, p, q, e) = h in rw e (All-append (IsProgress t) xs ys p q)

  progress-Says :
      (t : String) (x : ℕ → TaskProgressEvent)
      → ((ts : ℕ) → (x ts).task_id ≡ t)
      → Says (report env t (λ ts. task_progress (x ts))) (Progress t)
  unfolding recordable
  progress-Says t x own =
      Says-weaken _ _ (Progress t) (progress_one t x own)
        (report-Says t (λ ts. task_progress (x ts)) (λ ts. refl))

  l0-Says : (t : String) (e : L0Event) → Says (emit env (l0 e)) (Progress t)
  unfolding recordable
  l0-Says t e = record {
    at = λ w. (
      tt,
      heard (l0 e) w,
      emit-heard (l0 e) w,
      record { emissions = l0 e ∷ []; sent = refl; events = tt },
    );
  }

  callback-Says : (t : String) (c : Callback) → Says (callback env t c) (Progress t)
  unfolding callback pure
  callback-Says t on_first_token = progress-Says t _ (λ ts. refl)
  callback-Says t (on_token token) = record {
    at = λ w. (tt, w, refl, weaken w w (silent-Progress t) (silence w w refl));
  }
  callback-Says t (on_l0_event e) = l0-Says t e
  callback-Says t (on_tool_call name args) = progress-Says t _ (λ ts. refl)

  pub callbacks-Says :
      (worker t : String) (cs : List Callback) (timer : Option ℕ)
      → Says (callbacks env worker t cs timer) (Progress t)
  unfolding callbacks
  callbacks-Says worker t [] timer = record {
    at = λ w. (
      tt,
      (tick env worker timer w).1,
      refl,
      weaken w _ (silent-Progress t) (tick-Emits worker timer w),
    );
  }
  callbacks-Says worker t (c ∷ cs) timer = record {
    at = λ w.
        let (timer', v) = tick env worker timer w in
        let both =
          Says-bind (callback env t c) (λ _. callbacks env worker t cs timer') (callback-Says t c)
            (λ _. callbacks-Says worker t cs timer') in
        let (a, u, returned, x) = both.at v in
        (
          a,
          u,
          returned,
          weaken w u (progress-Then t) (
              Emits-Then w v u (weaken w v (silent-Progress t) (tick-Emits worker timer w))
                (weaken v u (progress-Then t) x)),
        );
  }
