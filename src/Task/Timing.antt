-- ===== src/Task/Timing.antt =====
-- The timestamps of the events that an execution of a task of worker-instance.ts emits.
use l0_worker.Base.{
  ℕ, ◌≤◌, ◌<◌, String, List, [], ◌∷◌, ◌++◌, append_assoc, append-nil, arith, ◌≡◌, inl, inr, refl,
  ap, sym, ◌∙◌,
}
use mathlib.Core.Path.{subst}
use l0_worker.Clock.Monotone.{now_bounds}
use l0_worker.Machine
use l0_worker.Machine.{draining}
use l0_worker.Event.Outbound.{
  OutboundEvent, worker_ready, worker_load, task_accepted, task_progress, task_completed,
  task_failed, worker_draining, worker_offline,
}
use l0_worker.Executor.Runtime.{L0Event}
use l0_worker.Effects.{change, ◌>>=◌}
use l0_worker.Effects.Follows.{
  Follows, IsPreorder, follows_rules, Follows-bind, Follows-try_catch, Follows-try_finally,
}
use l0_worker.World.{Env, World, Emission, event, l0, date_now, clock_now, emit, store_event}
use l0_worker.Task.{report, move_to, abort, start_draining, drain, get_machine}
use l0_worker.Task.Replayable.{emit_cases, report_cases, heard, unheard}

-- The timestamp of an event.
unfoldable pub ts_of : OutboundEvent → ℕ
ts_of (worker_ready e) = e.ts
ts_of (worker_load e) = e.ts
ts_of (task_accepted e) = e.ts
ts_of (task_progress e) = e.ts
ts_of (task_completed e) = e.ts
ts_of (task_failed e) = e.ts
ts_of (worker_draining e) = e.ts
ts_of (worker_offline e) = e.ts

-- The timestamps of the worker's own events among emissions; the runtime has a clock of its own.
unfoldable pub stamps_of : List Emission → List ℕ
unfolding ts_of
stamps_of [] = []
stamps_of (event e ∷ es) = ts_of e ∷ stamps_of es
stamps_of (l0 e ∷ es) = stamps_of es

-- The numbers increase from above `low` to `high` at most.
abbrev pub Within : ℕ → List ℕ → ℕ → Type 0
Within low [] high = low ≤ high
Within low (t ∷ ts) high = (low < t) × Within t ts high

Within-append :
    (low mid high : ℕ) (xs ys : List ℕ)
    → Within low xs mid
    → Within mid ys high
    → Within low (xs ++ ys) high
Within-append low mid high [] [] h k = omega (arith, h, k)
Within-append low mid high [] (y ∷ ys) h k = (omega (arith, h, k.0), k.1)
Within-append low mid high (x ∷ xs) ys h k = (h.0, Within-append x mid high xs ys h.1 k)

stamps_of-append : (es fs : List Emission) → stamps_of (es ++ fs) ≡ stamps_of es ++ stamps_of fs
unfolding stamps_of
stamps_of-append [] fs = refl
stamps_of-append (event e ∷ es) fs = ap (λ ts. ts_of e ∷ ts) (stamps_of-append es fs)
stamps_of-append (l0 e ∷ es) fs = stamps_of-append es fs

abbrev pub last_stamp : World → ℕ
last_stamp w = w.clock.last_timestamp

-- What was sent since `w` has increasing timestamps, above the clock's in `w`, and the clock is at least at
-- the last of them.
pub record Timed (w w' : World) : Type 0 where
  pub emissions : List Emission
  pub sent : w'.sent ≡ w.sent ++ emissions
  pub within : Within (last_stamp w) (stamps_of emissions) (last_stamp w')

pub quiet : (w w' : World) → w'.sent ≡ w.sent → last_stamp w ≤ last_stamp w' → Timed w w'
unfolding stamps_of
quiet w w' same later = record {
  emissions = [];
  sent = same ∙ sym (append-nil w.sent);
  within = later;
}

Timed-transitive : (u v w : World) → Timed u v → Timed v w → Timed u w
Timed-transitive u v w a b = record {
  emissions = a.emissions ++ b.emissions;
  sent = b.sent ∙ ap (λ s. s ++ b.emissions) a.sent ∙ append_assoc u.sent a.emissions b.emissions;
  within =
      subst (λ ts. Within (last_stamp u) ts (last_stamp w))
        (sym (stamps_of-append a.emissions b.emissions))
        (Within-append (last_stamp u) (last_stamp v) (last_stamp w) (stamps_of a.emissions)
          (stamps_of b.emissions) a.within b.within);
}

pub Timed-IsPreorder : IsPreorder Timed
Timed-IsPreorder = record {
  reflexive = λ w. quiet w w refl (omega arith);
  transitive = Timed-transitive;
}

module _ (env : Env) where
  clock_later : (w : World) → last_stamp w < (clock_now env w).0
  unfolding clock_now
  clock_later w = (now_bounds (env.times w.reads) w.clock).0

  clock_kept :
      (w : World)
      → (last_stamp (clock_now env w).1 ≡ (clock_now env w).0) × ((clock_now env w).1.sent ≡ w.sent)
  unfolding clock_now
  clock_kept w = ((now_bounds (env.times w.reads) w.clock).2, refl)

  pub clock_now-Timed : Follows Timed (change (clock_now env))
  unfolding change
  clock_now-Timed = record {
    at = λ w.
        let (stamp, same) = clock_kept w in
        quiet w (clock_now env w).1 same (omega (arith, clock_later w, stamp));
  }

  pub date_now-Timed : Follows Timed (change (date_now env))
  unfolding date_now change
  date_now-Timed = record { at = λ w. quiet w _ refl (omega arith) }

  pub machine-Timed : Follows Timed (change get_machine)
  unfolding change
  machine-Timed = record { at = λ w. quiet w _ refl (omega arith) }

  pub abort-Timed : Follows Timed (change abort)
  unfolding change
  abort-Timed = record { at = λ w. quiet w _ refl (omega arith) }

  pub move_to-Timed : (to : Machine.WorkerState) → Follows Timed (move_to to)
  unfolding move_to
  move_to-Timed to = record { at = λ w. quiet w _ (ground arith) (ground arith) }

  pub l0-Timed : (t : String) (e : L0Event) → Follows Timed (emit env (l0 e))
  unfolding stamps_of
  l0-Timed t e = record {
    at = λ w. elim (emit_cases env t (l0 e) w) [
      | inl taken ↦ rw taken (l0_heard w)
      | inr (x, thrown) ↦ rw thrown (quiet w (unheard env t w) refl (omega arith))
    ];
  }
    where
      l0_heard : (w : World) → Timed w (heard env t (l0 e) w)
      l0_heard w = record { emissions = l0 e ∷ []; sent = refl; within = omega arith }

  -- An event with the time of now is heard, or not.
  stamped :
      (make : ℕ → OutboundEvent) (t : String) (w x : World)
      → ((ts : ℕ) → ts_of (make ts) ≡ ts)
      → let (ts, v) = clock_now env w in
        x.sent ≡ v.sent ++ event (make ts) ∷ [] → last_stamp x ≡ last_stamp v → Timed w x
  unfolding stamps_of
  stamped make t w x own sent kept =
      let (ts, v) = clock_now env w in
      let (stamp, same) = clock_kept w in
      record {
        emissions = event (make ts) ∷ [];
        sent = sent ∙ ap (λ s. s ++ event (make ts) ∷ []) same;
        within = (omega (arith, clock_later w, own ts), omega (arith, own ts, stamp, kept));
      }

  unheard-Timed : (t : String) (w : World) → Timed w (unheard env t (clock_now env w).1)
  unheard-Timed t w =
      let (stamp, same) = clock_kept w in
      quiet w (unheard env t (clock_now env w).1) same (omega (arith, clock_later w, stamp))

  emit_now :
      (make : ℕ → OutboundEvent) (w : World)
      → (change (clock_now env) >>= λ ts. emit env (event (make ts))) w
        ≡ emit env (event (make (clock_now env w).0)) (clock_now env w).1
  unfolding ◌>>=◌ change
  emit_now make w = refl

  emit_now-Timed :
      (make : ℕ → OutboundEvent)
      → ((ts : ℕ) → ts_of (make ts) ≡ ts)
      → Follows Timed (change (clock_now env) >>= λ ts. emit env (event (make ts)))
  emit_now-Timed make own = record {
    at = λ w.
        let (ts, v) = clock_now env w in
        elim (emit_cases env "" (event (make ts)) v) [
          | inl taken ↦
              rw (emit_now make w, taken)
                (stamped make "" w (heard env "" (event (make ts)) v) own refl refl)
          | inr (x, thrown) ↦ rw (emit_now make w, thrown) (unheard-Timed "" w)
        ];
  }

  pub report-Timed :
      (t : String) (make : ℕ → OutboundEvent)
      → ((ts : ℕ) → ts_of (make ts) ≡ ts)
      → Follows Timed (report env t make)
  unfolding store_event
  report-Timed t make own = record {
    at = λ w.
        let (ts, v) = clock_now env w in
        elim (report_cases env t make w) [
          | inl stored ↦ rw stored (
              stamped make t w (store_event t (make ts) (heard env t (event (make ts)) v)).1 own
                refl refl)
          | inr lost ↦ rw lost (unheard-Timed t w)
        ];
  }

  start_draining-Timed : (worker : String) → Follows Timed (start_draining env worker)
  unfolding start_draining ts_of
  start_draining-Timed worker =
      Follows-bind Timed Timed-IsPreorder (move_to draining) _ (move_to-Timed draining) (λ _.
        emit_now-Timed
          (λ ts.
            worker_draining
              (record { worker_id = worker; reason = "function_timeout_approaching"; ts = ts }))
          (λ ts. refl))

  pub ruleset timed = (
    follows_rules, Timed-IsPreorder, clock_now-Timed, date_now-Timed, machine-Timed, abort-Timed,
    move_to-Timed,
  )

  pub drain-Timed : (worker : String) → Follows Timed (drain env worker)
  unfolding drain
  drain-Timed worker = search (timed, start_draining-Timed)
