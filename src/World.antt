-- ===== src/World.antt =====
-- What the execution of a task reads and changes (src/worker-instance.ts): the worker, the global
-- clock, the events that are emitted for the task, and the task's abort signal.
use l0_worker.Base.{ℕ, ◌+◌, String, Bool, Option, none, some, List, [], ◌∷◌, ◌++◌}
use l0_worker.Base.Int.{ℤ}
use l0_worker.Json.{Json}
use l0_worker.Thrown.{Thrown, ok, err}
use l0_worker.Clock
use l0_worker.Clock.{MonotonicClock}
use l0_worker.Event.Outbound.{OutboundEvent}
use l0_worker.Executor.Runtime.{Runtime, L0Event}
use l0_worker.Store.{record_event}
use l0_worker.Effects.{Action}
use l0_worker.Worker.{VercelWorker}

-- What the worker does not decide: the L0 runtime, SHA-256 in hexadecimal, the readings of `Date.now()`
-- in order, what each call of `emit` throws, if it throws, the error that zod throws for a payload, the
-- deployment's times, and before which callback of the execution the drain timer fires, if it does.
pub record Env : Type 0 where
  pub runtime : Runtime
  pub sha256 : String → String
  pub times : ℕ → ℕ
  pub sink : ℕ → Option Thrown
  pub zod_error : Json → Thrown
  pub function_timeout_ms : ℤ
  pub drain_buffer_ms : ℤ
  pub timer_at : Option ℕ

-- What `emit` is called with.
pub data Emission : Type 0 where
  event : OutboundEvent → Emission
  l0 : L0Event → Emission

-- `reads` counts the readings of the system's clock, `emits` the calls of `emit`; `sent` are the
-- emissions that did not throw. `uncaught` are errors that were thrown in a timer's callback.
pub record World : Type 0 where
  pub worker : VercelWorker
  pub clock : MonotonicClock
  pub reads : ℕ
  pub emits : ℕ
  pub sent : List Emission
  pub aborted : Bool
  pub uncaught : List Thrown

module _ (env : Env) where
  open env use {times, sink}

  -- Date.now()
  unfoldable pub date_now : World → ℕ × World
  date_now w = (times w.reads, record w { reads = w.reads + 1 })

  -- clock.now()
  unfoldable pub clock_now : World → ℕ × World
  unfolding Clock.now
  clock_now w =
      let (c, t) = Clock.now (times w.reads) w.clock in
      (t, record w { clock = c; reads = w.reads + 1 })

  -- emit(e)
  unfoldable pub emit : Emission → Action World (Unit {0})
  emit e w = elim (sink w.emits) [
    | none ↦ (ok tt, record w { emits = w.emits + 1; sent = w.sent ++ e ∷ [] })
    | some x ↦ (err x, record w { emits = w.emits + 1 })
  ]

-- eventStore.record(taskId, e)
unfoldable pub store_event : String → OutboundEvent → World → Unit {0} × World
unfolding record_event
store_event t e w = (
  tt,
  record w { worker = record w.worker { event_store = record_event t e w.worker.event_store } },
)
