-- ===== src/Task.antt =====
-- src/worker-instance.ts, executeTaskWithEvents: the execution of a task on a worker on which nothing
-- else happens meanwhile. An exception of a callback ends the execution with that exception, and the
-- callbacks after it are not called.
pub mod Entry
pub mod Release
pub mod Recording
pub mod Replayable
pub mod Fidelity
pub mod Speech
pub mod Protocol
pub mod Body
pub mod Lifecycle
pub mod Isolation
pub mod Timing
pub mod Ordering
pub mod Sample
mod Examples
use l0_worker.Base.{
  ℕ, zero, suc, ◌+◌, String, Bool, true, false, ◌&&◌, not, Option, none, some, List, [], ◌∷◌, ◌++◌,
  if◌then◌else◌,
}
use l0_worker.Base.Int.{ℤ, pos, ◌-ℤ◌, ltb_ℤ}
use l0_worker.Map.{Map}
use l0_worker.Json.{Json, str}
use l0_worker.Thrown.{Thrown, Result, ok, err, new_error, message_of}
use l0_worker.Machine
use l0_worker.Machine.{ready, accepting, draining, same}
use l0_worker.Slots
use l0_worker.Slots.{Acquired, acquired, no_slots, duplicate}
use l0_worker.Failure.{classify_error, is_retryable}
use l0_worker.Payload.{TaskPayload, parse_task_payload}
use l0_worker.Event.Inbound.{TaskSubmit}
use l0_worker.Event.Outbound.{
  OutboundEvent, task_accepted, task_progress, task_completed, task_failed, worker_draining,
  first_token, tool_invoked, ProgressStage,
}
use l0_worker.Executor.Consume.{
  Callback, on_first_token, on_token, on_l0_event, on_tool_call, Execution, ExecutionResult,
}
use l0_worker.Executor.Execute.{execute_order}
use l0_worker.Effects.{Action, pure, throw, lift, change, try_catch, try_finally, ◌>>=◌, ◌>>◌}
use l0_worker.Worker
use l0_worker.Worker.{VercelWorker}
use l0_worker.World.{Env, World, Emission, event, l0, date_now, clock_now, emit, store_event}

abbrev pub Step : Type 0
Step = Action World (Unit {0})

-- The drain timer is set if there is a function timeout that leaves time for the buffer.
unfoldable pub timer_set : Env → Bool
timer_set env =
    ltb_ℤ (pos 0) env.function_timeout_ms
    && ltb_ℤ (pos 0) (env.function_timeout_ms -ℤ env.drain_buffer_ms)

abbrev pub task_slots : World → Slots.SlotManager
task_slots w = w.worker.slots

abbrev with_slots : Slots.SlotManager → World → World
with_slots s w = record w { worker = record w.worker { slots = s } }

abbrev with_machine : Machine.WorkerStateMachine → World → World
with_machine m w = record w { worker = record w.worker { state_machine = m } }

abbrev pub get_machine : World → Machine.WorkerStateMachine × World
get_machine w = (w.worker.state_machine, w)

abbrev get_worker_id : World → String × World
get_worker_id w = (Worker.worker_id w.worker, w)

-- abortController.abort()
abbrev pub abort : World → Unit {0} × World
abort w = (tt, record w { aborted = true })

-- stateMachine.transition(to); the machine of a worker has no listeners to call
unfoldable pub move_to : Machine.WorkerState → Step
unfolding Machine.transition
move_to to w = elim (Machine.transition to w.worker.state_machine) [
  | ok (m, calls) ↦ (ok tt, with_machine m w)
  | err e ↦ (err e, w)
]

-- The slot is released on the way out, and the drain timer cleared.
unfoldable pub leave : String → World → World
unfolding Slots.release
leave t w = with_slots (Slots.release t w.worker.slots).0 w

module _ (env : Env) where
  -- this.slots.acquire(taskId), with the errors for its refusals
  unfoldable pub acquire_slot : String → Step
  unfolding Slots.acquire
  acquire_slot t w =
      let (s, r) = Slots.acquire (env.times w.reads) t w.worker.slots in
      elim r [
        | acquired ↦ (ok tt, with_slots s (record w { reads = w.reads + 1 }))
        | duplicate ↦ (err (new_error "Duplicate task ID"), w)
        | no_slots ↦ (err (new_error "No slots available"), w)
      ]

  -- An event of the task is emitted and then recorded.
  unfoldable pub report : String → (ℕ → OutboundEvent) → Step
  report t make = do
    ts ← change (clock_now env)
    emit env (event (make ts))
    change (store_event t (make ts))

  -- this.stateMachine.transition(DRAINING), and the event
  unfoldable pub start_draining : String → Step
  start_draining worker = do
    move_to draining
    ts ← change (clock_now env)
    emit env (
        event (
          worker_draining
            (record { worker_id = worker; reason = "function_timeout_approaching"; ts = ts })))

  -- The body of the drain timer.
  unfoldable pub drain : String → Step
  drain worker = do
    machine ← change get_machine
    if same machine.state draining then pure tt else start_draining worker
    change abort

  -- The timer fires: what its callback throws is thrown to nobody.
  unfoldable pub timer_fires : String → World → World
  timer_fires worker w =
      let (r, w') = drain worker w in
      elim r [ ok u ↦ w' | err e ↦ record w' { uncaught = w'.uncaught ++ e ∷ [] } ]

  unfoldable pub callback : String → Callback → Step
  callback t on_first_token =
      report t (λ ts.
        task_progress (record { task_id = t; stage = first_token; ts = ts; metadata = none }))
  callback t (on_token token) = pure tt
  callback t (on_l0_event e) = emit env (l0 e)
  callback t (on_tool_call name args) = report t (λ ts. task_progress (record {
    task_id = t;
    stage = tool_invoked;
    ts = ts;
    metadata = some (("toolName", str name) ∷ ("toolArgs", args) ∷ []);
  }))

  abbrev tick : String → Option ℕ → World → Option ℕ × World
  tick worker none w = (none, w)
  tick worker (some zero) w = (none, timer_fires worker w)
  tick worker (some (suc n)) w = (some n, w)

  -- The callbacks of an execution, with the timer before one of them or at the end.
  unfoldable pub callbacks : String → String → List Callback → Option ℕ → Step
  callbacks worker t [] timer w = (ok tt, (tick worker timer w).1)
  callbacks worker t (c ∷ cs) timer w =
      let (timer', w') = tick worker timer w in
      let rest = callbacks worker t cs timer' in (callback t c >>= λ _. rest) w'

  unfoldable pub completed : TaskSubmit → String → ExecutionResult → ℕ → ℕ → ℕ → OutboundEvent
  completed submit worker result start end ts = task_completed (record {
    task_id = submit.task_id;
    worker_id = worker;
    final_metrics = record {
      duration_ms = pos end -ℤ pos start;
      token_count = result.token_count;
      prompt_tokens = some result.input_tokens;
      completion_tokens = some result.output_tokens;
    };
    output_hash = env.sha256 result.content;
    output = result.content;
    ts = ts;
  })

  unfoldable pub failed : TaskSubmit → String → Thrown → ℕ → OutboundEvent
  unfolding classify_error is_retryable message_of
  failed submit worker e ts = task_failed (record {
    task_id = submit.task_id;
    worker_id = worker;
    failure_class = classify_error e;
    retryable = is_retryable (classify_error e);
    message = some (message_of e);
    ts = ts;
  })

  -- The `try` block.
  unfoldable pub attempt : TaskSubmit → String → TaskPayload → Step
  attempt submit worker payload = do
    machine ← change get_machine
    if same machine.state ready then move_to accepting else pure tt
    report submit.task_id
        (λ ts. task_accepted (record { task_id = submit.task_id; worker_id = worker; ts = ts }))
    start ← change (date_now env)
    let execution = execute_order env.runtime submit.order payload submit.meta worker true
    callbacks worker submit.task_id execution.calls (if timer_set env then env.timer_at else none)
    result ← lift execution.outcome
    end ← change (date_now env)
    report submit.task_id (completed submit worker result start end)

  -- The `try` statement with its `catch` and `finally`.
  unfoldable pub guarded : TaskSubmit → String → TaskPayload → Step
  guarded submit worker payload =
      try_finally
        (try_catch (attempt submit worker payload)
          (λ e. report submit.task_id (failed submit worker e)))
        (leave submit.task_id)

  abbrev parsed : TaskSubmit → Result TaskPayload
  parsed submit = elim (parse_task_payload submit.payload) [
    | none ↦ err (env.zod_error submit.payload)
    | some p ↦ ok p
  ]

  -- executeTaskWithEvents(taskSubmit, emit)
  unfoldable pub execute_task_with_events : TaskSubmit → Step
  execute_task_with_events submit = do
    worker ← change get_worker_id
    payload ← lift (parsed submit)
    acquire_slot submit.task_id
    guarded submit worker payload
