-- ===== src/Interleaving.antt =====
-- src/worker-instance.ts with several tasks in flight on one worker. What executeTaskWithEvents does between two
-- points at which it waits is a piece; the pieces of the tasks, the drain timers and the hot updates of the
-- configuration come in any order. The relation allows more orders than the event loop: it lets others go
-- first between any two pieces, and calls back in any way while an order is executed.
pub mod Occupancy
pub mod Emissions
pub mod History
mod Examples
use l0_worker.Base.{ℕ, String, List, [], Option, some, ◌≡◌, if◌then◌else◌}
use l0_worker.Map
use l0_worker.Map.{Map}
use l0_worker.Thrown.{Thrown, Result, ok, err}
use l0_worker.Machine.{ready, accepting, same}
use l0_worker.Payload.{TaskPayload, parse_task_payload}
use l0_worker.Settings.{Update}
use l0_worker.Event.Inbound.{TaskSubmit}
use l0_worker.Event.Outbound.{task_accepted}
use l0_worker.Executor.Consume.{Callback, ExecutionResult}
use l0_worker.Effects.{Action, pure, throw, change, try_catch, ◌>>=◌, ◌>>◌}
use l0_worker.Worker
use l0_worker.Worker.{VercelWorker, update_config}
use l0_worker.World.{Env, World, date_now}
use l0_worker.Task as Task
use l0_worker.Task.{
  acquire_slot, move_to, report, callback, completed, failed, timer_fires, leave, get_machine,
}

-- Where the execution of a task is: it has its slot, it is accepted, its order is executed, it has thrown, or
-- it is to be left.
pub data Stage : Type 0 where
  entered opened running ended : Stage
  failing : Thrown → Stage

-- A task in flight, with the worker's name that it read.
pub record InFlight : Type 0 where
  pub submit : TaskSubmit
  pub worker : String
  pub stage : Stage

pub record Scene : Type 0 where
  pub tasks : Map InFlight
  pub world : World

-- The stage after a piece: what it throws is caught.
abbrev pub after : Result (Unit {0}) → Stage → Stage
after (ok u) next = next
after (err e) next = failing e

module _ (env : Env) where
  -- From the slot to the record of TASK_ACCEPTED.
  unfoldable pub opening : TaskSubmit → String → Task.Step
  opening submit worker = do
    machine ← change get_machine
    if same machine.state ready then move_to accepting else pure tt
    report env submit.task_id
        (λ ts. task_accepted (record { task_id = submit.task_id; worker_id = worker; ts = ts }))

  -- The reading of the time at which the execution starts.
  unfoldable pub timing : Task.Step
  timing = change (date_now env) >>= λ start. pure tt

  unfoldable pub completing : TaskSubmit → String → ExecutionResult → ℕ → Task.Step
  completing submit worker result start = change (date_now env) >>= λ end.
      report env submit.task_id (completed env submit worker result start end)

  -- The `catch` clause; what it throws goes to the caller, after the slot is released.
  unfoldable pub failure : TaskSubmit → String → Thrown → Task.Step
  failure submit worker e =
      try_catch (report env submit.task_id (failed env submit worker e)) (λ x. pure tt)

  -- What a task may do next at its stage, and its stage then.
  pub data Piece (k : InFlight) : Stage → Task.Step → Stage → Type 0 where
    open_task : Piece k entered (opening k.submit k.worker) opened
    begin : Piece k opened timing running
    call : (c : Callback) → Piece k running (callback env k.submit.task_id c) running
    stop : (e : Thrown) → Piece k running (throw e) running
    complete :
        (result : ExecutionResult) (start : ℕ)
        → Piece k running (completing k.submit k.worker result start) ended
    fail : (e : Thrown) → Piece k (failing e) (failure k.submit k.worker e) ended

  abbrev pub moved : String → InFlight → Stage → World → Scene → Scene
  moved t k next w c = record { tasks = Map.set t (record k { stage = next }) c.tasks; world = w }

  pub data Next (c : Scene) : Scene → Type 0 where
    enter :
        (s : TaskSubmit) (p : TaskPayload) (w : World)
        → parse_task_payload s.payload ≡ some p
        → acquire_slot env s.task_id c.world ≡ (ok tt, w)
        → Next c (record {
          tasks =
              Map.set s.task_id
                (record { submit = s; worker = Worker.worker_id c.world.worker; stage = entered })
                c.tasks;
          world = w;
        })
    piece :
        (t : String) (k : InFlight) (m : Task.Step) (next : Stage)
        → Map.get t c.tasks ≡ some k
        → Piece k k.stage m next
        → Next c (moved t k (after (m c.world).0 next) (m c.world).1 c)
    fire :
        (t : String) (k : InFlight)
        → Map.get t c.tasks ≡ some k
        → Next c (record c { world = timer_fires env k.worker c.world })
    depart :
        (t : String) (k : InFlight)
        → Map.get t c.tasks ≡ some k
        → k.stage ≡ ended
        → Next c (record { tasks = Map.delete t c.tasks; world = leave t c.world })
    configure :
        (u : Update) (w : VercelWorker)
        → update_config u c.world.worker ≡ ok w
        → Next c (record c { world = record c.world { worker = w } })

  pub data Reach (c : Scene) : Scene → Type 0 where
    here : Reach c c
    step : {d e : Scene} → Reach c d → Next d e → Reach c e
