-- ===== src/Worker.antt =====
-- src/worker-instance.ts: the worker, but for the execution of a task. A construction that throws a
-- ZodError is `none`.
pub mod Configuration
mod Examples
use l0_worker.Base.{ℕ, String, Bool, Option, none, some, List, [], ◌∷◌}
use l0_worker.Base.Int.{ℤ}
use l0_worker.Thrown.{Thrown, Result, ok, err, ◌>>=◌}
use l0_worker.Machine
use l0_worker.Machine.{WorkerState, WorkerStateMachine, Notice, ready}
use l0_worker.Settings
use l0_worker.Settings.{WorkerConfigInput, ConfigManager, RuntimeConfig, Update}
use l0_worker.Slots
use l0_worker.Slots.{SlotManager}
use l0_worker.Store
use l0_worker.Store.{MemoryEventStore}
use l0_worker.Store.Interface.{memory_store}
use l0_worker.Replay
use l0_worker.Replay.{ReplayResult}
use l0_worker.Event.Inbound.{TaskReplayRequest}
use l0_worker.Event.Outbound.{OutboundEvent}
use l0_worker.Base.Int.{pos}

-- The replayer has no state but the event store.
pub record VercelWorker : Type 0 where
  pub state_machine : WorkerStateMachine
  pub config_manager : ConfigManager
  pub slots : SlotManager
  pub event_store : MemoryEventStore

-- The identity of the listener that the constructor subscribes to the configuration.
abbrev pub slots_listener : Settings.Listener
slots_listener = 0

abbrev start : Result (WorkerStateMachine × List Notice) → Result WorkerStateMachine
start r = r >>= λ p. ok p.0

-- The constructor after the configuration is parsed.
unfoldable pub assemble : ConfigManager → Result VercelWorker
unfolding Slots.new Machine.transition Settings.on_update
assemble config_manager = do
  slots ← Slots.new (Settings.max_concurrency config_manager)
  machine ← start (Machine.transition ready Machine.new)
  ok (record {
    state_machine = machine;
    config_manager = Settings.on_update slots_listener config_manager;
    slots = slots;
    event_store = Store.new (pos 0);
  })

-- new VercelWorker(workerConfig)
unfoldable pub new : WorkerConfigInput → Option (Result VercelWorker)
unfolding assemble Settings.new
new input = elim (Settings.new input) [ none ↦ none | some c ↦ some (assemble c) ]

abbrev pub worker_id : VercelWorker → String
worker_id w = w.config_manager.config.worker_id

abbrev pub state : VercelWorker → WorkerState
state w = w.state_machine.state

abbrev pub protocol_version : VercelWorker → String
protocol_version w = w.config_manager.config.protocol_version

unfoldable pub is_accepting : VercelWorker → Bool
unfolding Machine.is_accepting
is_accepting w = Machine.is_accepting w.state_machine

unfoldable pub has_available_slot : VercelWorker → Bool
unfolding Slots.has_available_slot
has_available_slot w = Slots.has_available_slot w.slots

abbrev pub max_concurrency : VercelWorker → ℤ
max_concurrency w = Settings.max_concurrency w.config_manager

unfoldable pub inflight_count : VercelWorker → ℕ
unfolding Slots.inflight_count
inflight_count w = Slots.inflight_count w.slots

unfoldable pub available_slots : VercelWorker → ℤ
unfolding Slots.available_count
available_slots w = Slots.available_count w.slots

-- The calls of the configuration's listeners. The one of the worker sets the maximum of its slots; no
-- other is subscribed.
unfoldable pub notify : List Settings.Listener → RuntimeConfig → SlotManager → Result SlotManager
unfolding Slots.set_max_concurrency
notify [] runtime slots = ok slots
notify (l ∷ ls) runtime slots = do
  slots' ← Slots.set_max_concurrency runtime.max_concurrency slots
  notify ls runtime slots'

-- updateConfig(update)
unfoldable pub update_config : Update → VercelWorker → Result VercelWorker
unfolding notify Settings.update
update_config u w = do
  updated ← Settings.update u w.config_manager
  slots ← notify updated.1 updated.0.runtime w.slots
  ok (record w { config_manager = updated.0; slots = slots })

-- canReplay(taskId)
unfoldable pub can_replay : String → VercelWorker → Bool
unfolding Replay.can_replay
can_replay task_id w = Replay.can_replay memory_store task_id w.event_store

-- replay(request, emit)
unfoldable pub replay : TaskReplayRequest → VercelWorker → List OutboundEvent × ReplayResult
unfolding Replay.replay_with_validation
replay request w =
    Replay.replay_with_validation memory_store request.task_id request.expected_output_hash
      w.event_store
