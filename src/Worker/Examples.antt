-- ===== src/Worker/Examples.antt =====
-- Runs of worker-instance.ts.
use l0_worker.Base.{none, some, [], ◌∷◌, ◌≡◌, ◌⊎◌, inl, refl, arith}
use l0_worker.Base.Int.{ℤ, pos, ◌<ℤ◌}
use l0_worker.Thrown.{Thrown, ok, err}
use l0_worker.Map
use l0_worker.Machine.{ready}
use l0_worker.Settings
use l0_worker.Settings.{WorkerConfigInput, Update}
use l0_worker.Worker.{VercelWorker, update_config}
use l0_worker.Worker.Configuration.{IsValid, update_config_valid}

abbrev input : WorkerConfigInput
input = record {
  worker_id = "w1";
  max_concurrency = some (pos 2);
  protocol_version = none;
  l1_address = none;
  load_report_interval_ms = none;
  load_report_threshold = none;
}

-- A worker with two slots, one of them taken.
abbrev worker : VercelWorker
worker = record {
  state_machine = record { state = ready; listeners = [] };
  config_manager = record {
    config = record {
      worker_id = "w1";
      max_concurrency = pos 2;
      protocol_version = "1.0.0";
      l1_address = none;
      load_report_interval_ms = some (pos 5000);
      load_report_threshold = some (pos 100);
    };
    runtime = record { max_concurrency = pos 2; resource_caps = []; feature_flags = [] };
    listeners = 0 ∷ [];
  };
  slots = record {
    slots = ("a", record { task_id = "a"; started_at = 1 }) ∷ [];
    max_concurrency = pos 2;
  };
  event_store = record { events = []; max_tasks = pos 0 };
}

worker_valid : IsValid worker
unfolding Settings.load_report_interval_ms Settings.load_report_threshold Map.has
worker_valid = record {
  in_service = inl refl;
  no_state_listeners = refl;
  settings = record {
    positive = ground arith;
    interval = ground arith;
    threshold = ground arith;
    caps = tt;
    flags = tt;
  };
  subscribed = refl;
  slots = record { distinct = (refl, tt); named = (refl, tt); positive = ground arith };
  in_step = refl;
  unlimited = refl;
}

abbrev to_one : Update
to_one = record { max_concurrency = some (pos 1); resource_caps = none; feature_flags = none }

update_config_valid_example :
    (((e : Thrown) × (update_config to_one worker ≡ err e))
      × ((v : ℤ) × (to_one.max_concurrency ≡ some v) × (v <ℤ pos 1)))
    ⊎ ((w' : VercelWorker) × (update_config to_one worker ≡ ok w')
        × IsValid w'
        × (w'.slots.max_concurrency ≡ pos 1)
        × (w'.slots.slots ≡ worker.slots.slots)
        × (w'.state_machine ≡ worker.state_machine)
        × (w'.event_store ≡ worker.event_store))
update_config_valid_example = update_config_valid to_one worker worker_valid
