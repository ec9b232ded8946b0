-- ===== src/Task/Sample.antt =====
-- A task and a world for runs of worker-instance.ts.
use l0_worker.Base.{◌+◌, String, false, none, some, [], ◌∷◌}
use l0_worker.Base.Int.{pos}
use l0_worker.Json.{str, obj, field, end}
use l0_worker.Thrown.{new_error}
use l0_worker.Clock
use l0_worker.Machine.{ready}
use l0_worker.Order.{text}
use l0_worker.Event.Inbound.{TaskSubmit, AuthEnvelope}
use l0_worker.Executor.Sample.{runtime, execution}
use l0_worker.World.{Env, World}

-- The clock ticks, nothing that is emitted is refused, and the drain timer fires before the second callback.
abbrev pub env : Env
env = record {
  runtime = runtime;
  sha256 = λ text. text;
  times = λ n. n + 100;
  sink = λ n. none;
  zod_error = λ j. new_error "ZodError";
  function_timeout_ms = pos 60000;
  drain_buffer_ms = pos 5000;
  timer_at = some 1;
}

abbrev pub task_id : String
task_id = "a"

abbrev pub auth : AuthEnvelope
auth = record { token = "00000000000000000000000000000000"; issued_at = pos 0; ttl = pos 1000 }

abbrev pub submit : TaskSubmit
submit = record {
  auth = auth;
  task_id = task_id;
  order = record { execution = execution; output = text };
  payload = obj (field "prompt" (str "hi") end);
  constraints = none;
  meta = none;
  input_hash = "h";
  submission_ts = pos 1;
}

-- A worker that is ready, with one other task in flight.
abbrev pub world : World
world = record {
  worker = record {
    state_machine = record { state = ready; listeners = [] };
    config_manager = record {
      config = record {
        worker_id = "w1";
        max_concurrency = pos 2;
        protocol_version = "1.0.0";
        l1_address = none;
        load_report_interval_ms = some (pos 5000);
        load_report_threshold = some (pos 100);
      };
      runtime = record { max_concurrency = pos 2; resource_caps = []; feature_flags = [] };
      listeners = 0 ∷ [];
    };
    slots = record {
      slots = ("b", record { task_id = "b"; started_at = 1 }) ∷ [];
      max_concurrency = pos 2;
    };
    event_store = record { events = []; max_tasks = pos 0 };
  };
  clock = Clock.new;
  reads = 0;
  emits = 0;
  sent = [];
  aborted = false;
  uncaught = [];
}
