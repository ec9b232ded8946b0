-- ===== src/Server/Sample.antt =====
-- A secret, a worker and a signature for runs of server.ts.
use l0_worker.Base.{ℕ, String, true, false, none, some, List, [], ◌∷◌}
use l0_worker.Base.Int.{pos}
use l0_worker.Json.{Json, null}
use l0_worker.Machine.{ready}
use l0_worker.Auth.{AuthSettings}
use l0_worker.Worker.{VercelWorker}

abbrev pub hmac : String → List ℕ → String
hmac key text = "AAAAAAAAAAAAAAAAAAAAAAAAAAAAAAAAAAAAAAAAAAA="

abbrev pub details : Json → Json
details j = null

abbrev pub settings : AuthSettings
settings = record { skip_auth_validation = false; l0_auth_secret = some "secret" }

-- A worker with a maximum of `n`.
abbrev pub worker : ℕ → VercelWorker
worker n = record {
  state_machine = record { state = ready; listeners = [] };
  config_manager = record {
    config = record {
      worker_id = "w1";
      max_concurrency = pos 2;
      protocol_version = "1.0.0";
      l1_address = none;
      load_report_interval_ms = some (pos 5000);
      load_report_threshold = some (pos 100);
    };
    runtime = record { max_concurrency = pos n; resource_caps = []; feature_flags = [] };
    listeners = 0 ∷ [];
  };
  slots = record { slots = []; max_concurrency = pos n };
  event_store = record { events = []; max_tasks = pos 0 };
}

-- A development server, which does not check signatures.
abbrev pub unchecked : AuthSettings
unchecked = record { skip_auth_validation = true; l0_auth_secret = none }
