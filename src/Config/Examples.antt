-- ===== src/Config/Examples.antt =====
-- Runs of src/config.ts.
use l0_worker.Base.{true, none, some, ◌≡◌, ◌⊎◌, refl}
use l0_worker.Base.Int.{pos, negsuc, ◌≤ℤ◌, ◌<ℤ◌}
use l0_worker.Text.{codes}
use l0_worker.Decimal.{print}
use l0_worker.Thrown.{ok, err, new_error}
use l0_worker.Worker
use l0_worker.Worker.{VercelWorker}
use l0_worker.Worker.Configuration.{IsValid}
use l0_worker.Config.{ProcessEnv, config, parse_int, create_worker_instance}
use l0_worker.Config.Creation.{worker_created}

abbrev process_env : ProcessEnv
process_env = record {
  worker_id = some "w7";
  max_concurrency = some "12";
  port = none;
  function_timeout_ms = none;
  drain_buffer_ms = some "soon";
  skip_auth_validation = none;
  deployment = some "vercel";
  vercel = none;
  l0_auth_secret = some "secret";
}

twelve : codes "12" ≡ print (pos 12)
unfolding print
twelve = refl

worker_created_example :
    ((pos 12 <ℤ pos 1)
      × (create_worker_instance (new_error "ZodError") (config "u" process_env)
          ≡ err (new_error "ZodError")))
    ⊎ ((w : VercelWorker) × (pos 1 ≤ℤ pos 12)
        × (create_worker_instance (new_error "ZodError") (config "u" process_env) ≡ ok w)
        × IsValid w
        × (Worker.max_concurrency w ≡ pos 12)
        × (Worker.worker_id w ≡ "w7")
        × (Worker.is_accepting w ≡ true))
worker_created_example =
    worker_created (new_error "ZodError") "u" process_env "12" (pos 12) refl twelve

-- parseInt stops at what is not a digit.
with_unit : parse_int " -30s" ≡ some (negsuc 29)
unfolding parse_int
with_unit = refl

no_digits : parse_int "many" ≡ none
unfolding parse_int
no_digits = refl

-- A text that is no number leaves the preset's value.
preset_stays : (config "u" process_env).drain_buffer_ms ≡ pos 5000
unfolding config
preset_stays = refl
