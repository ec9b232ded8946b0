-- ===== src/Api/Examples.antt =====
-- Runs of the handlers of api/.
use l0_worker.Base.{false, none, some, ◌≡◌, ◌⊎◌, refl}
use l0_worker.Json.{Json, null}
use l0_worker.Thrown.{err, new_error, ok, Result}
use l0_worker.Event.Inbound.{WorkerConfigUpdate}
use l0_worker.Requests.{parse_config_update}
use l0_worker.Requests.Submit.RoundTrip.{submit_json}
use l0_worker.Worker.{VercelWorker}
use l0_worker.Task.Sample.{env, submit, world}
use l0_worker.Server.{handle_config, handle_replay, failure}
use l0_worker.Server.Submit.{handle_submit}
use l0_worker.Server.Sample.{hmac, details, settings}
use l0_worker.Api as Api
use l0_worker.Api.{host_of}
use l0_worker.Api.Equivalence.{deployments_agree, carry, Unauthorized}

abbrev body : Json
body = submit_json submit

abbrev create : Result VercelWorker
create = err (new_error "ZodError")

deployments_agree_example :
    (Api.submit hmac details settings env create 8 "POST" body (host_of world)
      ≡ carry host_of (handle_submit hmac details settings env 8 (some body) world))
    × (Api.replay hmac details settings 8 "POST" body (some world.worker)
        ≡ handle_replay hmac details settings 8 (some body) world.worker)
    × ((Api.config hmac details settings 8 9 "POST" body (some world.worker)
          ≡ carry some (handle_config hmac details settings 8 9 false (some body) world.worker))
        ⊎ ((u : WorkerConfigUpdate) × (parse_config_update body ≡ some u)
            × (u.auth ≡ none)
            × Unauthorized hmac details settings 8 9 body world.worker))
deployments_agree_example = deployments_agree hmac details settings env create 8 9 body world

wrong_method :
    Api.submit hmac details settings env create 8 "GET" null (host_of world)
    ≡ ok (failure 405 "Method not allowed", host_of world)
unfolding Api.submit
wrong_method = refl
