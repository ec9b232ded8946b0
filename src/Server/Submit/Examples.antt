-- ===== src/Server/Submit/Examples.antt =====
-- Runs of handleSubmit of server.ts.
use l0_worker.Base.{Option, some, ◌≡◌, ◌≢◌, ◌⊎◌, refl}
use l0_worker.Json.{Json}
use l0_worker.Thrown.{Thrown, ok, err}
use l0_worker.Auth.{valid, validate_auth, envelope_json}
use l0_worker.Event.Inbound.{TaskSubmit}
use l0_worker.Requests.Submit.{parse_task_submit}
use l0_worker.Requests.Submit.RoundTrip.{submit_json}
use l0_worker.World.{World}
use l0_worker.Task.Sample.{env, submit, world}
use l0_worker.Server.{Response, status}
use l0_worker.Server.Sample.{hmac, details, unchecked}
use l0_worker.Server.Submit.{handle_submit}
use l0_worker.Server.Submit.Answers.{submit_answer, Streamed}

abbrev body : Option Json
body = some (submit_json submit)

submit_answer_example :
    ((e : Thrown) × (handle_submit hmac details unchecked env 8 body world ≡ err e))
    ⊎ ((r : Response) × (w' : World) × (handle_submit hmac details unchecked env 8 body world
          ≡ ok (r, w'))
        × (((status r ≢ 200) × (w' ≡ world))
            ⊎ ((j : Json) × (s : TaskSubmit) × (body ≡ some j)
                × (parse_task_submit j ≡ some s)
                × (validate_auth hmac unchecked 8 (envelope_json s.auth) s.task_id ≡ ok valid)
                × Streamed env (λ n. refl) s world r w')))
submit_answer_example = submit_answer hmac details unchecked env (λ n. refl) 8 body world
