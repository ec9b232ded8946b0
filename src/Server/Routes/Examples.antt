-- ===== src/Server/Routes/Examples.antt =====
-- Runs of handleRequest of server.ts.
use l0_worker.Base.{◌+◌, String, false, none, some, ◌≡◌, ◌≢◌, ◌⊎◌, refl}
use l0_worker.Requests.Submit.RoundTrip.{submit_json}
use l0_worker.Task.Sample.{env, submit, world}
use l0_worker.Server.{status}
use l0_worker.Server.Sample.{hmac, details, settings}
use l0_worker.Server.Drain.{is_localhost}
use l0_worker.Server.Routes.{
  Request, Process, Readings, not_allowed, not_found, drain, route, handle_request,
}
use l0_worker.Server.Routes.Safety.{Permitted, request-Permitted}
use l0_worker.Server.Routes.Draining.{Allowed, drain_request}

abbrev readings : Readings
readings = record { now = 8; ts = 9; started = 1 }

abbrev process : Process
process = record { world = world; drains = 0 }

abbrev null_access : String
null_access = "null is not an object"

-- A submission from another machine.
abbrev remote : Request
remote = record {
  path = "/api/submit";
  method = "POST";
  address = some "10.0.0.7";
  body = some (submit_json submit);
}

abbrev shutdown : Request
shutdown = record { path = "/api/drain"; method = "POST"; address = some "127.0.0.1"; body = none }

remote_is : is_localhost (some "10.0.0.7") ≡ false
unfolding is_localhost
remote_is = refl

shutdown_is : route "/api/drain" "POST" ≡ drain
unfolding route
shutdown_is = refl

request-Permitted_example :
    Permitted hmac details settings null_access env readings remote process
    ⊎ ((handle_request hmac details settings null_access env readings remote process).1 ≡ process)
request-Permitted_example =
    request-Permitted hmac details settings null_access env readings remote process remote_is

drain_request_example :
    let (r, p') = handle_request hmac details settings null_access env readings shutdown process in
    (p'.world ≡ world)
    × (((status r ≡ 200)
          × (p'.drains ≡ 0 + 1)
          × Allowed hmac details settings null_access env readings shutdown process)
        ⊎ ((status r ≢ 200) × (p'.drains ≡ 0)))
drain_request_example =
    drain_request hmac details settings null_access env readings shutdown process shutdown_is

wrong_method : route "/api/submit" "GET" ≡ not_allowed
unfolding route
wrong_method = refl

no_such_path : route "/api/tasks" "GET" ≡ not_found
unfolding route
no_such_path = refl
