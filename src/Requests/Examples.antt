-- ===== src/Requests/Examples.antt =====
-- Runs of the schemas of src/events/inbound.ts and src/inference/order.ts.
use l0_worker.Base.{true, some, ◌≡◌, ◌↔◌, refl}
use l0_worker.Json.{Json}
use l0_worker.Text.{utf16_length}
use l0_worker.Auth.{envelope_admits}
use l0_worker.Order.{order_admits}
use l0_worker.Task.Sample.{submit}
use l0_worker.Requests.Submit.{parse_task_submit}
use l0_worker.Requests.Submit.RoundTrip.{submit_json, parse_task_submit-submit_json, submission_iff}

envelope_ok : envelope_admits submit.auth ≡ true
unfolding envelope_admits utf16_length
envelope_ok = refl

order_ok : order_admits submit.order ≡ true
unfolding order_admits
order_ok = refl

parse_task_submit-submit_json_example : parse_task_submit (submit_json submit) ≡ some submit
parse_task_submit-submit_json_example = parse_task_submit-submit_json submit envelope_ok order_ok

submission_iff_example :
    ((j : Json) × (parse_task_submit j ≡ some submit))
    ↔ ((envelope_admits submit.auth ≡ true) × (order_admits submit.order ≡ true))
submission_iff_example = submission_iff submit
