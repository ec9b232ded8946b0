-- ===== src/Server/Drain.antt =====
-- src/server.ts, isLocalhost, handleDrain and waitForDrained. The polls of the wait are numbered: `inflight k`
-- is the number of tasks in flight at poll `k`, and `times k` what Date.now() reads there.
pub mod Ending
mod Examples
use l0_worker.Base.{
  ℕ, zero, suc, ◌+◌, String, Bool, true, false, not, ◌||◌, Option, none, some, List, ◌==◌, eqb,
  if◌then◌else◌,
}
use l0_worker.Base.Int.{ℤ, pos, negsuc, ◌-ℤ◌, ltb_ℤ}
use l0_worker.Json.{Json, null, bool, num, str, arr, obj, Fields, end, field, property}
use l0_worker.Thrown.{Thrown, error, Result, ok, err, ◌>>=◌}
use l0_worker.Auth.{AuthSettings, validate_auth}
use l0_worker.Server.{Response, json_response, failure, rejection}

-- isLocalhost, by the address that requestIP gives
unfoldable pub is_localhost : Option String → Bool
is_localhost none = false
is_localhost (some a) = a == "127.0.0.1" || a == "::1" || a == "::ffff:127.0.0.1"

-- Whether a value counts as true in a test.
unfoldable pub truthy : Json → Bool
truthy null = false
truthy (bool b) = b
truthy (num (pos n)) = not (eqb n 0)
truthy (num (negsuc n)) = true
truthy (str s) = not (s == "")
truthy (arr js) = true
truthy (obj fs) = true

abbrev if_truthy : Option Json → Option Json
if_truthy none = none
if_truthy (some j) = if truthy j then some j else none

-- How `waitForDrained` ends: the event `worker.drained`, with the tasks that are left if the time was up.
pub data Drained : Type 0 where
  drained : Drained
  timed_out : ℕ → Drained

-- The loop, from a poll on; with `none` the fuel has run out.
unfoldable pub wait_loop : (ℕ → ℕ) → (ℕ → ℕ) → ℕ → ℤ → ℕ → ℕ → Option Drained
wait_loop inflight times start max_wait zero k = none
wait_loop inflight times start max_wait (suc fuel) k =
    let rest = wait_loop inflight times start max_wait fuel (k + 1) in
    if eqb (inflight k) 0
    then some drained
    else if ltb_ℤ max_wait (pos (times k) -ℤ pos start)
    then some (timed_out (inflight k))
    else rest

-- Leaves 100 ms of the buffer for the exit.
abbrev pub max_wait_of : ℤ → ℤ
max_wait_of drain_buffer_ms = drain_buffer_ms -ℤ pos 100

-- waitForDrained(), where `start` is the first reading of the clock
unfoldable pub wait_for_drained : (ℕ → ℕ) → (ℕ → ℕ) → ℕ → ℤ → ℕ → Option Drained
unfolding wait_loop
wait_for_drained inflight times start drain_buffer_ms fuel =
    wait_loop inflight times start (max_wait_of drain_buffer_ms) fuel 0

-- `null_access` is the message of the engine's TypeError for a property of null.
module _ (hmac : String → List ℕ → String) (settings : AuthSettings) (null_access : String) where
  -- body.auth, where it is truthy; a body that is empty or not JSON is an empty object
  unfoldable pub drain_auth : Option Json → Result (Option Json)
  unfolding truthy
  drain_auth none = ok none
  drain_auth (some null) = err (error "TypeError" null_access)
  drain_auth (some (obj fs)) = ok (if_truthy (property "auth" fs))
  drain_auth (some _) = ok none

  unfoldable pub check_auth : ℕ → String → Option Json → Result (Option Response)
  unfolding rejection
  check_auth now worker_id none = ok (some (failure 401 "Auth required for non-localhost requests"))
  check_auth now worker_id (some auth) = do
    v ← validate_auth hmac settings now auth worker_id
    ok (rejection v)

  -- What refuses a request to drain; localhost needs no auth.
  unfoldable pub drain_refusal : ℕ → Bool → String → Option Json → Result (Option Response)
  unfolding drain_auth check_auth
  drain_refusal now true worker_id body = ok none
  drain_refusal now false worker_id body = do auth ← drain_auth body; check_auth now worker_id auth

  unfoldable pub drain_response : String → ℤ → Response
  drain_response worker_id drain_buffer_ms = json_response 200 (
      obj (
        field "success" (bool true) (
          field "message" (str "Drain initiated")
            (field "workerId" (str worker_id) (field "drainBufferMs" (num drain_buffer_ms) end)))))

  abbrev drain_answer : String → ℤ → Option Response → Response × Bool
  drain_answer worker_id drain_buffer_ms (some r) = (r, false)
  drain_answer worker_id drain_buffer_ms none = (drain_response worker_id drain_buffer_ms, true)

  -- handleDrain(req, server); the Bool says whether the worker announces that it drains and waits for its
  -- tasks, to exit then.
  unfoldable pub handle_drain : ℕ → Bool → String → ℤ → Option Json → Result (Response × Bool)
  unfolding drain_refusal drain_response
  handle_drain now local worker_id drain_buffer_ms body = do
    refused ← drain_refusal now local worker_id body
    ok (drain_answer worker_id drain_buffer_ms refused)
