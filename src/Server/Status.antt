-- ===== src/Server/Status.antt =====
-- src/server.ts, handleStatus.
use l0_worker.Base.{ℕ}
use l0_worker.Base.Int.{pos, ◌-ℤ◌}
use l0_worker.Json.{str, num, obj, end, field}
use l0_worker.Machine.{label}
use l0_worker.Worker
use l0_worker.Worker.{VercelWorker}
use l0_worker.Server.{Response, json_response}

-- handleStatus(): the clock reads `now` and then `ts`, and read `started` when the server was.
unfoldable pub handle_status : ℕ → ℕ → ℕ → VercelWorker → Response
handle_status started now ts w = json_response 200 (
    obj (
      field "workerId" (str (Worker.worker_id w)) (
        field "state" (str (label (Worker.state w))) (
          field "protocolVersion" (str (Worker.protocol_version w)) (
            field "maxConcurrency" (num (Worker.max_concurrency w)) (
              field "inflight" (num (pos (Worker.inflight_count w))) (
                field "availableSlots" (num (Worker.available_slots w)) (
                  field "uptimeMs" (num (pos now -ℤ pos started))
                    (field "ts" (num (pos ts)) end)))))))))
