-- ===== src/Event/Outbound.antt =====
-- src/events/outbound.ts: what the worker emits.
pub mod Printing
pub mod Readback
use l0_worker.Base.{ℕ, String, Bool, Option}
use l0_worker.Base.Int.{ℤ}
use l0_worker.Map.{Map}
use l0_worker.Json.{Json}

pub data FailureClass : Type 0 where
  timeout rate_limited context_length_exceeded invalid_input model_error : FailureClass
  network_error guardrail_violation determinism_violation aborted unknown : FailureClass

pub data ProgressStage : Type 0 where
  first_token streaming tool_invoked checkpoint_written : ProgressStage

-- A duration is a difference of two readings of the system's clock, which can go back.
pub record TaskMetrics : Type 0 where
  pub duration_ms : ℤ
  pub token_count : ℕ
  pub prompt_tokens : Option ℕ
  pub completion_tokens : Option ℕ

-- WORKER_READY
pub record WorkerReadyEvent : Type 0 where
  pub worker_id : String
  pub protocol_version : String
  pub max_concurrency : ℤ
  pub ts : ℕ

-- WORKER_LOAD; pressures are in thousandths
pub record WorkerLoadEvent : Type 0 where
  pub worker_id : String
  pub inflight_tasks : ℕ
  pub queue_depth : ℕ
  pub cpu_pressure : ℤ
  pub memory_pressure : ℤ
  pub gpu_pressure : Option ℤ
  pub ts : ℕ

-- TASK_ACCEPTED
pub record TaskAcceptedEvent : Type 0 where
  pub task_id : String
  pub worker_id : String
  pub ts : ℕ

-- TASK_PROGRESS
pub record TaskProgressEvent : Type 0 where
  pub task_id : String
  pub stage : ProgressStage
  pub ts : ℕ
  pub metadata : Option (Map Json)

-- TASK_COMPLETED
pub record TaskCompletedEvent : Type 0 where
  pub task_id : String
  pub worker_id : String
  pub final_metrics : TaskMetrics
  pub output_hash : String
  pub output : String
  pub ts : ℕ

-- TASK_FAILED
pub record TaskFailedEvent : Type 0 where
  pub task_id : String
  pub worker_id : String
  pub failure_class : FailureClass
  pub retryable : Bool
  pub message : Option String
  pub ts : ℕ

-- WORKER_DRAINING
pub record WorkerDrainingEvent : Type 0 where
  pub worker_id : String
  pub reason : String
  pub ts : ℕ

-- WORKER_OFFLINE
pub record WorkerOfflineEvent : Type 0 where
  pub worker_id : String
  pub ts : ℕ

pub data OutboundEvent : Type 0 where
  worker_ready : WorkerReadyEvent → OutboundEvent
  worker_load : WorkerLoadEvent → OutboundEvent
  task_accepted : TaskAcceptedEvent → OutboundEvent
  task_progress : TaskProgressEvent → OutboundEvent
  task_completed : TaskCompletedEvent → OutboundEvent
  task_failed : TaskFailedEvent → OutboundEvent
  worker_draining : WorkerDrainingEvent → OutboundEvent
  worker_offline : WorkerOfflineEvent → OutboundEvent
