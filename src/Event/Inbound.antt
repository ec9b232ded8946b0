-- ===== src/Event/Inbound.antt =====
-- src/events/inbound.ts: what the orchestrator sends. Numbers are the integers.
use l0_worker.Base.{String, Bool, Option}
use l0_worker.Base.Int.{ℤ}
use l0_worker.Map.{Map}
use l0_worker.Json.{Json}
use l0_worker.Order.{InferenceOrder}

pub record AuthEnvelope : Type 0 where
  pub token : String
  pub issued_at : ℤ
  pub ttl : ℤ

pub record TaskConstraints : Type 0 where
  pub timeout_ms : Option ℤ
  pub memory_cap_mb : Option ℤ
  pub determinism_required : Option Bool

-- TASK_SUBMIT
pub record TaskSubmit : Type 0 where
  pub auth : AuthEnvelope
  pub task_id : String
  pub order : InferenceOrder
  pub payload : Json
  pub constraints : Option TaskConstraints
  pub meta : Option (Map Json)
  pub input_hash : String
  pub submission_ts : ℤ

-- WORKER_DRAIN_REQUEST
pub record WorkerDrainRequest : Type 0 where
  pub worker_id : String
  pub reason : String
  pub deadline_ts : ℤ

-- TASK_REPLAY_REQUEST
pub record TaskReplayRequest : Type 0 where
  pub auth : AuthEnvelope
  pub task_id : String
  pub input_hash : String
  pub expected_output_hash : Option String
  pub reason : String
  pub replay_ts : ℤ

-- WORKER_CONFIG_UPDATE
pub record WorkerConfigUpdate : Type 0 where
  pub auth : Option AuthEnvelope
  pub worker_id : String
  pub max_concurrency : Option ℤ
  pub resource_caps : Option (Map ℤ)
  pub feature_flags : Option (Map Bool)
  pub effective_ts : ℤ

-- EXECUTION_ABORT
pub record ExecutionAbort : Type 0 where
  pub task_id : String
  pub reason : String
  pub force : Bool

pub data InboundEvent : Type 0 where
  task_submit : TaskSubmit → InboundEvent
  worker_drain_request : WorkerDrainRequest → InboundEvent
  task_replay_request : TaskReplayRequest → InboundEvent
  worker_config_update : WorkerConfigUpdate → InboundEvent
  execution_abort : ExecutionAbort → InboundEvent
