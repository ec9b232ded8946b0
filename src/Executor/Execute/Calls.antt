-- ===== src/Executor/Execute/Calls.antt =====
-- The callbacks that an execution of executor/executor.ts calls.
use l0_worker.Base.{
  ℕ, String, Bool, true, false, Option, none, some, List, [], ◌∷◌, ◌++◌, map, All, All-append, ◌≡◌,
  arith, inl, inr,
}
use l0_worker.Base.Int.{ℤ}
use l0_worker.Map.{Map}
use l0_worker.Json.{Json}
use l0_worker.Thrown.{Thrown, Result, ok, err, Result-cases}
use l0_worker.Order.{
  ExecutionSpec, OutputSpec, text, tokens, json, InferenceOrder, ParallelSpec, ParallelMode, race,
  fanout, ModelSpec,
}
use l0_worker.Payload.{TaskPayload, Message, build_messages}
use l0_worker.Executor.Runtime.{Runtime, L0Event, L0State, Occurrence, emitted, streamed}
use l0_worker.Executor.Consume.{
  Callback, on_l0_event, on_tool_call, failed, Execution, consume, at_start,
}
use l0_worker.Executor.Consume.Tokens.{calls_for, consume_shape}
use l0_worker.Executor.Single.{execute_text, execute_structured, first_model}
use l0_worker.Executor.Parallel.{execute_parallel, race_calls}
use l0_worker.Executor.Execute.{execute_order, execute_single, with_worker_id}

abbrev pub IsNoToolCall : Callback → Type 0
IsNoToolCall (on_tool_call name args) = ⊥
IsNoToolCall _ = Unit

record NoToolCalls (cs : List Callback) : Type 0 where
  all : All IsNoToolCall cs

calls_for-NoToolCalls : (seen : Bool) (os : List Occurrence) → All IsNoToolCall (calls_for seen os)
calls_for-NoToolCalls seen [] = tt
calls_for-NoToolCalls seen (emitted e ∷ os) = (tt, calls_for-NoToolCalls seen os)
calls_for-NoToolCalls seen (streamed e ∷ os) =
    ground (arith, calls_for-NoToolCalls seen os, calls_for-NoToolCalls true os)

consumed-NoToolCalls : (os : List Occurrence) → NoToolCalls (consume os at_start).calls
consumed-NoToolCalls os =
    let (_, _, calls) = consume_shape os at_start in
    record { all = rw calls (calls_for-NoToolCalls false os) }

l0_events-All : (es : List L0Event) → All IsNoToolCall (map on_l0_event es)
l0_events-All [] = tt
l0_events-All (e ∷ es) = (tt, l0_events-All es)

l0-NoToolCalls : (es : List L0Event) → NoToolCalls (map on_l0_event es)
l0-NoToolCalls es = record { all = l0_events-All es }

race-NoToolCalls :
    (es : List L0Event) (r : Result (L0State × ℕ))
    → NoToolCalls (map on_l0_event es ++ race_calls r)
race-NoToolCalls es r = record {
  all =
      All-append IsNoToolCall (map on_l0_event es) (race_calls r) (l0_events-All es) (ground arith);
}

module _ (runtime : Runtime) where
  single-NoToolCalls :
      (output : OutputSpec) (model : ModelSpec) (execution : ExecutionSpec)
      (messages : List Message) (meta : Option (Map Json)) (signal : Bool)
      → NoToolCalls (execute_single runtime output model execution messages meta signal).calls
  unfolding execute_single execute_text execute_structured
  single-NoToolCalls text model execution messages meta signal = search consumed-NoToolCalls
  single-NoToolCalls tokens model execution messages meta signal = search consumed-NoToolCalls
  single-NoToolCalls (json schema strict) model execution messages meta signal =
      search consumed-NoToolCalls

  mode-NoToolCalls :
      (mode : ParallelMode) (limit : Option ℤ) (execution : ExecutionSpec) (messages : List Message)
      (output : OutputSpec) (meta : Option (Map Json)) (signal : Bool)
      → NoToolCalls
          (execute_parallel runtime
            (record { mode = mode; max = limit })
            execution
            messages
            output
            meta
            signal).calls
  unfolding execute_parallel
  mode-NoToolCalls race limit execution messages output meta signal = search race-NoToolCalls
  mode-NoToolCalls fanout limit execution messages output meta signal = search l0-NoToolCalls

  abbrev run_with :
      Option ParallelSpec
      → Result ModelSpec
      → InferenceOrder
      → List Message
      → Option (Map Json)
      → Bool
      → Execution
  run_with (some spec) m order messages meta signal =
      execute_parallel runtime spec order.execution messages order.output meta signal
  run_with none (err e) order messages meta signal = failed e
  run_with none (ok model) order messages meta signal =
      execute_single runtime order.output model order.execution messages meta signal

  run_with-NoToolCalls :
      (parallel : Option ParallelSpec) (m : Result ModelSpec) (order : InferenceOrder)
      (messages : List Message) (meta : Option (Map Json)) (signal : Bool)
      → NoToolCalls (run_with parallel m order messages meta signal).calls
  run_with-NoToolCalls (some spec) m order messages meta signal =
      mode-NoToolCalls spec.mode spec.max order.execution messages order.output meta signal
  run_with-NoToolCalls none (err e) order messages meta signal = record { all = tt }
  run_with-NoToolCalls none (ok model) order messages meta signal =
      single-NoToolCalls order.output model order.execution messages meta signal

  execute_order_run :
      (order : InferenceOrder) (payload : TaskPayload) (meta : Option (Map Json))
      (worker_id : String) (signal : Bool) (messages : List Message)
      → build_messages payload ≡ ok messages
      → execute_order runtime order payload meta worker_id signal
        ≡ run_with order.execution.parallel
            (first_model order.execution.models)
            order
            messages
            (some (with_worker_id meta worker_id))
            signal
  unfolding execute_order
  execute_order_run order payload meta worker_id signal messages good = ground arith

  execute_order-failed :
      (order : InferenceOrder) (payload : TaskPayload) (meta : Option (Map Json))
      (worker_id : String) (signal : Bool) (e : Thrown)
      → build_messages payload ≡ err e
      → execute_order runtime order payload meta worker_id signal ≡ failed e
  unfolding execute_order
  execute_order-failed order payload meta worker_id signal e bad = ground arith

  -- An execution of an order never calls onToolCall, whatever tools the order has and whatever the
  -- runtime does.
  pub order_calls_no_tool :
      (order : InferenceOrder) (payload : TaskPayload) (meta : Option (Map Json))
      (worker_id : String) (signal : Bool)
      → All IsNoToolCall (execute_order runtime order payload meta worker_id signal).calls
  order_calls_no_tool order payload meta worker_id signal =
      elim (Result-cases (build_messages payload)) [
        | inl (e, bad) ↦ rw (execute_order-failed order payload meta worker_id signal e bad) tt
        | inr (messages, good) ↦
            rw (execute_order_run order payload meta worker_id signal messages good)
              (run_with-NoToolCalls order.execution.parallel (first_model order.execution.models)
                order messages (some (with_worker_id meta worker_id)) signal).all
      ]
