-- ===== src/Task/Examples.antt =====
-- Runs of executeTaskWithEvents of worker-instance.ts.
use l0_worker.Base.{String, none, some, List, [], ◌∷◌, ◌++◌, map, ◌≡◌, ◌⊎◌, refl, arith}
use l0_worker.Base.Int.{pos, ◌≤ℤ◌, ◌<ℤ◌}
use l0_worker.Map
use l0_worker.Json.{property}
use l0_worker.Thrown.{ok, Thrown, err}
use l0_worker.Clock
use l0_worker.Machine
use l0_worker.Machine.{ready, accepting}
use l0_worker.Slots
use l0_worker.Payload
use l0_worker.Payload.{TaskPayload, parse_task_payload}
use l0_worker.Event.Inbound.{TaskReplayRequest}
use l0_worker.Store.{events_for_task, record_event, make_room}
use l0_worker.Worker
use l0_worker.Worker.{VercelWorker}
use l0_worker.World.{World, Emission, event, l0, clock_now, date_now, emit, store_event}
use l0_worker.Task.{
  task_slots, guarded, execute_task_with_events, acquire_slot, leave, attempt, move_to, report,
  callbacks, callback, timer_fires, drain, start_draining, timer_set, completed,
}
use l0_worker.Effects.{◌>>=◌, change, lift, pure, try_finally, try_catch}
use l0_worker.Executor.Execute.{execute_order, execute_single}
use l0_worker.Executor.Single.{first_model, execute_text, text_result}
use l0_worker.Executor.Consume.{consume, consume_one, collect_tool_calls}
use l0_worker.Event.Outbound.{
  task_accepted, task_progress, task_completed, task_failed, worker_draining,
}
use l0_worker.Task.Sample.{env, task_id, auth, submit, world}
use l0_worker.Task.Entry.{Refused}
use l0_worker.Task.Release.{execute_restores_slots}
use l0_worker.Task.Recording.{recordable, events_of}
use l0_worker.Task.Speech.{Emits}
use l0_worker.Task.Lifecycle.{task_lifecycle}
use l0_worker.Task.Body.{Whole, outcome_of}
use l0_worker.Task.Timing.{Within, stamps_of, last_stamp}
use l0_worker.Task.Ordering.{execution_ordered}
use l0_worker.Task.Isolation.{execution_isolated}
use l0_worker.Task.Fidelity.{execution_recorded, replay_repeats_execution}

abbrev request : TaskReplayRequest
request = record {
  auth = auth;
  task_id = task_id;
  input_hash = "h";
  expected_output_hash = none;
  reason = "audit";
  replay_ts = pos 9;
}

no_record : events_of task_id world ≡ []
unfolding events_for_task Map.get
no_record = refl

unlimited : world.worker.event_store.max_tasks ≤ℤ pos 0
unlimited = ground arith

execute_restores_slots_example :
    task_slots (execute_task_with_events env submit world).1 ≡ task_slots world
execute_restores_slots_example = execute_restores_slots env submit world

execution_recorded_example :
    let w' = (execute_task_with_events env submit world).1 in
    (new : List Emission) × (w'.sent ≡ [] ++ new)
    × (events_of task_id w' ≡ events_of task_id world ++ recordable new)
execution_recorded_example = execution_recorded env submit world unlimited

replay_repeats_execution_example :
    let w' = (execute_task_with_events env submit world).1 in
    (new : List Emission) × (w'.sent ≡ [] ++ new)
    × ((Worker.replay request w'.worker).0 ≡ recordable new)
replay_repeats_execution_example =
    replay_repeats_execution env submit request world refl unlimited no_record

task_lifecycle_example :
    ((e : Thrown) × (execute_task_with_events env submit world ≡ (err e, world))
      × Refused env submit world e)
    ⊎ ((p : TaskPayload) × (w' : World) × (parse_task_payload submit.payload ≡ some p)
        × (execute_task_with_events env submit world ≡ (ok tt, w'))
        × Emits (Whole env submit "w1" (outcome_of env submit "w1" p)) world w')
task_lifecycle_example = task_lifecycle env (λ n. refl) submit world

execution_isolated_example :
    let w' = (execute_task_with_events env submit world).1 in
    (w'.worker.config_manager ≡ world.worker.config_manager)
    × ((submit.task_id ≡ "b")
        ⊎ ((pos 0 <ℤ world.worker.event_store.max_tasks)
            ⊎ (events_of "b" w' ≡ events_of "b" world)))
execution_isolated_example = execution_isolated env submit world "b"

execution_ordered_example :
    let w' = (execute_task_with_events env submit world).1 in
    (new : List Emission) × (w'.sent ≡ [] ++ new) × Within 0 (stamps_of new) (last_stamp w')
execution_ordered_example = execution_ordered env submit world

-- The names of the emissions in a run.
abbrev kind : Emission → String
kind (event (task_accepted e)) = "TASK_ACCEPTED"
kind (event (task_progress e)) = "TASK_PROGRESS"
kind (event (task_completed e)) = "TASK_COMPLETED"
kind (event (task_failed e)) = "TASK_FAILED"
kind (event (worker_draining e)) = "WORKER_DRAINING"
kind (event e) = "other"
kind (l0 e) = "L0"

-- The drain timer fires during the execution, which goes on to its end.
run_emits :
    map kind (execute_task_with_events env submit world).1.sent
    ≡ "TASK_ACCEPTED" ∷ "TASK_PROGRESS" ∷ "WORKER_DRAINING" ∷ "L0" ∷ "TASK_COMPLETED" ∷ []
unfolding execute_task_with_events ◌>>=◌ change lift pure parse_task_payload Payload.parse_prompt
    Payload.parse_message_list Payload.refine property acquire_slot Slots.acquire
    Slots.has_available_slot Map.has Map.set Map.get guarded try_finally leave try_catch attempt
    move_to Machine.transition Machine.can_transition report clock_now date_now emit store_event
    Clock.now record_event events_for_task make_room callbacks callback timer_fires drain
    start_draining timer_set execute_order Payload.build_messages Payload.prompt_message first_model
    execute_single execute_text text_result consume consume_one collect_tool_calls completed
run_emits = refl
