-- ===== src/Task/Fidelity.antt =====
-- The record of an executed task of worker-instance.ts, and its replay.
use l0_worker.Base.{List, [], ◌++◌, ◌≡◌, inl, inr, refl, ap, ◌∙◌}
use l0_worker.Base.Int.{pos, ◌≤ℤ◌}
use l0_worker.Event.Inbound.{TaskSubmit, TaskReplayRequest}
use l0_worker.Store.Interface.{memory_store}
use l0_worker.Replay.Exactness.{replay_exact}
use l0_worker.Worker
use l0_worker.World.{Env, World, Emission}
use l0_worker.Task.{execute_task_with_events}
use l0_worker.Task.Entry.{entry, admitted}
use l0_worker.Task.Recording.{recordable, events_of, Recorded, Recorded-IsPreorder, nothing_new}
use l0_worker.Task.Replayable.{guarded-Records}

module _ (env : Env) where
  executed-Recorded :
      (submit : TaskSubmit) (w : World)
      → Recorded submit.task_id w (execute_task_with_events env submit w).1
  executed-Recorded submit w = elim (entry env submit w) [
    | inl (e, refused, _) ↦ rw refused (nothing_new submit.task_id w w refl refl)
    | inr (p, _, taken, entered) ↦ rw entered (
        (Recorded-IsPreorder submit.task_id).transitive w (admitted env submit w) _
          (nothing_new submit.task_id w (admitted env submit w) refl refl)
          ((guarded-Records env submit (Worker.worker_id w.worker) p).at (admitted env submit w)))
  ]

  replay_emits :
      (request : TaskReplayRequest) (w : World)
      → (Worker.replay request w.worker).0 ≡ events_of request.task_id w
  unfolding Worker.replay
  replay_emits request w =
      (replay_exact memory_store request.task_id request.expected_output_hash
        w.worker.event_store).0

  -- However the execution of a task ends, and whatever the receiver of its events throws: over a store
  -- without a limit, the events recorded for the task are exactly those that it had before and then, in
  -- order, the events that were emitted in the execution, all but WORKER_DRAINING and the runtime's own.
  pub execution_recorded :
      (submit : TaskSubmit) (w : World)
      → w.worker.event_store.max_tasks ≤ℤ pos 0
      → let w' = (execute_task_with_events env submit w).1 in
        (new : List Emission) × (w'.sent ≡ w.sent ++ new)
        × (events_of submit.task_id w' ≡ events_of submit.task_id w ++ recordable new)
  execution_recorded submit w unlimited =
      let r = executed-Recorded submit w in (r.emissions, r.sent, r.recorded unlimited)

  -- Over a store without a limit, a replay of a task that was executed, and had no record before, emits
  -- exactly the events that its execution emitted, in the same order, all but WORKER_DRAINING and the
  -- runtime's own.
  pub replay_repeats_execution :
      (submit : TaskSubmit) (request : TaskReplayRequest) (w : World)
      → request.task_id ≡ submit.task_id
      → w.worker.event_store.max_tasks ≤ℤ pos 0
      → events_of submit.task_id w ≡ []
      → let w' = (execute_task_with_events env submit w).1 in
        (new : List Emission) × (w'.sent ≡ w.sent ++ new)
        × ((Worker.replay request w'.worker).0 ≡ recordable new)
  replay_repeats_execution submit request w same unlimited fresh =
      let w' = (execute_task_with_events env submit w).1 in
      let (new, sent, recorded) = execution_recorded submit w unlimited in
      (
        new,
        sent,
        replay_emits request w'
            ∙ ap (λ t. events_of t w') same
            ∙ recorded
            ∙ ap (λ es. es ++ recordable new) fresh,
      )
