-- ===== src/Server/Submit/Answers.antt =====
-- What POST /api/submit of server.ts is answered, for a client that reads the stream to its end.
use l0_worker.Base.{
  ℕ, ◌+◌, String, true, Option, none, some, List, [], ◌∷◌, ◌++◌, map, arith, ◌≡◌, ◌≢◌, ◌⊎◌, inl,
  inr, refl, ap, ◌∙◌, sym, Option-cases, Bool-cases,
}
use mathlib.Core.Path.{subst}
use l0_worker.Base.Int.{pos, ◌≤ℤ◌}
use l0_worker.Json.{Json}
use l0_worker.Thrown.{Thrown, new_error, ok, err, Result-cases}
use l0_worker.Slots
use l0_worker.Auth.{AuthSettings, valid, invalid, validate_auth, envelope_json}
use l0_worker.Event.Inbound.{TaskSubmit}
use l0_worker.Payload.{TaskPayload, parse_task_payload}
use l0_worker.Requests.Submit.{parse_task_submit}
use l0_worker.Effects as Effects
use l0_worker.Effects.{try_catch}
use l0_worker.Worker
use l0_worker.World.{Env, World, Emission}
use l0_worker.Task.{execute_task_with_events, task_slots}
use l0_worker.Task.Entry.{Refused}
use l0_worker.Task.Recording.{recordable}
use l0_worker.Task.Release.{execute_restores_slots}
use l0_worker.Task.Body.{Whole, outcome_of}
use l0_worker.Task.Lifecycle.{task_lifecycle}
use l0_worker.Server.{Chunk, Response, status, event_stream, done, error_event, rejection}
use l0_worker.Server.Submit.{
  Feed, response_of, begin, chunk_of, error_message, error_json, enqueue, start, stream_task, admit,
  submit_request, handle_submit,
}

module _ (env : Env) (quiet : (n : ℕ) → env.sink n ≡ none) where
  enqueue_lem :
      (c : Chunk) (f : Feed)
      → enqueue env c f ≡ (
        ok tt,
        record {
          chunks = f.chunks ++ c ∷ [];
          world = record f.world { emits = f.world.emits + 1 };
        },
      )
  unfolding enqueue
  enqueue_lem c f = ground (arith, quiet f.world.emits)

  -- A stream that ends with such a chunk.
  abbrev ended : World → Chunk → Feed
  ended v c = record {
    chunks = map chunk_of v.sent ++ c ∷ [];
    world = record v { emits = v.emits + 1 };
  }

  start_ok :
      (submit : TaskSubmit) (f : Feed) (v : World)
      → execute_task_with_events env submit (begin f.world) ≡ (ok tt, v)
      → start env submit f ≡ (ok tt, ended v done)
  unfolding start try_catch Effects.◌>>=◌
  start_ok submit f v h = rw (h, enqueue_lem) refl

  start_err :
      (submit : TaskSubmit) (f : Feed) (v : World) (e : Thrown)
      → execute_task_with_events env submit (begin f.world) ≡ (err e, v)
      → start env submit f ≡ (ok tt, ended v (error_event (error_json (error_message e) v.worker)))
  unfolding start try_catch Effects.◌>>=◌
  start_err submit f v e h = rw h (enqueue_lem _ _)

  -- The stream of a task that is executed: what is emitted, from TASK_ACCEPTED to the end of the task, and then
  -- the marker of its end; nothing is left of the task in the slots.
  abbrev pub Executed : TaskSubmit → World → Response → World → Type 0
  Executed submit w r w' =
      (p : TaskPayload) × (es : List Emission) × (parse_task_payload submit.payload ≡ some p)
      × (r ≡ event_stream (map chunk_of es ++ done ∷ []))
      × Whole env submit (Worker.worker_id w.worker)
          (outcome_of env submit (Worker.worker_id w.worker) p) (recordable es)
      × (task_slots w' ≡ task_slots w)

  -- The stream of a task that is refused, for the reason that the error gives.
  abbrev pub Turned : TaskSubmit → World → Response → World → Type 0
  Turned submit w r w' =
      (e : Thrown) × (r ≡ event_stream (error_event (error_json (error_message e) w.worker) ∷ []))
      × (((parse_task_payload submit.payload ≡ none) × (e ≡ env.zod_error submit.payload))
          ⊎ ((Slots.has_slot submit.task_id (task_slots w) ≡ true)
              × (e ≡ new_error "Duplicate task ID")))
      × (w'.worker ≡ w.worker)

  free_slot :
      (w : World)
      → Worker.has_available_slot w.worker ≡ true
      → (task_slots w).max_concurrency ≤ℤ pos (Slots.inflight_count (task_slots w))
      → ⊥
  unfolding Worker.has_available_slot Slots.has_available_slot Slots.inflight_count
  free_slot w free full = ground arith

  -- Why a task is refused while there is a slot.
  reason :
      (submit : TaskSubmit) (w : World) (e : Thrown)
      → Worker.has_available_slot w.worker ≡ true
      → Refused env submit (begin w) e
      → ((parse_task_payload submit.payload ≡ none) × (e ≡ env.zod_error submit.payload))
        ⊎ ((Slots.has_slot submit.task_id (task_slots w) ≡ true)
            × (e ≡ new_error "Duplicate task ID"))
  reason submit w e free (inl malformed) = inl malformed
  reason submit w e free (inr (inl duplicate)) = inr duplicate
  reason submit w e free (inr (inr (_, full, _))) = absurd (free_slot w free full)

  abbrev Answered : TaskSubmit → World → Response × World → Type 0
  Answered submit w a = Executed submit w a.0 a.1 ⊎ Turned submit w a.0 a.1

  streamed_as :
      (submit : TaskSubmit) (w : World) (f : Feed)
      → start env submit (record { chunks = []; world = w }) ≡ (ok tt, f)
      → stream_task env submit w ≡ (event_stream f.chunks, f.world)
  unfolding stream_task
  streamed_as submit w f h = ap (λ a. (response_of a.0 a.1, a.1.world)) h

  stream_task_lem :
      (submit : TaskSubmit) (w : World)
      → Worker.has_available_slot w.worker ≡ true
      → Answered submit w (stream_task env submit w)
  stream_task_lem submit w free =
      let f : Feed = record { chunks = []; world = w } in
      elim (task_lifecycle env quiet submit (begin w)) [
        | inl (e, refused, why) ↦
            subst (Answered submit w)
              (sym (streamed_as submit w _ (start_err submit f (begin w) e refused)))
              (inr (e, refl, reason submit w e free why, refl))
        | inr (p, v, good, returned, said) ↦
            subst (Answered submit w) (sym (streamed_as submit w _ (start_ok submit f v returned)))
              (inl (
                p,
                said.emissions,
                good,
                ap (λ es. event_stream (map chunk_of es ++ done ∷ [])) said.sent,
                said.events,
                ap (λ r. task_slots r.1) (sym returned)
                    ∙ execute_restores_slots env submit (begin w),
              ))
      ]

  -- A request that is let in.
  abbrev pub Streamed : TaskSubmit → World → Response → World → Type 0
  Streamed submit w r w' =
      (Worker.is_accepting w.worker ≡ true)
      × (Worker.has_available_slot w.worker ≡ true)
      × (Executed submit w r w' ⊎ Turned submit w r w')

  admit_lem :
      (submit : TaskSubmit) (w w' : World) (r : Response)
      → admit env submit w ≡ (r, w')
      → Streamed submit w r w' ⊎ ((status r ≢ 200) × (w' ≡ w))
  unfolding admit
  admit_lem submit w w' r h = elim (Bool-cases (Worker.is_accepting w.worker)) [
    | inr closed ↦ inr (ground arith, ground arith)
    | inl accepts ↦ elim (Bool-cases (Worker.has_available_slot w.worker)) [
      | inr full ↦ inr (ground arith, ground arith)
      | inl free ↦
          let streamed : stream_task env submit w ≡ (r, w') = ground arith in
          inl (accepts, free, subst (Answered submit w) streamed (stream_task_lem submit w free))
    ]
  ]

module _ (hmac : String → List ℕ → String) (details : Json → Json) (settings : AuthSettings)
    (env : Env) (quiet : (n : ℕ) → env.sink n ≡ none) where
  submit_request_lem :
      (now : ℕ) (submit : TaskSubmit) (w w' : World) (r : Response)
      → submit_request hmac details settings env now submit w ≡ ok (r, w')
      → ((validate_auth hmac settings now (envelope_json submit.auth) submit.task_id ≡ ok valid)
          × Streamed env quiet submit w r w')
        ⊎ ((status r ≢ 200) × (w' ≡ w))
  unfolding submit_request rejection
  submit_request_lem now submit w w' r h =
      elim (Result-cases
        (validate_auth hmac settings now (envelope_json submit.auth) submit.task_id)) [
          | inl (e, threw) ↦ absurd (ground arith)
          | inr (invalid x, refused) ↦ inr (ground arith, ground arith)
          | inr (valid, holds) ↦ elim (admit_lem env quiet submit w w' r (ground arith)) [
            | inl streamed ↦ inl (holds, streamed)
            | inr unchanged ↦ inr unchanged
          ]
        ]

  handle_submit_lem :
      (now : ℕ) (body : Option Json) (w w' : World) (r : Response)
      → handle_submit hmac details settings env now body w ≡ ok (r, w')
      → ((j : Json) × (submit : TaskSubmit) × (body ≡ some j)
          × (parse_task_submit j ≡ some submit)
          × (validate_auth hmac settings now (envelope_json submit.auth) submit.task_id ≡ ok valid)
          × Streamed env quiet submit w r w')
        ⊎ ((status r ≢ 200) × (w' ≡ w))
  unfolding handle_submit
  handle_submit_lem now none w w' r h = inr (ground arith, ground arith)
  handle_submit_lem now (some j) w w' r h = elim (Option-cases (parse_task_submit j)) [
    | inl malformed ↦ inr (ground arith, ground arith)
    | inr (submit, parsed) ↦ elim (submit_request_lem now submit w w' r (ground arith)) [
      | inl (holds, streamed) ↦ inl (j, submit, refl, parsed, holds, streamed)
      | inr unchanged ↦ inr unchanged
    ]
  ]

  -- Where the client reads the stream to its end, there are three cases for POST /api/submit. The handler throws.
  -- Or the status is not 200, and nothing is changed. Or the body is a submission whose token holds for the
  -- task, the worker accepts tasks and has a free slot, and the answer is a stream: if the payload is good and
  -- the task is not in flight, what is emitted for the task, which is TASK_ACCEPTED, any number of
  -- TASK_PROGRESS and the end that fits the outcome of the order, but for WORKER_DRAINING and the
  -- runtime's events, and then the end marker, and the slots are as before; otherwise one ERROR for
  -- the payload or the duplicate, and the worker is unchanged.
  pub submit_answer :
      (now : ℕ) (body : Option Json) (w : World)
      → ((e : Thrown) × (handle_submit hmac details settings env now body w ≡ err e))
        ⊎ ((r : Response) × (w' : World) × (handle_submit hmac details settings env now body w
              ≡ ok (r, w'))
            × (((status r ≢ 200) × (w' ≡ w))
                ⊎ ((j : Json) × (submit : TaskSubmit) × (body ≡ some j)
                    × (parse_task_submit j ≡ some submit)
                    × (validate_auth hmac settings now (envelope_json submit.auth) submit.task_id
                        ≡ ok valid)
                    × Streamed env quiet submit w r w')))
  submit_answer now body w =
      elim (Result-cases (handle_submit hmac details settings env now body w)) [
        | inl threw ↦ inl threw
        | inr ((r, w'), made) ↦ elim (handle_submit_lem now body w w' r made) [
          | inl streamed ↦ inr (r, w', made, inr streamed)
          | inr unchanged ↦ inr (r, w', made, inl unchanged)
        ]
      ]
