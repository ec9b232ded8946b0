-- ===== src/Api/Equivalence.antt =====
-- The serverless handlers of api/ against those of src/server.ts, on a worker that is there and for a request that
-- is not local.
use l0_worker.Base.{
  ℕ, String, false, none, some, List, [], ◌≡◌, ◌⊎◌, inl, inr, refl, ap, Option-cases, Bool-cases,
  ◌==◌,
}
use l0_worker.Json.{Json}
use l0_worker.Thrown.{Result, ok, err, Result-cases}
use l0_worker.Auth.{AuthSettings, valid, invalid, validate_auth, envelope_json}
use l0_worker.Event.Inbound.{AuthEnvelope, TaskSubmit, TaskReplayRequest, WorkerConfigUpdate}
use l0_worker.Requests.{parse_config_update, parse_replay_request}
use l0_worker.Requests.Submit.{parse_task_submit}
use l0_worker.Worker
use l0_worker.Worker.{VercelWorker, update_config}
use l0_worker.World.{Env, World}
use l0_worker.Server.{
  Response, failure, handle_config, handle_replay, config_request, apply_config, require_auth,
  replay_request, replay_answer, rejection, update_of,
}
use l0_worker.Effects.{try_catch, ◌>>=◌}
use l0_worker.Server.Submit.{response_of, start, stream_task, admit, submit_request, handle_submit}
use l0_worker.Api.{
  world_of, host_of, submit, submit_valid, submit_to, write_events, replay, replay_valid, config,
  config_valid, configured,
}

-- The same result, with the state as the other deployment keeps it.
abbrev pub carry : {A B : Type 0} → (A → B) → Result (Response × A) → Result (Response × B)
carry f (ok (r, a)) = ok (r, f a)
carry f (err e) = err e

module _ (env : Env) where
  -- The execution of a task does not see what was emitted before it.
  write_events-start :
      (s : TaskSubmit) (w : World)
      → write_events env s (record { chunks = []; world = world_of w.worker (host_of w) })
        ≡ start env s (record { chunks = []; world = w })
  unfolding write_events start try_catch ◌>>=◌
  write_events-start s w = refl

  submit_to-admit :
      (s : TaskSubmit) (w : World)
      → submit_to env s w.worker (host_of w) ≡ ((admit env s w).0, host_of (admit env s w).1)
  unfolding submit_to admit stream_task start
  submit_to-admit s w = elim (Bool-cases (Worker.is_accepting w.worker)) [
    | inr closed ↦ rw (closed, submit_to, admit) refl
    | inl accepts ↦ elim (Bool-cases (Worker.has_available_slot w.worker)) [
      | inr full ↦ rw (accepts, full, submit_to, admit) refl
      | inl free ↦
          rw (accepts, free, submit_to, admit, stream_task)
            (ap (λ a. (response_of a.0 a.1, host_of a.1.world)) (write_events-start s w))
    ]
  ]

module _ (hmac : String → List ℕ → String) (details : Json → Json) (settings : AuthSettings) where
  submit_valid_lem :
      (env : Env) (create : Result VercelWorker) (now : ℕ) (s : TaskSubmit) (w : World)
      → submit_valid hmac details settings env create now s (host_of w)
        ≡ carry host_of (submit_request hmac details settings env now s w)
  unfolding submit_valid submit_request rejection
  submit_valid_lem env create now s w =
      elim (Result-cases (validate_auth hmac settings now (envelope_json s.auth) s.task_id)) [
        | inl (e, threw) ↦ rw threw refl
        | inr (invalid x, refused) ↦ rw refused refl
        | inr (valid, holds) ↦ rw holds (ap ok (submit_to-admit env s w))
      ]

  submit_same :
      (env : Env) (create : Result VercelWorker) (now : ℕ) (j : Json) (w : World)
      → submit hmac details settings env create now "POST" j (host_of w)
        ≡ carry host_of (handle_submit hmac details settings env now (some j) w)
  unfolding submit handle_submit
  submit_same env create now j w = elim (Option-cases (parse_task_submit j)) [
    | inl malformed ↦ rw (malformed, submit, handle_submit) refl
    | inr (s, parsed) ↦ rw (parsed, submit, handle_submit) (submit_valid_lem env create now s w)
  ]

  replay_valid_lem :
      (now : ℕ) (q : TaskReplayRequest) (w : VercelWorker)
      → replay_valid hmac details settings now q (some w)
        ≡ replay_request hmac details settings now q w
  unfolding replay_valid replay_request replay_answer rejection
  replay_valid_lem now q w =
      elim (Result-cases (validate_auth hmac settings now (envelope_json q.auth) q.task_id)) [
        | inl (e, threw) ↦ rw threw refl
        | inr (invalid x, refused) ↦ rw refused refl
        | inr (valid, holds) ↦ rw holds refl
      ]

  replay_same :
      (now : ℕ) (j : Json) (w : VercelWorker)
      → replay hmac details settings now "POST" j (some w)
        ≡ handle_replay hmac details settings now (some j) w
  unfolding replay handle_replay
  replay_same now j w = elim (Option-cases (parse_replay_request j)) [
    | inl malformed ↦ rw (malformed, replay, handle_replay) refl
    | inr (q, parsed) ↦ rw (parsed, replay, handle_replay) (replay_valid_lem now q w)
  ]

  configured_lem :
      (ts : ℕ) (u : WorkerConfigUpdate) (w : VercelWorker)
      → configured hmac details settings ts u w
        ≡ carry some (apply_config hmac details settings ts u w)
  unfolding apply_config
  configured_lem ts u w = elim (Bool-cases (u.worker_id == Worker.worker_id w)) [
    | inr other ↦ rw other refl
    | inl own ↦ elim (Result-cases (update_config (update_of u) w)) [
      | inl (e, threw) ↦ rw (own, threw) refl
      | inr (w', updated) ↦ rw (own, updated) refl
    ]
  ]

  -- Both answer an update that has no auth by 401, in words of their own.
  abbrev pub Unauthorized : ℕ → ℕ → Json → VercelWorker → Type 0
  Unauthorized now ts j w =
      (config hmac details settings now ts "POST" j (some w)
        ≡ ok (failure 401 "Auth required", some w))
      × (handle_config hmac details settings now ts false (some j) w
          ≡ ok (failure 401 "Auth required for non-localhost requests", w))

  config_valid_lem :
      (now ts : ℕ) (u : WorkerConfigUpdate) (e : AuthEnvelope) (w : VercelWorker)
      → u.auth ≡ some e
      → config_valid hmac details settings now ts u (some w)
        ≡ carry some (config_request hmac details settings now ts false u w)
  unfolding config_valid config_request require_auth rejection apply_config
  config_valid_lem now ts u e w given =
      elim (Result-cases (validate_auth hmac settings now (envelope_json e) u.worker_id)) [
        | inl (x, threw) ↦ rw (given, threw) refl
        | inr (invalid x, refused) ↦ rw (given, refused) refl
        | inr (valid, holds) ↦ rw (given, holds) (configured_lem ts u w)
      ]

  config_same :
      (now ts : ℕ) (j : Json) (w : VercelWorker)
      → (config hmac details settings now ts "POST" j (some w)
          ≡ carry some (handle_config hmac details settings now ts false (some j) w))
        ⊎ ((u : WorkerConfigUpdate) × (parse_config_update j ≡ some u)
            × (u.auth ≡ none)
            × Unauthorized now ts j w)
  unfolding config handle_config config_valid config_request require_auth
  config_same now ts j w = elim (Option-cases (parse_config_update j)) [
    | inl malformed ↦ inl (rw (malformed, config, handle_config) refl)
    | inr (u, parsed) ↦ elim (Option-cases u.auth) [
      | inl missing ↦ inr (
        u,
        parsed,
        missing,
        (
          rw (parsed, config, config_valid, missing) refl,
          rw (parsed, handle_config, config_request, require_auth, missing) refl,
        ),
      )
      | inr (e, given) ↦
          inl (rw (parsed, config, handle_config) (config_valid_lem now ts u e w given))
    ]
  ]

  -- A POST of the serverless deployment whose worker is there is answered as the server answers one that does
  -- not come from localhost, with the same effect, whether it submits a task, replays one or updates the
  -- configuration, and an exception is the same. The one difference is an update with no auth,
  -- which both refuse by 401 without a change, in other words.
  pub deployments_agree :
      (env : Env) (create : Result VercelWorker) (now ts : ℕ) (j : Json) (w : World)
      → (submit hmac details settings env create now "POST" j (host_of w)
          ≡ carry host_of (handle_submit hmac details settings env now (some j) w))
        × (replay hmac details settings now "POST" j (some w.worker)
            ≡ handle_replay hmac details settings now (some j) w.worker)
        × ((config hmac details settings now ts "POST" j (some w.worker)
              ≡ carry some (handle_config hmac details settings now ts false (some j) w.worker))
            ⊎ ((u : WorkerConfigUpdate) × (parse_config_update j ≡ some u)
                × (u.auth ≡ none)
                × Unauthorized now ts j w.worker))
  deployments_agree env create now ts j w =
      (submit_same env create now j w, replay_same now j w.worker, config_same now ts j w.worker)
