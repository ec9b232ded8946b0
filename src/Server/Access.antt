-- ===== src/Server/Access.antt =====
-- Which requests to server.ts have an effect, and what they are answered.
use l0_worker.Base.{
  ℕ, String, Bool, true, false, Option, none, some, List, [], ◌∷◌, ◌++◌, map, ◌==◌, eq_iff, ◌≡◌,
  ◌≢◌, ◌⊎◌, inl, inr, refl, arith, length, Option-cases, Bool-cases,
}
use l0_worker.Json.{Json, obj, field, str, end}
use l0_worker.Thrown.{Result, ok, err, ◌>>=◌, Result-cases}
use l0_worker.Auth.{AuthSettings, AuthResult, valid, invalid, validate_auth, envelope_json}
use l0_worker.Event.Inbound.{AuthEnvelope, TaskReplayRequest, WorkerConfigUpdate}
use l0_worker.Requests.{parse_config_update, parse_replay_request}
use mathlib.Core.Path.{subst}
use l0_worker.Store.{events_for_task}
use l0_worker.Store.Interface.{memory_store}
use l0_worker.Replay.Exactness.{replay_exact}
use l0_worker.Worker
use l0_worker.Worker.{VercelWorker, update_config}
use l0_worker.Server.{
  failure, Response, status, json_response, event_stream, rejection, require_auth, apply_config,
  config_request, handle_config, update_of, replay_answer, replay_request, handle_replay,
  data_event, replay_complete, replay_chunks,
}

abbrev rejection_of : String → Response
rejection_of reason =
    json_response 401
      (obj (field "error" (str "Auth validation failed") (field "reason" (str reason) end)))

module _ (hmac : String → List ℕ → String) (details : Json → Json) (settings : AuthSettings) where
  -- The request may change the worker: it is local, or its token holds for the worker's name.
  abbrev pub MayChange : ℕ → Bool → WorkerConfigUpdate → VercelWorker → Type 0
  MayChange now local u w =
      (local ≡ true)
      ⊎ ((e : AuthEnvelope) × (u.auth ≡ some e)
          × (validate_auth hmac settings now (envelope_json e) (Worker.worker_id w) ≡ ok valid))

  abbrev Granted : ℕ → Bool → Option AuthEnvelope → String → Type 0
  Granted now local auth id =
      (local ≡ true)
      ⊎ ((e : AuthEnvelope) × (auth ≡ some e)
          × (validate_auth hmac settings now (envelope_json e) id ≡ ok valid))

  verdict_lem :
      (v : Result AuthResult) (o : Option Response)
      → (v >>= λ a. ok (rejection a)) ≡ ok o
      → ((o ≡ none) × (v ≡ ok valid)) ⊎ ((r : Response) × (o ≡ some r) × (status r ≡ 401))
  unfolding rejection
  verdict_lem (ok valid) o h = inl (ground arith, refl)
  verdict_lem (ok (invalid x)) o h = inr (rejection_of x, ground arith, refl)
  verdict_lem (err e) o h = cc

  require_auth_lem :
      (now : ℕ) (local : Bool) (auth : Option AuthEnvelope) (id : String) (o : Option Response)
      → require_auth hmac details settings now local auth id ≡ ok o
      → ((o ≡ none) × Granted now local auth id)
        ⊎ ((r : Response) × (o ≡ some r) × (status r ≡ 401))
  unfolding require_auth
  require_auth_lem now true auth id o h = inl (ground arith, inl refl)
  require_auth_lem now false none id o h =
      inr (failure 401 "Auth required for non-localhost requests", ground arith, refl)
  require_auth_lem now false (some e) id o h =
      elim (verdict_lem (validate_auth hmac settings now (envelope_json e) id) o h) [
        | inl (passes, holds) ↦ inl (passes, inr (e, refl, holds))
        | inr refused ↦ inr refused
      ]

  apply_config_lem :
      (ts : ℕ) (u : WorkerConfigUpdate) (w w' : VercelWorker) (r : Response)
      → apply_config hmac details settings ts u w ≡ ok (r, w')
      → ((status r ≡ 200)
          × (u.worker_id ≡ Worker.worker_id w)
          × (update_config (update_of u) w ≡ ok w'))
        ⊎ ((status r ≢ 200) × (w' ≡ w))
  unfolding apply_config
  apply_config_lem ts u w w' r h = elim (Bool-cases (u.worker_id == Worker.worker_id w)) [
    | inr differs ↦ inr (ground arith, ground arith)
    | inl own ↦ elim (Result-cases (update_config (update_of u) w)) [
      | inl (e, threw) ↦ absurd (ground arith)
      | inr (v, done) ↦
          inl (ground arith, (eq_iff u.worker_id (Worker.worker_id w)).0 own, ground arith)
    ]
  ]

  config_request_lem :
      (now ts : ℕ) (local : Bool) (u : WorkerConfigUpdate) (w w' : VercelWorker) (r : Response)
      → config_request hmac details settings now ts local u w ≡ ok (r, w')
      → ((status r ≡ 200)
          × (u.worker_id ≡ Worker.worker_id w)
          × (update_config (update_of u) w ≡ ok w')
          × Granted now local u.auth u.worker_id)
        ⊎ ((status r ≢ 200) × (w' ≡ w))
  unfolding config_request
  config_request_lem now ts local u w w' r h =
      elim (Result-cases (require_auth hmac details settings now local u.auth u.worker_id)) [
        | inl (e, threw) ↦ absurd (ground arith)
        | inr (o, checked) ↦ elim (require_auth_lem now local u.auth u.worker_id o checked) [
          | inr (refusal, refused, code) ↦ inr (ground arith, ground arith)
          | inl (passes, granted) ↦ elim (apply_config_lem ts u w w' r (ground arith)) [
            | inl (code, own, done) ↦ inl (code, own, done, granted)
            | inr unchanged ↦ inr unchanged
          ]
        ]
      ]

  -- Where POST /api/config is answered without an exception, the answer is 200 exactly if the request changed
  -- the worker as it asks, and then the body is a configuration update for this worker's name, and the
  -- request is local or carries a token that holds for this worker's name; with any other answer the worker is
  -- unchanged.
  pub config_access :
      (now ts : ℕ) (local : Bool) (body : Option Json) (w w' : VercelWorker) (r : Response)
      → handle_config hmac details settings now ts local body w ≡ ok (r, w')
      → ((j : Json) × (u : WorkerConfigUpdate) × (status r ≡ 200)
          × (body ≡ some j)
          × (parse_config_update j ≡ some u)
          × (u.worker_id ≡ Worker.worker_id w)
          × (update_config (update_of u) w ≡ ok w')
          × MayChange now local u w)
        ⊎ ((status r ≢ 200) × (w' ≡ w))
  unfolding handle_config
  config_access now ts local none w w' r h = inr (ground arith, ground arith)
  config_access now ts local (some j) w w' r h = elim (Option-cases (parse_config_update j)) [
    | inl malformed ↦ inr (ground arith, ground arith)
    | inr (u, parsed) ↦ elim (config_request_lem now ts local u w w' r (ground arith)) [
      | inl (code, own, done, granted) ↦
          inl (j, u, code, refl, parsed, own, done, subst (Granted now local u.auth) own granted)
      | inr unchanged ↦ inr unchanged
    ]
  ]

  -- The stream that answers a request for a replay.
  abbrev pub Replayed : TaskReplayRequest → VercelWorker → Response → Type 0
  Replayed q w r =
      let es = events_for_task q.task_id w.event_store in
      (verdict : Option Bool) × (r
        ≡ event_stream (map data_event es ++ replay_complete (length es) verdict ∷ []))

  chunks_of :
      (q : TaskReplayRequest) (w : VercelWorker)
      → Worker.can_replay q.task_id w ≡ true
      → Replayed q w (event_stream (replay_chunks (Worker.replay q w)))
  unfolding Worker.replay Worker.can_replay replay_chunks
  chunks_of q w can =
      let (emitted, _, _, count, _) =
        replay_exact memory_store q.task_id q.expected_output_hash w.event_store in
      ((Worker.replay q w).1.output_hash_match, rw (count, emitted) refl)

  -- The token of a request holds for its task, of which there is a record.
  abbrev pub MayReplay : ℕ → TaskReplayRequest → VercelWorker → Type 0
  MayReplay now q w =
      (validate_auth hmac settings now (envelope_json q.auth) q.task_id ≡ ok valid)
      × (Worker.can_replay q.task_id w ≡ true)

  replay_request_lem :
      (now : ℕ) (q : TaskReplayRequest) (w : VercelWorker) (r : Response)
      → replay_request hmac details settings now q w ≡ ok r
      → (MayReplay now q w × Replayed q w r) ⊎ ((¬ MayReplay now q w) × (status r ≢ 200))
  unfolding replay_request replay_answer rejection
  replay_request_lem now q w r h =
      elim (Result-cases (validate_auth hmac settings now (envelope_json q.auth) q.task_id)) [
        | inl (e, threw) ↦ absurd (ground arith)
        | inr (invalid reason, refused) ↦ inr (λ may. ground arith, ground arith)
        | inr (valid, holds) ↦ elim (Bool-cases (Worker.can_replay q.task_id w)) [
          | inr unknown ↦ inr (λ may. ground arith, ground arith)
          | inl can ↦
              let same : event_stream (replay_chunks (Worker.replay q w)) ≡ r = ground arith in
              inl ((holds, can), subst (Replayed q w) same (chunks_of q w can))
        ]
      ]

  -- A body that is a request whose token holds for its task, of which there is a record.
  abbrev pub AsksReplay : ℕ → Option Json → TaskReplayRequest → VercelWorker → Type 0
  AsksReplay now body q w =
      (j : Json) × (body ≡ some j) × (parse_replay_request j ≡ some q) × MayReplay now q w

  -- Where POST /api/replay is answered without an exception, the answer is a stream exactly if the body is a
  -- request for a replay whose token holds for the task and for which there is a record; the stream is then
  -- what is recorded for the task, in order, and at its end their number with a verdict on the hash. Any other
  -- body gets an answer whose status is not 200.
  pub replay_access :
      (now : ℕ) (body : Option Json) (w : VercelWorker) (r : Response)
      → handle_replay hmac details settings now body w ≡ ok r
      → ((q : TaskReplayRequest) × AsksReplay now body q w × Replayed q w r)
        ⊎ ((¬ ((q : TaskReplayRequest) × AsksReplay now body q w)) × (status r ≢ 200))
  unfolding handle_replay
  replay_access now none w r h = inr (λ (q, (j, is, read, may)). absurd (cc is), ground arith)
  replay_access now (some j) w r h = elim (Option-cases (parse_replay_request j)) [
    | inl malformed ↦ inr (λ (q, (i, is, read, may)). absurd (ground arith), ground arith)
    | inr (q, parsed) ↦ elim (replay_request_lem now q w r (ground arith)) [
      | inl (may, stream) ↦ inl (q, (j, refl, parsed, may), stream)
      | inr (may_not, refused) ↦ inr (
        λ (p, (i, is, read, may)).
            let same : p ≡ q = ground arith in may_not (subst (λ x. MayReplay now x w) same may),
        refused,
      )
    ]
  ]
