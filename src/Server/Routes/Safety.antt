-- ===== src/Server/Routes/Safety.antt =====
-- What a request to server.ts that does not come from localhost can change.
use l0_worker.Base.{
  ℕ, String, Bool, true, false, Option, none, some, List, arith, ◌≡◌, ◌⊎◌, inl, inr, refl,
  Option-cases,
}
use l0_worker.Base.Int.{ℤ}
use l0_worker.Json.{Json}
use l0_worker.Thrown.{ok, Result-cases}
use l0_worker.Auth.{AuthSettings, valid, invalid, validate_auth, envelope_json}
use l0_worker.Event.Inbound.{AuthEnvelope, TaskSubmit, WorkerConfigUpdate}
use l0_worker.Requests.{parse_config_update}
use l0_worker.Requests.Submit.{parse_task_submit}
use l0_worker.Worker
use l0_worker.Worker.{VercelWorker}
use l0_worker.World.{Env, World}
use l0_worker.Server.{Response, rejection, handle_config, handle_replay}
use l0_worker.Server.Access.{config_access}
use l0_worker.Server.Submit.{submit_request, handle_submit}
use l0_worker.Server.Drain.{is_localhost, drain_auth, check_auth, drain_refusal, handle_drain}
use l0_worker.Server.Routes.{
  Request, Process, Readings, Route, submit, status, replay, config, drain, not_allowed, not_found,
  dispatch, route, handle_request,
}

module _ (hmac : String → List ℕ → String) (details : Json → Json) (settings : AuthSettings)
    (null_access : String) (env : Env) where
  -- A token that holds for a name at the time.
  abbrev Holds : ℕ → Json → String → Type 0
  Holds now auth id = validate_auth hmac settings now auth id ≡ ok valid

  submit_request_held :
      (now : ℕ) (s : TaskSubmit) (w w' : World) (r : Response)
      → submit_request hmac details settings env now s w ≡ ok (r, w')
      → Holds now (envelope_json s.auth) s.task_id ⊎ (w' ≡ w)
  unfolding submit_request rejection
  submit_request_held now s w w' r h =
      elim (Result-cases (validate_auth hmac settings now (envelope_json s.auth) s.task_id)) [
        | inl (e, threw) ↦ absurd (ground arith)
        | inr (invalid x, refused) ↦ inr (ground arith)
        | inr (valid, holds) ↦ inl holds
      ]

  -- The body is a submission with a token that holds for its task.
  abbrev pub MaySubmit : ℕ → Option Json → Type 0
  MaySubmit now body =
      (j : Json) × (s : TaskSubmit) × (body ≡ some j)
      × (parse_task_submit j ≡ some s)
      × Holds now (envelope_json s.auth) s.task_id

  submit_held :
      (now : ℕ) (body : Option Json) (w w' : World) (r : Response)
      → handle_submit hmac details settings env now body w ≡ ok (r, w')
      → MaySubmit now body ⊎ (w' ≡ w)
  unfolding handle_submit
  submit_held now none w w' r h = inr (ground arith)
  submit_held now (some j) w w' r h = elim (Option-cases (parse_task_submit j)) [
    | inl malformed ↦ inr (ground arith)
    | inr (s, parsed) ↦ elim (submit_request_held now s w w' r (ground arith)) [
      | inl holds ↦ inl (j, s, refl, parsed, holds)
      | inr unchanged ↦ inr unchanged
    ]
  ]

  -- The body is an update of the worker with a token that holds for the worker's name.
  abbrev pub MayConfigure : ℕ → Option Json → VercelWorker → Type 0
  MayConfigure now body w =
      (j : Json) × (u : WorkerConfigUpdate) × (e : AuthEnvelope) × (body ≡ some j)
      × (parse_config_update j ≡ some u)
      × (u.auth ≡ some e)
      × Holds now (envelope_json e) (Worker.worker_id w)

  config_held :
      (now ts : ℕ) (local : Bool) (body : Option Json) (w w' : VercelWorker) (r : Response)
      → local ≡ false
      → handle_config hmac details settings now ts local body w ≡ ok (r, w')
      → MayConfigure now body w ⊎ (w' ≡ w)
  config_held now ts local body w w' r remote h =
      elim (config_access hmac details settings now ts local body w w' r h) [
        | inr (code, same) ↦ inr same
        | inl (j, u, code, is, parsed, own, done, inl near) ↦ absurd (ground arith)
        | inl (j, u, code, is, parsed, own, done, inr (e, given, holds)) ↦
            inl (j, u, e, is, parsed, given, holds)
      ]

  -- The body has a token that holds for the worker's name.
  abbrev pub MayDrain : ℕ → Option Json → String → Type 0
  MayDrain now body id =
      (auth : Json) × (drain_auth hmac settings null_access body ≡ ok (some auth))
      × Holds now auth id

  check_auth_held :
      (now : ℕ) (id : String) (auth : Option Json)
      → check_auth hmac settings null_access now id auth ≡ ok none
      → (a : Json) × (auth ≡ some a) × Holds now a id
  unfolding check_auth rejection
  check_auth_held now id none h = absurd (ground arith)
  check_auth_held now id (some a) h = elim (Result-cases (validate_auth hmac settings now a id)) [
    | inl (e, threw) ↦ absurd (ground arith)
    | inr (invalid x, refused) ↦ absurd (ground arith)
    | inr (valid, holds) ↦ (a, refl, holds)
  ]

  pub drain_refusal_held :
      (now : ℕ) (local : Bool) (id : String) (body : Option Json)
      → local ≡ false
      → drain_refusal hmac settings null_access now local id body ≡ ok none
      → MayDrain now body id
  unfolding drain_refusal
  drain_refusal_held now true id body remote h = absurd (ground arith)
  drain_refusal_held now false id body remote h =
      elim (Result-cases (drain_auth hmac settings null_access body)) [
        | inl (e, threw) ↦ absurd (ground arith)
        | inr (auth, read) ↦
            let (a, is, holds) = check_auth_held now id auth (ground arith) in
            (a, ground arith, holds)
      ]

  drain_held :
      (now : ℕ) (local : Bool) (id : String) (buffer : ℤ) (body : Option Json) (r : Response)
      (started : Bool)
      → local ≡ false
      → handle_drain hmac settings null_access now local id buffer body ≡ ok (r, started)
      → MayDrain now body id ⊎ (started ≡ false)
  unfolding handle_drain
  drain_held now local id buffer body r started remote h =
      elim (Result-cases (drain_refusal hmac settings null_access now local id body)) [
        | inl (e, threw) ↦ absurd (ground arith)
        | inr (some refusal, refused) ↦ inr (ground arith)
        | inr (none, passes) ↦ inl (drain_refusal_held now local id body remote passes)
      ]

  -- The changes that a request may make to the process.
  abbrev pub Permitted : Readings → Request → Process → Type 0
  Permitted at q p =
      ((route q.path q.method ≡ submit) × MaySubmit at.now q.body)
      ⊎ ((route q.path q.method ≡ config) × MayConfigure at.now q.body p.world.worker)
      ⊎ ((route q.path q.method ≡ drain) × MayDrain at.now q.body (Worker.worker_id p.world.worker))

  dispatch_held :
      (at : Readings) (q : Request) (p p' : Process) (r : Response) (to : Route)
      → is_localhost q.address ≡ false
      → route q.path q.method ≡ to
      → dispatch hmac details settings null_access env at q p to ≡ ok (r, p')
      → Permitted at q p ⊎ (p' ≡ p)
  unfolding dispatch
  dispatch_held at q p p' r submit remote is h =
      elim (Result-cases (handle_submit hmac details settings env at.now q.body p.world)) [
        | inl (e, threw) ↦ absurd (ground arith)
        | inr ((r', w'), made) ↦ elim (submit_held at.now q.body p.world w' r' made) [
          | inl may ↦ inl (inl (is, may))
          | inr same ↦ inr (ground arith)
        ]
      ]
  dispatch_held at q p p' r status remote is h = inr (ground arith)
  dispatch_held at q p p' r replay remote is h =
      elim (Result-cases (handle_replay hmac details settings at.now q.body p.world.worker)) [
        | inl (e, threw) ↦ absurd (ground arith)
        | inr (r', made) ↦ inr (ground arith)
      ]
  dispatch_held at q p p' r config remote is h =
      let local = is_localhost q.address in
      elim (Result-cases
        (handle_config hmac details settings at.now at.ts local q.body p.world.worker)) [
          | inl (e, threw) ↦ absurd (ground arith)
          | inr ((r', w'), made) ↦
              elim (config_held at.now at.ts local q.body p.world.worker w' r' remote made) [
                | inl may ↦ inl (inr (inl (is, may)))
                | inr same ↦ inr (ground arith)
              ]
        ]
  dispatch_held at q p p' r drain remote is h =
      let local = is_localhost q.address in
      let id = Worker.worker_id p.world.worker in
      elim (Result-cases
        (handle_drain hmac settings null_access at.now local id env.drain_buffer_ms q.body)) [
          | inl (e, threw) ↦ absurd (ground arith)
          | inr ((r', started), made) ↦
              elim (drain_held at.now local id env.drain_buffer_ms q.body r' started remote made) [
                | inl may ↦ inl (inr (inr (is, may)))
                | inr never ↦ inr (ground arith)
              ]
        ]
  dispatch_held at q p p' r not_allowed remote is h = inr (ground arith)
  dispatch_held at q p p' r not_found remote is h = inr (ground arith)

  -- A request that does not come from localhost changes nothing of the process, neither the worker and its
  -- clock nor whether it drains, unless it is one of three: a submission with a token that holds for its
  -- task, an update of the configuration with a token that holds for this worker's name, or a drain with
  -- such a token. It holds for every path, method and body, and where a handler throws.
  pub request-Permitted :
      (at : Readings) (q : Request) (p : Process)
      → is_localhost q.address ≡ false
      → Permitted at q p ⊎ ((handle_request hmac details settings null_access env at q p).1 ≡ p)
  unfolding handle_request
  request-Permitted at q p remote =
      let to = route q.path q.method in
      elim (Result-cases (dispatch hmac details settings null_access env at q p to)) [
        | inl (e, threw) ↦ inr (ground arith)
        | inr ((r, p'), made) ↦ elim (dispatch_held at q p p' r to remote refl made) [
          | inl may ↦ inl may
          | inr same ↦ inr (ground arith)
        ]
      ]
