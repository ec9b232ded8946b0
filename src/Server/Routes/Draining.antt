-- ===== src/Server/Routes/Draining.antt =====
-- What POST /api/drain of server.ts does.
use l0_worker.Base.{
  ℕ, ◌+◌, String, Bool, true, false, Option, none, some, List, arith, ◌≡◌, ◌≢◌, ◌⊎◌, inl, inr, refl,
  Bool-cases,
}
use l0_worker.Json.{Json}
use l0_worker.Thrown.{ok, Result-cases}
use l0_worker.Auth.{AuthSettings, valid, invalid, validate_auth}
use l0_worker.Worker
use l0_worker.World.{Env}
use l0_worker.Server.{Response, status, rejection}
use l0_worker.Server.Drain.{
  is_localhost, drain_auth, drain_refusal, check_auth, handle_drain, drain_response,
}
use l0_worker.Server.Routes.{Request, Process, Readings, drain, dispatch, route, handle_request}
use l0_worker.Server.Routes.Safety.{MayDrain, drain_refusal_held}

module _ (hmac : String → List ℕ → String) (details : Json → Json) (settings : AuthSettings)
    (null_access : String) (env : Env) where
  check_auth_code :
      (now : ℕ) (id : String) (auth : Option Json) (r : Response)
      → check_auth hmac settings null_access now id auth ≡ ok (some r)
      → status r ≢ 200
  unfolding check_auth rejection
  check_auth_code now id none r h = ground arith
  check_auth_code now id (some a) r h = elim (Result-cases (validate_auth hmac settings now a id)) [
    | inl (e, threw) ↦ absurd (ground arith)
    | inr (invalid x, refused) ↦ ground arith
    | inr (valid, holds) ↦ absurd (ground arith)
  ]

  refusal_code :
      (now : ℕ) (local : Bool) (id : String) (body : Option Json) (r : Response)
      → drain_refusal hmac settings null_access now local id body ≡ ok (some r)
      → status r ≢ 200
  unfolding drain_refusal
  refusal_code now true id body r h = absurd (ground arith)
  refusal_code now false id body r h =
      elim (Result-cases (drain_auth hmac settings null_access body)) [
        | inl (e, threw) ↦ absurd (ground arith)
        | inr (auth, read) ↦ check_auth_code now id auth r (ground arith)
      ]

  -- Whether the request may drain the worker.
  abbrev pub Allowed : Readings → Request → Process → Type 0
  Allowed at q p =
      (is_localhost q.address ≡ true)
      ⊎ MayDrain hmac details settings null_access env at.now q.body
          (Worker.worker_id p.world.worker)

  allowed :
      (at : Readings) (q : Request) (p : Process)
      → drain_refusal hmac settings null_access at.now
          (is_localhost q.address)
          (Worker.worker_id p.world.worker)
          q.body
        ≡ ok none
      → Allowed at q p
  allowed at q p passes = elim (Bool-cases (is_localhost q.address)) [
    | inl local ↦ inl local
    | inr remote ↦ inr (
        drain_refusal_held hmac details settings null_access env at.now (is_localhost q.address)
          (Worker.worker_id p.world.worker) q.body remote passes)
  ]

  -- A request to drain leaves the worker's state, its slots and the abort signal as they are. The answer is 200
  -- exactly if the wait for the end of the process is started, and then the request is from localhost or
  -- its token holds for the worker's name.
  pub drain_request :
      (at : Readings) (q : Request) (p : Process)
      → route q.path q.method ≡ drain
      → let (r, p') = handle_request hmac details settings null_access env at q p in
        (p'.world ≡ p.world)
        × (((status r ≡ 200) × (p'.drains ≡ p.drains + 1) × Allowed at q p)
            ⊎ ((status r ≢ 200) × (p'.drains ≡ p.drains)))
  unfolding handle_request dispatch handle_drain drain_response
  drain_request at q p is =
      let local = is_localhost q.address in
      let id = Worker.worker_id p.world.worker in
      elim (Result-cases (drain_refusal hmac settings null_access at.now local id q.body)) [
        | inl (e, threw) ↦ rw (is, threw) (refl, inr (ground arith, refl))
        | inr (some refusal, refused) ↦
            rw (is, refused) (refl, inr (refusal_code at.now local id q.body refusal refused, refl))
        | inr (none, passes) ↦ rw (is, passes) (refl, inl (refl, refl, allowed at q p passes))
      ]
