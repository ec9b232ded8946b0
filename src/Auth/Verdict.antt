-- ===== src/Auth/Verdict.antt =====
-- What auth/validate.ts accepts, and why it refuses.
use l0_worker.Base.{
  ℕ, String, Bool, true, false, Option, none, some, List, arith, ◌≡◌, ◌≢◌, ◌⊎◌, ◌↔◌, inl, inr, refl,
  Option-cases, eq_iff,
}
use mathlib.Core.Path.{subst}
use l0_worker.Base.Int.{pos, ◌+ℤ◌, ◌≤ℤ◌}
use l0_worker.Json.{Json}
use l0_worker.Thrown.{ok}
use l0_worker.Event.Inbound.{AuthEnvelope}
use l0_worker.Auth.{
  AuthSettings, valid, auth_secret, parse_envelope, check_envelope, check_signature, validate_auth,
  generate_auth_token, compute_signature,
}
use l0_worker.Auth.Compare.{secure_compare_iff}

-- The token is in force at the time `now`: not expired, and not issued more than the tolerated skew
-- in the future.
abbrev pub InForce : ℕ → AuthEnvelope → Type 0
InForce now e = (pos now ≤ℤ e.issued_at +ℤ e.ttl) × (e.issued_at ≤ℤ pos now +ℤ pos 5000)

module _ (hmac : String → List ℕ → String) where
  -- The token is the one that the orchestrator generates for the task with the worker's secret.
  abbrev pub IsSigned : AuthSettings → String → AuthEnvelope → Type 0
  IsSigned settings t e =
      (secret : String) × (settings.l0_auth_secret ≡ some secret)
      × (secret ≢ "")
      × (e.token ≡ generate_auth_token hmac secret t e.issued_at e.ttl)

  abbrev Accepts : AuthSettings → ℕ → AuthEnvelope → String → Type 0
  Accepts settings now e t =
      InForce now e × ((settings.skip_auth_validation ≡ true) ⊎ IsSigned settings t e)

  signed :
      (s : String) (t : String) (e : AuthEnvelope) (secret : String)
      → some s ≡ some secret
      → secret ≢ ""
      → e.token ≡ generate_auth_token hmac secret t e.issued_at e.ttl
      → check_signature hmac (auth_secret (some s)) t e ≡ ok valid
  unfolding check_signature auth_secret generate_auth_token
  signed s t e secret given ne same =
      let own : s ≡ secret = ground arith in
      let match =
        (secure_compare_iff e.token (compute_signature hmac s t e.issued_at e.ttl)).1
          (rw own same) in
      ground (arith, eq_iff s "")

  check_signature_iff :
      (o : Option String) (t : String) (e : AuthEnvelope)
      → (check_signature hmac (auth_secret o) t e ≡ ok valid) ↔ (
          (secret : String) × (o ≡ some secret)
          × (secret ≢ "")
          × (e.token ≡ generate_auth_token hmac secret t e.issued_at e.ttl))
  unfolding check_signature auth_secret generate_auth_token
  check_signature_iff none t e = (λ h. cc, λ r. cc r.1)
  check_signature_iff (some s) t e =
      let same = secure_compare_iff e.token (compute_signature hmac s t e.issued_at e.ttl) in
      (
        λ h. (s, refl, ground (arith, eq_iff s ""), same.0 (ground arith)),
        λ r. signed s t e r.0 r.1 r.2 r.3,
      )

  allowed {κ} : {P : Type κ} (skip : Bool) → (skip ≡ false → P) → (skip ≡ true) ⊎ P
  allowed true p = inl refl
  allowed false p = inr (p refl)

  check_envelope_iff :
      (settings : AuthSettings) (now : ℕ) (e : AuthEnvelope) (t : String)
      → (check_envelope hmac settings now e t ≡ ok valid) ↔ Accepts settings now e t
  unfolding check_envelope
  check_envelope_iff settings now e t =
      let (sound, complete) = check_signature_iff settings.l0_auth_secret t e in
      (
        λ h. (ground arith, allowed settings.skip_auth_validation (λ k. sound (ground arith))),
        λ a. elim a.1 [ inl skip ↦ ground arith | inr s ↦ let c = complete s in ground arith ],
      )

  -- A request is accepted exactly if its envelope has the right format, is in force, and is signed
  -- for the task with the configured secret, which is not empty; the last is not asked for where
  -- validation of signatures is switched off.
  pub validate_auth_iff :
      (settings : AuthSettings) (now : ℕ) (auth : Json) (t : String)
      → (validate_auth hmac settings now auth t ≡ ok valid) ↔ (
          (e : AuthEnvelope) × (parse_envelope auth ≡ some e)
          × InForce now e
          × ((settings.skip_auth_validation ≡ true) ⊎ IsSigned settings t e))
  unfolding validate_auth
  validate_auth_iff settings now auth t = elim (Option-cases (parse_envelope auth)) [
    | inl malformed ↦ (λ h. ground arith, λ r. cc (malformed, r.1))
    | inr (e, parsed) ↦
        let (sound, complete) = check_envelope_iff settings now e t in
        (
          λ h.
              let (force, signed) = sound (rw (parsed, validate_auth) at h) in
              (e, parsed, force, signed),
          λ r.
              let same : r.0 ≡ e = cc (r.1, parsed) in
              rw (parsed, validate_auth)
                (complete (subst (λ x. Accepts settings now x t) same (r.2, r.3))),
        )
  ]
