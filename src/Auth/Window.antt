-- ===== src/Auth/Window.antt =====
-- Tokens that the orchestrator generates, and tokens that break the comparison, in auth/validate.ts.
use l0_worker.Base.{
  ℕ, ◌≤◌, String, Bool, true, false, some, List, arith, ◌≡◌, ◌≢◌, ◌⊎◌, inl, inr, refl, sym, ◌∙◌,
  if◌then◌else◌, not, eq_iff, ◌==◌, Bool-cases,
}
use l0_worker.Base.Int.{ℤ, pos, ◌+ℤ◌, ◌<ℤ◌, ltb_ℤ, ℤ-discrete}
use l0_worker.Json.{Json, property}
use l0_worker.Thrown.{Thrown, Result, ok, ◌>>=◌}
use l0_worker.Text.{utf16_length}
use l0_worker.Event.Inbound.{AuthEnvelope}
use l0_worker.Auth.{
  AuthSettings, AuthResult, valid, invalid, parse_envelope, check_envelope, validate_auth,
  generate_auth_token, compute_signature, envelope_json, envelope_admits, signing_payload,
}
use l0_worker.Auth.Compare.{secure_compare_iff}
use l0_worker.Auth.Payload.{signing_payload-injective}
use l0_worker.Auth.Verdict.{IsSigned, validate_auth_iff}

parse-envelope_json :
    (e : AuthEnvelope) → envelope_admits e ≡ true → parse_envelope (envelope_json e) ≡ some e
unfolding parse_envelope property
parse-envelope_json e h = rw h refl

parse-envelope_json_inv : (x e : AuthEnvelope) → parse_envelope (envelope_json x) ≡ some e → e ≡ x
unfolding parse_envelope property
parse-envelope_json_inv x e h = ground arith

same_request :
    (t u : String) (i j m n : ℤ)
    → ((t ≡ u) × (i ≡ j) × (m ≡ n)) ⊎ (((t ≡ u) × (i ≡ j) × (m ≡ n)) → ⊥)
same_request t u i j m n = elim (ℤ-discrete i j) [
  | no p ↦ inr (λ r. p r.1)
  | yes p ↦ elim (ℤ-discrete m n) [
    | no q ↦ inr (λ r. q r.2)
    | yes q ↦ elim (Bool-cases (t == u)) [
      | inl same ↦ inl ((eq_iff t u).0 same, p, q)
      | inr differ ↦ inr (λ r. cc ((eq_iff t u).1 r.0))
    ]
  ]
]

-- The end of `validateAuth`.
abbrev verdict : Result Bool → Result AuthResult
verdict r = r >>= λ same. ok (if not same then invalid "invalid_signature" else valid)

module _ (hmac : String → List ℕ → String) where
  -- The envelope that carries a token for a task.
  abbrev pub issued : String → String → ℤ → ℤ → AuthEnvelope
  issued secret t issued_at ttl = record {
    token = generate_auth_token hmac secret t issued_at ttl;
    issued_at = issued_at;
    ttl = ttl;
  }

  validate_parsed :
      (settings : AuthSettings) (now : ℕ) (auth : Json) (t : String) (e : AuthEnvelope)
      → parse_envelope auth ≡ some e
      → validate_auth hmac settings now auth t ≡ check_envelope hmac settings now e t
  unfolding validate_auth
  validate_parsed settings now auth t e parsed = rw (parsed, validate_auth) refl

  issued_admits :
      (secret t : String) (i l : ℤ)
      → 32 ≤ utf16_length (hmac secret (signing_payload t i l))
      → pos 0 <ℤ l
      → envelope_admits (issued secret t i l) ≡ true
  unfolding envelope_admits generate_auth_token
  issued_admits secret t i l long positive = ground arith

  check_generated :
      (settings : AuthSettings) (secret t : String) (i l : ℤ) (now : ℕ)
      → settings.skip_auth_validation ≡ false
      → settings.l0_auth_secret ≡ some secret
      → secret ≢ ""
      → check_envelope hmac settings now (issued secret t i l) t
        ≡ ok (
            if ltb_ℤ (i +ℤ l) (pos now)
            then invalid "expired"
            else if ltb_ℤ (pos now +ℤ pos 5000) i
            then invalid "issued_in_future"
            else valid)
  unfolding check_envelope generate_auth_token
  check_generated settings secret t i l now on given ne =
      let signature = compute_signature hmac secret t i l in
      ground (arith, eq_iff secret "", (secure_compare_iff signature signature).1 refl)

  -- With signatures checked and a secret configured, a token that is generated with that secret and a
  -- positive time to live is valid from 5000 ms before its time of issue up to the very end of its time
  -- to live, the last millisecond included; it is refused as expired after that, and as issued in the
  -- future before. A signature is taken to have 32 characters at least.
  pub generated_token_window :
      (settings : AuthSettings) (secret t : String) (issued_at ttl : ℤ) (now : ℕ)
      → ((s : String) (text : List ℕ) → 32 ≤ utf16_length (hmac s text))
      → settings.skip_auth_validation ≡ false
      → settings.l0_auth_secret ≡ some secret
      → secret ≢ ""
      → pos 0 <ℤ ttl
      → validate_auth hmac settings now (envelope_json (issued secret t issued_at ttl)) t
        ≡ ok (
            if ltb_ℤ (issued_at +ℤ ttl) (pos now)
            then invalid "expired"
            else if ltb_ℤ (pos now +ℤ pos 5000) issued_at
            then invalid "issued_in_future"
            else valid)
  generated_token_window settings secret t i l now long on given ne positive =
      let e = issued secret t i l in
      let parsed = parse-envelope_json e (issued_admits secret t i l (long secret _) positive) in
      validate_parsed settings now (envelope_json e) t e parsed
      ∙ check_generated settings secret t i l now on given ne

  -- Two requests agree, or their different texts have one signature.
  or_collision :
      (secret t u : String) (i j m n : ℤ)
      → hmac secret (signing_payload u j n) ≡ hmac secret (signing_payload t i m)
      → ((t ≡ u) × (i ≡ j) × (m ≡ n))
        ⊎ ((p : List ℕ) × (q : List ℕ) × (p ≢ q) × (hmac secret p ≡ hmac secret q))
  or_collision secret t u i j m n h = elim (same_request t u i j m n) [
    | inl same ↦ inl same
    | inr differ ↦ inr (
      signing_payload u j n,
      signing_payload t i m,
      λ e. differ (signing_payload-injective t u i j m n (sym e)),
      h,
    )
  ]

  signature_of :
      (settings : AuthSettings) (secret t : String) (e : AuthEnvelope)
      → settings.skip_auth_validation ≡ false
      → settings.l0_auth_secret ≡ some secret
      → (settings.skip_auth_validation ≡ true) ⊎ IsSigned hmac settings t e
      → e.token ≡ hmac secret (signing_payload t e.issued_at e.ttl)
  unfolding generate_auth_token
  signature_of settings secret t e on given (inl off) = cc
  signature_of settings secret t e on given (inr (s, given', _, same)) =
      let own : s ≡ secret = ground arith in rw own at same

  -- A token is good for nothing but what it was generated for: if signatures are checked and a token
  -- generated for one task and time is accepted for another, then two different texts have been found
  -- that have the same signature.
  pub token_bound :
      (settings : AuthSettings) (secret t u : String) (i j m n : ℤ) (now : ℕ)
      → settings.skip_auth_validation ≡ false
      → settings.l0_auth_secret ≡ some secret
      → validate_auth hmac settings now
          (envelope_json
            (record { token = generate_auth_token hmac secret u j n; issued_at = i; ttl = m }))
          t
        ≡ ok valid
      → ((t ≡ u) × (i ≡ j) × (m ≡ n))
        ⊎ ((p : List ℕ) × (q : List ℕ) × (p ≢ q) × (hmac secret p ≡ hmac secret q))
  unfolding generate_auth_token compute_signature
  token_bound settings secret t u i j m n now on given accepted =
      let (e, parsed, _, how) = (validate_auth_iff hmac settings now _ t).0 accepted in
      let own = parse-envelope_json_inv _ e parsed in
      let same = signature_of settings secret t e on given how in
      or_collision secret t u i j m n (rw own at same)
