-- ===== src/Auth/Examples.antt =====
-- Runs of auth/validate.ts. The signature of every text is the same, 44 characters long.
use l0_worker.Base.{
  ℕ, ◌≤◌, String, true, false, some, List, ◌≡◌, ◌≢◌, ◌⊎◌, ◌↔◌, inr, refl, arith, texts_differ,
}
use l0_worker.Base.Int.{ℤ, pos}
use l0_worker.Json.{null, property}
use l0_worker.Thrown.{Thrown, ok}
use l0_worker.Text.{utf16_length}
use l0_worker.Event.Inbound.{AuthEnvelope}
use l0_worker.Auth.{
  AuthSettings, valid, parse_envelope, envelope_json, read_envelope, envelope_admits,
  generate_auth_token, compute_signature, validate_auth,
}
use l0_worker.Auth.Payload.{signing_payload-injective}
use l0_worker.Auth.Verdict.{InForce, IsSigned, validate_auth_iff}
use l0_worker.Auth.Window.{issued, generated_token_window, token_bound}

abbrev secret : String
secret = "secret"

abbrev task : String
task = "a"

abbrev barred : String
barred = "a|1"

abbrev issue : ℤ
issue = pos 10

abbrev life : ℤ
life = pos 60

abbrev signature : String
signature = "AAAAAAAAAAAAAAAAAAAAAAAAAAAAAAAAAAAAAAAAAAA="

-- As long as a signature in UTF-16 units, but not in bytes.
abbrev accented : String
accented = "éAAAAAAAAAAAAAAAAAAAAAAAAAAAAAAAAAAAAAAAAAA="

abbrev hmac : String → List ℕ → String
hmac key text = signature

abbrev settings : AuthSettings
settings = record { skip_auth_validation = false; l0_auth_secret = some "secret" }

long_enough : (s : String) (text : List ℕ) → 32 ≤ utf16_length (hmac s text)
unfolding utf16_length
long_enough s text = ground arith

secret_given : secret ≢ ""
secret_given = texts_differ secret "" refl

signing_payload-injective_example : (barred ≡ barred) × (issue ≡ issue) × (life ≡ life)
signing_payload-injective_example =
    signing_payload-injective barred barred issue issue life life refl

validate_auth_iff_example : (validate_auth hmac settings 8 null task ≡ ok valid) ↔ (
    (e : AuthEnvelope) × (parse_envelope null ≡ some e)
    × InForce 8 e
    × ((settings.skip_auth_validation ≡ true) ⊎ IsSigned hmac settings task e))
validate_auth_iff_example = validate_auth_iff hmac settings 8 null task

issued_parsed :
    parse_envelope (envelope_json (issued hmac secret task issue life))
    ≡ some (issued hmac secret task issue life)
unfolding parse_envelope read_envelope envelope_admits property utf16_length generate_auth_token
    compute_signature
issued_parsed = ground arith

token_accepted :
    validate_auth hmac settings 70 (envelope_json (issued hmac secret task issue life)) task
    ≡ ok valid
token_accepted =
    (validate_auth_iff hmac settings 70 (envelope_json (issued hmac secret task issue life)) task).1
      (
        issued hmac secret task issue life,
        issued_parsed,
        ground arith,
        inr (secret, refl, secret_given, refl),
      )

generated_token_window_example :
    validate_auth hmac settings 70 (envelope_json (issued hmac secret task issue life)) task
    ≡ ok valid
generated_token_window_example =
    generated_token_window hmac settings secret task issue life 70 long_enough refl refl
      secret_given (ground arith)

token_bound_example :
    ((task ≡ task) × (issue ≡ issue) × (life ≡ life))
    ⊎ ((p : List ℕ) × (q : List ℕ) × (p ≢ q) × (hmac secret p ≡ hmac secret q))
token_bound_example =
    token_bound hmac settings secret task task issue issue life life 70 refl refl token_accepted

abbrev accented_envelope : AuthEnvelope
accented_envelope = record { token = accented; issued_at = issue; ttl = life }
