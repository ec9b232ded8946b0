-- ===== src/Auth.antt =====
-- src/auth/validate.ts: validation of the auth envelope. A reading of `Date.now()` is an argument.
-- `hmac` is Node's HMAC-SHA256 in base64 of a text under a secret, for the text's code points.
pub mod Compare
pub mod Payload
pub mod Verdict
pub mod Window
mod Examples
use l0_worker.Base.{
  ℕ, String, Bool, true, false, not, ◌&&◌, Option, none, some, List, [], ◌∷◌, ◌++◌, ◌==◌, leb, eqb,
  if◌then◌else◌, length,
}
use l0_worker.Base.Int.{ℤ, pos, ◌+ℤ◌, ltb_ℤ}
use l0_worker.Json.{Json, null, bool, num, str, arr, obj, Fields, end, field, property}
use l0_worker.Thrown.{Result, ok, err, error, ◌>>=◌}
use l0_worker.Text.{codes, utf16_length, utf8, eq_codes}
use l0_worker.Decimal.{print}
use l0_worker.Event.Inbound.{AuthEnvelope}

-- The parts of the process's environment and configuration that validation reads.
pub record AuthSettings : Type 0 where
  pub skip_auth_validation : Bool
  pub l0_auth_secret : Option String

pub data AuthResult : Type 0 where
  valid : AuthResult
  invalid : String → AuthResult

abbrev pub clock_skew_ms : ℤ
clock_skew_ms = pos 5000

-- getAuthSecret(): an empty variable is no secret
unfoldable pub auth_secret : Option String → Option String
auth_secret none = none
auth_secret (some s) = if s == "" then none else some s

-- The text that is signed: task_id|issued_at|ttl
unfoldable pub signing_payload : String → ℤ → ℤ → List ℕ
signing_payload task_id issued_at ttl =
    codes task_id ++ (b'|' ∷ (print issued_at ++ (b'|' ∷ print ttl)))

-- secureCompare(a, b); `timingSafeEqual` throws on buffers of different lengths
unfoldable pub secure_compare : String → String → Result Bool
secure_compare a b =
    if not (eqb (utf16_length a) (utf16_length b))
    then ok false
    else if not (eqb (length (utf8 a)) (length (utf8 b)))
    then err (error "RangeError" "Input buffers must have the same byte length")
    else ok (eq_codes (utf8 a) (utf8 b))

-- The checks of AuthEnvelopeSchema on an envelope: token.min(32), ttl.positive().
unfoldable pub envelope_admits : AuthEnvelope → Bool
envelope_admits e = leb 32 (utf16_length e.token) && ltb_ℤ (pos 0) e.ttl

-- An object with the properties of the envelope's types.
unfoldable pub read_envelope : Option Json → Option Json → Option Json → Option AuthEnvelope
read_envelope (some (str token)) (some (num issued_at)) (some (num ttl)) =
    some (record { token = token; issued_at = issued_at; ttl = ttl })
read_envelope _ _ _ = none

abbrev checked : Option AuthEnvelope → Option AuthEnvelope
checked none = none
checked (some e) = if envelope_admits e then some e else none

-- AuthEnvelopeSchema.safeParse(auth)
unfoldable pub parse_envelope : Json → Option AuthEnvelope
unfolding read_envelope envelope_admits
parse_envelope (obj fs) =
    checked (read_envelope (property "token" fs) (property "issued_at" fs) (property "ttl" fs))
parse_envelope _ = none

-- The value that an envelope is in JavaScript.
abbrev pub envelope_json : AuthEnvelope → Json
envelope_json e = obj (
    field "token" (str e.token) (field "issued_at" (num e.issued_at) (field "ttl" (num e.ttl) end)))

module _ (hmac : String → List ℕ → String) where
  unfoldable pub compute_signature : String → String → ℤ → ℤ → String
  compute_signature secret task_id issued_at ttl =
      hmac secret (signing_payload task_id issued_at ttl)

  unfoldable pub generate_auth_token : String → String → ℤ → ℤ → String
  unfolding compute_signature
  generate_auth_token secret task_id issued_at ttl = compute_signature secret task_id issued_at ttl

  -- The rest of `validateAuth` once the signature has to be checked.
  unfoldable pub check_signature : Option String → String → AuthEnvelope → Result AuthResult
  unfolding compute_signature
  check_signature none task_id e = ok (invalid "missing_auth_secret")
  check_signature (some secret) task_id e = do
    same ← secure_compare e.token (compute_signature secret task_id e.issued_at e.ttl)
    ok (if not same then invalid "invalid_signature" else valid)

  -- `validateAuth` for an envelope of the right format.
  unfoldable pub check_envelope : AuthSettings → ℕ → AuthEnvelope → String → Result AuthResult
  unfolding check_signature auth_secret
  check_envelope settings now e task_id =
      if ltb_ℤ (e.issued_at +ℤ e.ttl) (pos now)
      then ok (invalid "expired")
      else if ltb_ℤ (pos now +ℤ clock_skew_ms) e.issued_at
      then ok (invalid "issued_in_future")
      else if settings.skip_auth_validation
      then ok valid
      else check_signature (auth_secret settings.l0_auth_secret) task_id e

  -- validateAuth(auth, taskId), at the time `now`
  unfoldable pub validate_auth : AuthSettings → ℕ → Json → String → Result AuthResult
  unfolding check_envelope parse_envelope
  validate_auth settings now auth task_id = elim (parse_envelope auth) [
    | none ↦ ok (invalid "invalid_format")
    | some e ↦ check_envelope settings now e task_id
  ]
