-- ===== src/Auth/Compare.antt =====
-- The comparison of a token with a signature in auth/validate.ts.
use l0_worker.Base.{String, true, arith, ◌≡◌, ◌≢◌, ◌↔◌, length}
use l0_worker.Thrown.{error, Thrown, ok, err}
use l0_worker.Text.{utf16_length, utf8}
use l0_worker.Text.Encoding.{eq_codes_sound, eq_codes_refl, utf8-injective, IsAscii, IsAscii-iff}
use l0_worker.Auth.{secure_compare}

-- The comparison says yes exactly for equal texts: it compares the bytes, and no two texts have the
-- same bytes.
pub secure_compare_iff : (a b : String) → (secure_compare a b ≡ ok true) ↔ (a ≡ b)
unfolding secure_compare
secure_compare_iff a b = (
  λ h. utf8-injective a b (eq_codes_sound (utf8 a) (utf8 b) (ground arith)),
  λ e. rw e (ground (arith, eq_codes_refl (utf8 b))),
)

abbrev range_error : Thrown
range_error = error "RangeError" "Input buffers must have the same byte length"

-- Against a text of ASCII characters, such as a base64 signature, the comparison throws exactly for a
-- text of the same length, in UTF-16 units, that is not all ASCII.
pub secure_compare_throws :
    (a b : String)
    → IsAscii b
    → ((e : Thrown) × (secure_compare a b ≡ err e))
      ↔ ((utf16_length a ≡ utf16_length b) × (IsAscii a → ⊥))
unfolding secure_compare
secure_compare_throws a b h =
    let bytes = (IsAscii-iff b).1 h in
    (
      λ r.
          let (e, threw) = r in (ground arith, λ k. let same = (IsAscii-iff a).1 k in ground arith),
      λ r.
          let differ : length (utf8 a) ≢ utf16_length a = λ k. r.1 ((IsAscii-iff a).0 k) in
          (range_error, ground arith),
    )
