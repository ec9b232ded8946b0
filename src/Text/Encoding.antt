-- ===== src/Text/Encoding.antt =====
-- The UTF-8 encoding is injective, and takes more bytes than UTF-16 units outside ASCII.

use text.Mathlib.TextEquality.{Char-path}
use l0_worker.Base.{
  ℕ, true, ◌+◌, ◌≤◌, ◌<◌, String, List, [], ◌∷◌, ◌++◌, arith, ◌≡◌, refl, sym, ap₂, length, All, ◌⊎◌,
  ◌↔◌,
}
use l0_worker.Text.{codes, units, units_of, utf16_length, encode, encode_all, utf8, eq_codes}

pub codes-injective : (s t : String) → codes s ≡ codes t → s ≡ t
codes-injective String.[] String.[] h = refl
codes-injective String.[] (String.◌∷◌ d t) h = cc
codes-injective (String.◌∷◌ c s) String.[] h = cc
codes-injective (String.◌∷◌ c s) (String.◌∷◌ d t) h =
    ap₂ String.◌∷◌ (Char-path c d (ground arith)) (codes-injective s t (ground arith))

pub eq_codes_sound : (xs ys : List ℕ) → eq_codes xs ys ≡ true → xs ≡ ys
eq_codes_sound [] [] h = refl
eq_codes_sound [] (y ∷ ys) h = cc
eq_codes_sound (x ∷ xs) [] h = cc
eq_codes_sound (x ∷ xs) (y ∷ ys) h = ground (arith, eq_codes_sound xs ys)

pub eq_codes_refl : (xs : List ℕ) → eq_codes xs xs ≡ true
eq_codes_refl [] = refl
eq_codes_refl (x ∷ xs) = ground (arith, eq_codes_refl xs)

encode_split : (c d : ℕ) (xs ys : List ℕ) → encode c ++ xs ≡ encode d ++ ys → (c ≡ d) × (xs ≡ ys)
unfolding encode
encode_split c d xs ys h = ground arith

encode-ne-nil : (c : ℕ) (xs : List ℕ) → encode c ++ xs ≡ [] → ⊥
unfolding encode
encode-ne-nil c xs h = ground arith

pub encode_all-injective : (cs ds : List ℕ) → encode_all cs ≡ encode_all ds → cs ≡ ds
unfolding encode_all
encode_all-injective [] [] h = refl
encode_all-injective [] (d ∷ ds) h = absurd (encode-ne-nil d (encode_all ds) (sym h))
encode_all-injective (c ∷ cs) [] h = absurd (encode-ne-nil c (encode_all cs) h)
encode_all-injective (c ∷ cs) (d ∷ ds) h =
    let (same, rest) = encode_split c d (encode_all cs) (encode_all ds) h in
    ap₂ ◌∷◌ same (encode_all-injective cs ds rest)

-- Texts with the same bytes are the same.
pub utf8-injective : (s t : String) → utf8 s ≡ utf8 t → s ≡ t
unfolding utf8
utf8-injective s t h = codes-injective s t (encode_all-injective (codes s) (codes t) h)

abbrev pub IsAscii : String → Type 0
IsAscii s = All (λ c. c < 128) (codes s)

-- A code point takes as many bytes as UTF-16 units in ASCII, and more outside it.
encode-units :
    (c : ℕ) (rest : List ℕ)
    → ((c < 128) × (length (encode c ++ rest) ≡ units c + length rest))
      ⊎ ((128 ≤ c) × (units c + length rest < length (encode c ++ rest)))
unfolding encode
encode-units c rest = ground arith

units-le : (cs : List ℕ) → units_of cs ≤ length (encode_all cs)
unfolding encode_all
units-le [] = omega arith
units-le (c ∷ cs) = omega (arith, encode-units c (encode_all cs), units-le cs)

ascii_of_units : (cs : List ℕ) → length (encode_all cs) ≡ units_of cs → All (λ c. c < 128) cs
unfolding encode_all
ascii_of_units [] h = tt
ascii_of_units (c ∷ cs) h =
    let split = encode-units c (encode_all cs) in
    let rest = units-le cs in (omega arith, ascii_of_units cs (omega arith))

units_of_ascii : (cs : List ℕ) → All (λ c. c < 128) cs → length (encode_all cs) ≡ units_of cs
unfolding encode_all
units_of_ascii [] h = refl
units_of_ascii (c ∷ cs) h = omega (arith, encode-units c (encode_all cs), units_of_ascii cs h.1)

-- A text has as many bytes as UTF-16 units exactly if it is ASCII.
pub IsAscii-iff : (s : String) → (length (utf8 s) ≡ utf16_length s) ↔ IsAscii s
unfolding utf8 utf16_length
IsAscii-iff s = (ascii_of_units (codes s), units_of_ascii (codes s))
