-- ===== src/Text.antt =====
-- What the program uses of JavaScript's strings beyond equality: a text as its code points, its
-- length in UTF-16 units, its UTF-8 bytes, and substring tests. Strings are well-formed Unicode.
pub mod Encoding
use Prim.Native.Char.{Char, code}
use Prim.Native.String
use l0_worker.Base.{
  ℕ, ◌+◌, ◌*◌, ◌/◌, ◌%◌, String, Bool, true, false, ◌&&◌, ◌||◌, List, [], ◌∷◌, ◌++◌, ltb, leb, eqb,
  if◌then◌else◌,
}

abbrev pub codes : String → List ℕ
codes String.[] = []
codes (String.◌∷◌ c s) = code c ∷ codes s

-- The UTF-16 units of one code point.
abbrev pub units : ℕ → ℕ
units c = if ltb c 65536 then 1 else 2

abbrev pub units_of : List ℕ → ℕ
units_of [] = 0
units_of (c ∷ cs) = units c + units_of cs

-- s.length
unfoldable pub utf16_length : String → ℕ
utf16_length s = units_of (codes s)

-- A continuation byte holds six bits.
abbrev pub tail_byte : ℕ → ℕ
tail_byte n = 128 + n % 64

unfoldable pub encode : ℕ → List ℕ
encode c =
    if ltb c 128
    then c ∷ []
    else if ltb c 2048
    then (192 + c / 64) ∷ tail_byte c ∷ []
    else if ltb c 65536
    then (224 + c / 4096) ∷ tail_byte (c / 64) ∷ tail_byte c ∷ []
    else (240 + c / 262144) ∷ tail_byte (c / 4096) ∷ tail_byte (c / 64) ∷ tail_byte c ∷ []

unfoldable pub encode_all : List ℕ → List ℕ
unfolding encode
encode_all [] = []
encode_all (c ∷ cs) = encode c ++ encode_all cs

-- Buffer.from(s)
unfoldable pub utf8 : String → List ℕ
unfolding encode_all
utf8 s = encode_all (codes s)

abbrev pub eq_codes : List ℕ → List ℕ → Bool
eq_codes [] [] = true
eq_codes (x ∷ xs) (y ∷ ys) = eqb x y && eq_codes xs ys
eq_codes _ _ = false

-- Whether a text begins with another.
unfoldable pub begins : List ℕ → List ℕ → Bool
begins [] text = true
begins (c ∷ cs) [] = false
begins (c ∷ cs) (d ∷ ds) = eqb c d && begins cs ds

-- text.includes(part), on code points
unfoldable pub contains : List ℕ → List ℕ → Bool
unfolding begins
contains part [] = begins part []
contains part (c ∷ cs) = begins part (c ∷ cs) || contains part cs
