-- ===== src/Json/Stringify/Characters.antt =====
-- What JSON.stringify writes for a string and for a number ends where it says it ends.
use l0_worker.Base.{
  ℕ, ◌+◌, ◌*◌, ◌-◌, ◌<◌, String, Option, none, some, List, [], ◌∷◌, ◌++◌, arith, ◌≡◌, ◌⊎◌, refl,
  sym, ◌∙◌, ap, ap₂, All, ltb, eqb, append_assoc, if◌then◌else◌,
}
use l0_worker.Base.Int.{ℤ}
use l0_worker.Text.{codes}
use l0_worker.Text.Encoding.{codes-injective}
use l0_worker.Decimal.{print}
use l0_worker.Decimal.Laws.{print-injective, print-All, IsNumeral}
use l0_worker.Json.Stringify.{escape, escaped, quote}

-- The value of a hexadecimal digit.
abbrev unhex : ℕ → ℕ
unhex d = if ltb d 58 then d - 48 else d - 87

abbrev read_hex : List ℕ → Option (ℕ × List ℕ)
read_hex (a ∷ b ∷ h ∷ l ∷ cs) = some (unhex h * 16 + unhex l, cs)
read_hex _ = none

abbrev read_escape : List ℕ → Option (ℕ × List ℕ)
read_escape [] = none
read_escape (e ∷ cs) =
    if eqb e b'u'
    then read_hex cs
    else if eqb e b'b'
    then some (8, cs)
    else if eqb e b't'
    then some (9, cs)
    else if eqb e b'n'
    then some (10, cs)
    else if eqb e b'f'
    then some (12, cs)
    else if eqb e b'r'
    then some (13, cs)
    else some (e, cs)

-- One character of a string that JSON.stringify wrote.
abbrev read_char : List ℕ → Option (ℕ × List ℕ)
read_char [] = none
read_char (c ∷ cs) = if eqb c b'"' then none else if eqb c 92 then read_escape cs else some (c, cs)

read_char-escape : (c : ℕ) (xs : List ℕ) → read_char (escape c ++ xs) ≡ some (c, xs)
read_char-escape c xs = ground arith

read_char-escaped :
    (c : ℕ) (cs r : List ℕ) → read_char (escaped (c ∷ cs) ++ r) ≡ some (c, escaped cs ++ r)
unfolding escaped
read_char-escaped c cs r =
    ap read_char (append_assoc (escape c) (escaped cs) r) ∙ read_char-escape c (escaped cs ++ r)

escaped-split : (cs ds r s : List ℕ) → escaped cs ++ r ≡ escaped ds ++ s → (cs ≡ ds) × (r ≡ s)
unfolding escaped
escaped-split [] [] r s e = (refl, ground arith)
escaped-split [] (d ∷ ds) r s e =
    let read = ap read_char e ∙ read_char-escaped d ds s in absurd (cc)
escaped-split (c ∷ cs) [] r s e =
    let read = sym (read_char-escaped c cs r) ∙ ap read_char e in absurd (cc)
escaped-split (c ∷ cs) (d ∷ ds) r s e =
    let read = sym (read_char-escaped c cs r) ∙ ap read_char e ∙ read_char-escaped d ds s in
    let (same, rest) = escaped-split cs ds r s (cc) in (ap₂ ◌∷◌ (cc) same, rest)

pub quote-split : (k j : String) (r s : List ℕ) → quote k ++ r ≡ quote j ++ s → (k ≡ j) × (r ≡ s)
unfolding quote
quote-split k j r s e =
    let (same, rest) = escaped-split (codes k) (codes j) r s (ground arith) in
    (codes-injective k j same, rest)

-- A text that does not go on with a number.
abbrev pub Stops : List ℕ → Type 0
Stops [] = Unit
Stops (c ∷ cs) = (c < b'-') ⊎ (b'9' < c)

numeral-split :
    (xs ys r s : List ℕ)
    → All IsNumeral xs
    → All IsNumeral ys
    → Stops r
    → Stops s
    → xs ++ r ≡ ys ++ s
    → (xs ≡ ys) × (r ≡ s)
numeral-split [] [] r s h k p q e = (refl, e)
numeral-split [] (y ∷ ys) [] s h k p q e = absurd (cc)
numeral-split [] (y ∷ ys) (c ∷ r) s h k p q e = ground arith
numeral-split (x ∷ xs) [] r [] h k p q e = absurd (cc)
numeral-split (x ∷ xs) [] r (c ∷ s) h k p q e = ground arith
numeral-split (x ∷ xs) (y ∷ ys) r s h k p q e =
    let (front, rest) = numeral-split xs ys r s h.1 k.1 p q (ground arith) in (ground arith, rest)

pub print-split :
    (m n : ℤ) (r s : List ℕ) → Stops r → Stops s → print m ++ r ≡ print n ++ s → (m ≡ n) × (r ≡ s)
print-split m n r s p q e =
    let (same, rest) = numeral-split (print m) (print n) r s (print-All m) (print-All n) p q e in
    (print-injective m n same, rest)
