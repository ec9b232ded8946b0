-- ===== src/Decimal/Laws.antt =====
-- A printed integer reads back, so no two integers are printed alike.
use l0_worker.Base.{
  ℕ, zero, suc, ◌+◌, ◌*◌, ◌/◌, ◌%◌, ◌-◌, ◌≤◌, ◌<◌, List, [], ◌∷◌, ◌++◌, ltb, arith, ◌≡◌, ◌≢◌, refl,
  sym, ap, ◌∙◌, All, All-append, Bool-cases, inl, inr, ltb→lt,
}
use mathlib.Core.Path.{subst}
use l0_worker.Base.Int.{ℤ, pos, negsuc}
use l0_worker.Decimal.{digits, print_nat, print}

-- The number that digits stand for, after the digits of `acc`.
unfoldable pub read_from : ℕ → List ℕ → ℕ
read_from acc [] = acc
read_from acc (d ∷ ds) = read_from (acc * 10 + (d - b'0')) ds

read_from-append :
    (acc : ℕ) (ds : List ℕ) (d : ℕ)
    → read_from acc (ds ++ d ∷ []) ≡ read_from acc ds * 10 + (d - b'0')
unfolding read_from
read_from-append acc [] d = refl
read_from-append acc (e ∷ ds) d = read_from-append (acc * 10 + (e - b'0')) ds d

pub read_digits : (f n : ℕ) → n < f → read_from 0 (digits f n) ≡ n
unfolding read_from digits
read_digits zero n h = elim h [ ]
read_digits (suc f) n h =
    ground (arith, read_from-append 0 (digits f (n / 10)) (b'0' + n % 10), read_digits f (n / 10))

abbrev pub IsDigit : ℕ → Type 0
IsDigit d = (b'0' ≤ d) × (d ≤ b'9')

pub digits-All : (f n : ℕ) → All IsDigit (digits f n)
unfolding digits
digits-All zero n = tt
digits-All (suc f) n = elim (Bool-cases (ltb n 10)) [
  | inl small ↦ rw small (omega (arith, ltb→lt n 10 small))
  | inr large ↦
      rw large (All-append IsDigit (digits f (n / 10)) _ (digits-All f (n / 10)) (omega arith))
]

print_nat-injective : (m n : ℕ) → print_nat m ≡ print_nat n → m ≡ n
unfolding print_nat
print_nat-injective m n h =
    sym (read_digits (suc m) m (omega arith))
    ∙ ap (read_from 0) h
    ∙ read_digits (suc n) n (omega arith)

unsigned : (m : ℕ) (ds : List ℕ) → print_nat m ≡ b'-' ∷ ds → ⊥
unfolding print_nat
unsigned m ds h = omega (arith, subst (All IsDigit) h (digits-All (suc m) m))

-- No two integers are printed alike.
pub print-injective : (a b : ℤ) → print a ≡ print b → a ≡ b
unfolding print
print-injective (pos m) (pos n) h = ap pos (print_nat-injective m n h)
print-injective (pos m) (negsuc n) h = absurd (unsigned m (print_nat (suc n)) h)
print-injective (negsuc m) (pos n) h = absurd (unsigned n (print_nat (suc m)) (sym h))
print-injective (negsuc m) (negsuc n) h =
    let same = print_nat-injective (suc m) (suc n) (ground arith) in ground arith

-- Digits and the sign.
abbrev pub IsNumeral : ℕ → Type 0
IsNumeral c = (b'-' ≤ c) × (c ≤ b'9')

digits-IsNumeral : (ds : List ℕ) → All IsDigit ds → All IsNumeral ds
digits-IsNumeral [] h = tt
digits-IsNumeral (d ∷ ds) h = (omega arith, digits-IsNumeral ds h.1)

pub print-All : (a : ℤ) → All IsNumeral (print a)
unfolding print print_nat
print-All (pos n) = digits-IsNumeral (digits (suc n) n) (digits-All (suc n) n)
print-All (negsuc n) = (
  omega arith,
  digits-IsNumeral (digits (suc (suc n)) (suc n)) (digits-All (suc (suc n)) (suc n)),
)

ends-ne-nil : (xs : List ℕ) (y : ℕ) → xs ++ y ∷ [] ≢ []
ends-ne-nil [] y e = cc
ends-ne-nil (x ∷ xs) y e = cc

digits-ne-nil : (f n : ℕ) → digits (suc f) n ≢ []
unfolding digits
digits-ne-nil f n e = ground (arith, ends-ne-nil (digits f (n / 10)) (b'0' + n % 10))

pub print-ne-nil : (a : ℤ) → print a ≢ []
unfolding print print_nat
print-ne-nil (pos n) e = digits-ne-nil n n e
print-ne-nil (negsuc n) e = cc
