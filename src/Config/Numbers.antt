-- ===== src/Config/Numbers.antt =====
-- parseInt of src/config.ts reads what a number is printed as.
use l0_worker.Base.{
  ℕ, suc, ◌+◌, ◌*◌, ◌/◌, ◌-◌, ◌<◌, String, some, List, [], ◌∷◌, arith, ◌≡◌, refl, ap, ◌∙◌, All,
  Bool-cases, inl, inr, length, length-append, ltb,
}
use l0_worker.Base.Int.{ℤ, pos, negsuc}
use l0_worker.Text.{codes}
use l0_worker.Decimal.{digits, print_nat, print}
use l0_worker.Decimal.Laws.{read_from, read_digits, digits-All, IsDigit}
use l0_worker.Config.{scan, scan_digits, parse_codes, parse_int}

-- A text of digits is scanned to its end.
scan-digits : (acc : ℕ) (ds : List ℕ) → All IsDigit ds → scan acc ds ≡ read_from acc ds
unfolding scan read_from
scan-digits acc [] h = refl
scan-digits acc (d ∷ ds) h = ground (arith, scan-digits (acc * 10 + (d - b'0')) ds h.1)

length-digits : (f n : ℕ) → 0 < length (digits (suc f) n)
unfolding digits
length-digits f n = elim (Bool-cases (ltb n 10)) [
  | inl small ↦ rw small (omega arith)
  | inr large ↦ rw large (omega (arith, length-append {0} (digits f (n / 10)) _))
]

scan_digits_lem :
    (ds : List ℕ) → All IsDigit ds → 0 < length ds → scan_digits ds ≡ some (read_from 0 ds)
unfolding scan_digits
scan_digits_lem [] h some_digit = elim some_digit [ ]
scan_digits_lem (d ∷ ds) h some_digit = ground (arith, scan-digits 0 (d ∷ ds) h)

scan_signed_lem :
    (ds : List ℕ) → All IsDigit ds → 0 < length ds → parse_codes ds ≡ some (pos (read_from 0 ds))
unfolding parse_codes
scan_signed_lem [] h some_digit = elim some_digit [ ]
scan_signed_lem (d ∷ ds) h some_digit = ground (arith, scan_digits_lem (d ∷ ds) h some_digit)

parse_codes-print_nat : (n : ℕ) → parse_codes (print_nat n) ≡ some (pos n)
unfolding print_nat
parse_codes-print_nat n =
    scan_signed_lem (digits (suc n) n) (digits-All (suc n) n) (length-digits n n)
    ∙ ap (λ k. some (pos k)) (read_digits (suc n) n (omega arith))

scan_digits-print_nat : (n : ℕ) → scan_digits (print_nat n) ≡ some n
unfolding print_nat
scan_digits-print_nat n =
    scan_digits_lem (digits (suc n) n) (digits-All (suc n) n) (length-digits n n)
    ∙ ap some (read_digits (suc n) n (omega arith))

parse_codes-print : (n : ℤ) → parse_codes (print n) ≡ some n
unfolding print
parse_codes-print (pos n) = parse_codes-print_nat n
parse_codes-print (negsuc n) = unfold parse_codes in rw (scan_digits-print_nat (suc n)) refl

-- An integer that is printed in decimal is read back by parseInt.
pub parse_int-print : (n : ℤ) (s : String) → codes s ≡ print n → parse_int s ≡ some n
unfolding parse_int
parse_int-print n s is = ap parse_codes is ∙ parse_codes-print n
