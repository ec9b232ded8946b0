-- ===== src/Decimal.antt =====
-- How JavaScript prints an integer below 10^21 in magnitude in a template, as code points: decimal
-- digits, with a sign before a negative number.
pub mod Laws
use l0_worker.Base.{ℕ, zero, suc, ◌+◌, ◌*◌, ◌/◌, ◌%◌, ◌-◌, List, [], ◌∷◌, ◌++◌, ltb, if◌then◌else◌}
use l0_worker.Base.Int.{ℤ, pos, negsuc}

-- The digits of a number, by fuel that is larger than the number.
unfoldable pub digits : ℕ → ℕ → List ℕ
digits zero n = []
digits (suc f) n =
    let front = digits f (n / 10) in
    if ltb n 10 then (b'0' + n) ∷ [] else front ++ (b'0' + n % 10) ∷ []

unfoldable pub print_nat : ℕ → List ℕ
unfolding digits
print_nat n = digits (suc n) n

unfoldable pub print : ℤ → List ℕ
unfolding print_nat
print (pos n) = print_nat n
print (negsuc n) = b'-' ∷ print_nat (suc n)
