-- ===== src/Auth/Payload.antt =====
-- The text that auth/validate.ts signs determines what is signed.
use l0_worker.Base.{ℕ, String, List, [], ◌∷◌, ◌++◌, arith, ◌≡◌, ◌≢◌, refl, sym, All, append_assoc}
use mathlib.Core.Path.{subst}
use l0_worker.Base.Int.{ℤ}
use l0_worker.Text.{codes}
use l0_worker.Text.Encoding.{codes-injective}
use l0_worker.Decimal.{print}
use l0_worker.Decimal.Laws.{print-injective, print-All, IsNumeral}
use l0_worker.Auth.{signing_payload}

-- A text without a bar.
abbrev NoBar : List ℕ → Type 0
NoBar = All (λ c. c ≢ b'|')

numeral-NoBar : (cs : List ℕ) → All IsNumeral cs → NoBar cs
numeral-NoBar [] h = tt
numeral-NoBar (c ∷ cs) h = (λ e. omega arith, numeral-NoBar cs h.1)

bar_inside : (xs ys : List ℕ) → NoBar (xs ++ b'|' ∷ ys) → ⊥
bar_inside [] ys h = h.0 refl
bar_inside (x ∷ xs) ys h = bar_inside xs ys h.1

list_tail : {x y : ℕ} {xs ys : List ℕ} → x ∷ xs ≡ y ∷ ys → xs ≡ ys
list_tail e = ground arith

-- The last bar of a text splits it in one way.
last_bar :
    (xs us ys vs : List ℕ)
    → NoBar ys
    → NoBar vs
    → xs ++ b'|' ∷ ys ≡ us ++ b'|' ∷ vs
    → (xs ≡ us) × (ys ≡ vs)
last_bar [] [] ys vs h k e = (refl, ground arith)
last_bar [] (u ∷ us) ys vs h k e = absurd (bar_inside us vs (subst NoBar (list_tail e) h))
last_bar (x ∷ xs) [] ys vs h k e = absurd (bar_inside xs ys (subst NoBar (sym (list_tail e)) k))
last_bar (x ∷ xs) (u ∷ us) ys vs h k e =
    let (front, rest) = last_bar xs us ys vs h k (ground arith) in (ground arith, rest)

print-NoBar : (n : ℤ) → NoBar (print n)
print-NoBar n = numeral-NoBar (print n) (print-All n)

-- Two requests to sign have the same text only if they agree on the task, the time of issue and the
-- time to live, whatever characters the task's name has, bars and digits included.
pub signing_payload-injective :
    (t u : String) (i j m n : ℤ)
    → signing_payload t i m ≡ signing_payload u j n
    → (t ≡ u) × (i ≡ j) × (m ≡ n)
unfolding signing_payload
signing_payload-injective t u i j m n h =
    let (front, last) =
      last_bar (codes t ++ b'|' ∷ print i) (codes u ++ b'|' ∷ print j) (print m) (print n)
        (print-NoBar m) (print-NoBar n) (simp append_assoc h) in
    let (task, middle) =
      last_bar (codes t) (codes u) (print i) (print j) (print-NoBar i) (print-NoBar j) front in
    (codes-injective t u task, print-injective i j middle, print-injective m n last)
