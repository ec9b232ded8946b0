-- ===== src/Json/Stringify/Kinds.antt =====
-- A JSON value is of the kind that the first character of its text tells.
use l0_worker.Base.{
  ℕ, zero, suc, ◌≤◌, String, Bool, true, false, List, [], ◌∷◌, ◌++◌, arith, ◌≡◌, ◌≢◌, refl, sym,
  ◌∙◌, ap, leb, eqb, ◌||◌, ◌&&◌, if◌then◌else◌, All,
}
use mathlib.Core.Path.{subst}
use l0_worker.Base.Int.{ℤ, pos}
use l0_worker.Json.{Json, null, bool, num, str, arr, obj, Items, nil, cons, Fields, end, field}
use l0_worker.Decimal.{print}
use l0_worker.Decimal.Laws.{print-All, print-ne-nil, IsNumeral}
use l0_worker.Json.Stringify.{quote, stringify}

-- What a text begins with.
abbrev pub lead : List ℕ → ℕ
lead [] = 6
lead (c ∷ cs) =
    if leb b'-' c && leb c b'9'
    then 0
    else if eqb c b'"'
    then 1
    else if eqb c b'['
    then 2
    else if eqb c b'{'
    then 3
    else if eqb c b'n'
    then 4
    else if eqb c b't' || eqb c b'f'
    then 5
    else 6

abbrev pub kind : Json → ℕ
kind (num n) = 0
kind (str s) = 1
kind (arr xs) = 2
kind (obj fs) = 3
kind null = 4
kind (bool b) = 5

print-lead : (cs r : List ℕ) → All IsNumeral cs → cs ≢ [] → lead (cs ++ r) ≡ 0
print-lead [] r h k = absurd (k refl)
print-lead (c ∷ cs) r h k = ground arith

pub lead-stringify : (v : Json) (r : List ℕ) → lead (stringify v ++ r) ≡ kind v
unfolding stringify quote
lead-stringify null r = refl
lead-stringify (bool true) r = refl
lead-stringify (bool false) r = refl
lead-stringify (num n) r = print-lead (print n) r (print-All n) (print-ne-nil n)
lead-stringify (str s) r = refl
lead-stringify (arr nil) r = refl
lead-stringify (arr (cons x xs)) r = refl
lead-stringify (obj end) r = refl
lead-stringify (obj (field k v fs)) r = refl

abbrev pub num_of : Json → ℤ
num_of (num n) = n
num_of _ = pos 0

abbrev pub bool_of : Json → Bool
bool_of (bool b) = b
bool_of _ = false

abbrev pub str_of : Json → String
str_of (str s) = s
str_of _ = ""

abbrev pub items_of : Json → Items
items_of (arr xs) = xs
items_of _ = nil

abbrev pub fields_of : Json → Fields
fields_of (obj fs) = fs
fields_of _ = end

-- A value of a kind, with the parts of another value.
abbrev pub of_kind : ℕ → Json → Json
of_kind zero v = num (num_of v)
of_kind (suc zero) v = str (str_of v)
of_kind (suc (suc zero)) v = arr (items_of v)
of_kind (suc (suc (suc zero))) v = obj (fields_of v)
of_kind (suc (suc (suc (suc zero)))) v = null
of_kind _ v = bool (bool_of v)

pub of_kind_lem : (v : Json) → v ≡ of_kind (kind v) v
of_kind_lem null = refl
of_kind_lem (bool b) = refl
of_kind_lem (num n) = refl
of_kind_lem (str s) = refl
of_kind_lem (arr xs) = refl
of_kind_lem (obj fs) = refl

-- Two texts that begin with values of the same kind.
abbrev pub Split : Json → List ℕ → List ℕ → Json → Type 0
Split v r s w = stringify v ++ r ≡ stringify w ++ s → (v ≡ w) × (r ≡ s)

-- It is enough to compare a value with those of its own kind.
pub same_kind : (v w : Json) (r s : List ℕ) → Split v r s (of_kind (kind v) w) → Split v r s w
same_kind v w r s h e =
    let k = sym (lead-stringify v r) ∙ ap lead e ∙ lead-stringify w s in
    let shape : w ≡ of_kind (kind v) w = of_kind_lem w ∙ ap (λ (n : ℕ). of_kind n w) (sym k) in
    subst (Split v r s) (sym shape) h e

pub kind-le : (v : Json) → kind v ≤ 5
kind-le null = omega arith
kind-le (bool b) = omega arith
kind-le (num n) = omega arith
kind-le (str s) = omega arith
kind-le (arr xs) = omega arith
kind-le (obj fs) = omega arith
