-- ===== src/Json/Stringify.antt =====
-- JSON.stringify, as src/utils/hash.ts and the streams of src/server.ts use it, on JSON values: a text is its code
-- points.
pub mod Characters
pub mod Kinds
pub mod Unambiguous
use l0_worker.Base.{
  ℕ, ◌+◌, ◌*◌, ◌-◌, ◌/◌, ◌%◌, String, Bool, true, false, ◌&&◌, ◌||◌, not, Option, none, some, List,
  [], ◌∷◌, ◌++◌, ◌==◌, ltb, leb, eqb, if◌then◌else◌,
}
use l0_worker.Json.{
  Json, null, bool, num, str, arr, obj, Items, nil, cons, Fields, end, field, property,
}
use l0_worker.Text.{codes, encode_all}
use l0_worker.Decimal.{print}

abbrev pub hex : ℕ → ℕ
hex n = if ltb n 10 then b'0' + n else 87 + n

-- How JSON.stringify writes one character of a string.
abbrev pub escape : ℕ → List ℕ
escape c =
    if eqb c b'"'
    then 92 ∷ c ∷ []
    else if eqb c 92
    then 92 ∷ 92 ∷ []
    else if eqb c 8
    then 92 ∷ b'b' ∷ []
    else if eqb c 9
    then 92 ∷ b't' ∷ []
    else if eqb c 10
    then 92 ∷ b'n' ∷ []
    else if eqb c 12
    then 92 ∷ b'f' ∷ []
    else if eqb c 13
    then 92 ∷ b'r' ∷ []
    else if ltb c 32
    then 92 ∷ b'u' ∷ b'0' ∷ b'0' ∷ hex (c / 16) ∷ hex (c % 16) ∷ []
    else c ∷ []

unfoldable pub escaped : List ℕ → List ℕ
escaped [] = b'"' ∷ []
escaped (c ∷ cs) = escape c ++ escaped cs

unfoldable pub quote : String → List ℕ
unfolding escaped
quote s = b'"' ∷ escaped (codes s)

-- JSON.stringify(value)
unfoldable mutual
  unfolding quote print

  pub stringify : Json → List ℕ
  stringify null = codes "null"
  stringify (bool true) = codes "true"
  stringify (bool false) = codes "false"
  stringify (num n) = print n
  stringify (str s) = quote s
  stringify (arr nil) = codes "[]"
  stringify (arr (cons x xs)) = b'[' ∷ stringify x ++ more_items xs
  stringify (obj end) = codes "{}"
  stringify (obj (field k v fs)) = b'{' ∷ quote k ++ b':' ∷ stringify v ++ more_fields fs

  pub more_items : Items → List ℕ
  more_items nil = b']' ∷ []
  more_items (cons x xs) = b',' ∷ stringify x ++ more_items xs

  pub more_fields : Fields → List ℕ
  more_fields end = b'}' ∷ []
  more_fields (field k v fs) = b',' ∷ quote k ++ b':' ∷ stringify v ++ more_fields fs
