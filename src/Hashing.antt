-- ===== src/Hashing.antt =====
-- src/utils/hash.ts: the hash of a payload, which is JSON. The fields of an object stand in the order in
-- which JavaScript enumerates them: array indices first, in ascending order, and then the other keys in
-- the order of their creation. Nothing in a JSON value is a function, so no object has a toJSON that
-- is called. `digest` is the hexadecimal SHA-256 of bytes.
pub mod Sorting
pub mod Lookups
pub mod Invariance
pub mod Reordering
pub mod Exactness
mod Examples
use l0_worker.Base.{
  ℕ, ◌+◌, ◌*◌, ◌-◌, ◌/◌, ◌%◌, String, Bool, true, false, ◌&&◌, ◌||◌, not, Option, none, some, List,
  [], ◌∷◌, ◌++◌, ◌==◌, ltb, leb, eqb, if◌then◌else◌,
}
use l0_worker.Json.Stringify.{stringify}
use l0_worker.Json.{
  Json, null, bool, num, str, arr, obj, Items, nil, cons, Fields, end, field, property,
}
use l0_worker.Text.{codes, encode_all}
use l0_worker.Decimal.{print}

-- The surrogates of a code point from U+10000 on lie between the units U+D7FF and U+E000.
abbrev pub tier : ℕ → ℕ
tier c = if ltb c 57344 then 0 else if ltb c 65536 then 2 else 1

-- Whether the UTF-16 units of a code point come before those of another.
unfoldable pub units_before : ℕ → ℕ → Bool
units_before c d = ltb (tier c) (tier d) || eqb (tier c) (tier d) && ltb c d

unfoldable pub not_after : List ℕ → List ℕ → Bool
unfolding units_before
not_after [] ds = true
not_after (c ∷ cs) [] = false
not_after (c ∷ cs) (d ∷ ds) =
    let rest = not_after cs ds in if eqb c d then rest else units_before c d

-- The comparison of `sort()`: by UTF-16 units.
unfoldable pub key_not_after : String → String → Bool
unfolding not_after
key_not_after k j = not_after (codes k) (codes j)

unfoldable pub insert_key : String → List String → List String
insert_key k [] = k ∷ []
insert_key k (j ∷ js) =
    let rest = insert_key k js in if key_not_after k j then k ∷ j ∷ js else j ∷ rest

-- keys.sort()
unfoldable pub sort : List String → List String
unfolding insert_key
sort [] = []
sort (k ∷ ks) = insert_key k (sort ks)

-- Object.keys(value)
unfoldable pub keys : Fields → List String
keys end = []
keys (field k v fs) = k ∷ keys fs

abbrev digit : ℕ → Bool
digit c = leb b'0' c && leb c b'9'

unfoldable pub digits_value : ℕ → List ℕ → Option ℕ
digits_value n [] = if ltb n 4294967295 then some n else none
digits_value n (c ∷ cs) =
    let rest = digits_value (n * 10 + (c - b'0')) cs in if digit c then rest else none

-- The array index that a key spells, if it spells one: decimal, without a leading zero, below 2^32 - 1.
unfoldable pub index_of : List ℕ → Option ℕ
unfolding digits_value
index_of [] = none
index_of (c ∷ []) = digits_value 0 (c ∷ [])
index_of (c ∷ d ∷ cs) = if eqb c b'0' then none else digits_value 0 (c ∷ d ∷ cs)

abbrev pub index_before : Option ℕ → Option ℕ → Bool
index_before (some m) (some n) = ltb m n
index_before (some m) none = true
index_before none _ = false

-- Whether a key is enumerated before an older one.
unfoldable pub enumerated_before : String → String → Bool
unfolding index_of
enumerated_before k j = index_before (index_of (codes k)) (index_of (codes j))

-- A property is created in its place, or gets a new value.
unfoldable pub place : String → Json → Fields → Fields
place k v end = field k v end
place k v (field j w fs) =
    let rest = place k v fs in
    if j == k
    then field j v fs
    else if enumerated_before k j
    then field k v (field j w fs)
    else field j w rest

-- sorted[key] = v: an assignment to `__proto__` sets the prototype, if anything, and creates no property.
unfoldable pub assign : String → Json → Fields → Fields
unfolding place
assign k v fs = if k == "__proto__" then fs else place k v fs

-- A key that is looked up was enumerated, so it is there.
unfoldable pub assign_found : String → Option Json → Fields → Fields
unfolding assign
assign_found k none sorted = sorted
assign_found k (some v) sorted = assign k v sorted

-- The loop over the keys, with the values that it looks up in `values`.
unfoldable pub rebuild : List String → Fields → Fields → Fields
unfolding assign_found property
rebuild [] values sorted = sorted
rebuild (k ∷ ks) values sorted = rebuild ks values (assign_found k (property k values) sorted)

unfoldable mutual
  unfolding sort keys rebuild

  pub sort_keys : Json → Json
  sort_keys null = null
  sort_keys (bool b) = bool b
  sort_keys (num n) = num n
  sort_keys (str s) = str s
  sort_keys (arr xs) = arr (sort_items xs)
  sort_keys (obj fs) = obj (rebuild (sort (keys fs)) (sort_values fs) end)

  pub sort_items : Items → Items
  sort_items nil = nil
  sort_items (cons x xs) = cons (sort_keys x) (sort_items xs)

  -- What the loop assigns, by its key.
  pub sort_values : Fields → Fields
  sort_values end = end
  sort_values (field k v fs) = field k (sort_keys v) (sort_values fs)

module _ (digest : List ℕ → String) where
  -- sha256(content)
  unfoldable pub sha256 : List ℕ → String
  unfolding encode_all
  sha256 content = digest (encode_all content)

  unfoldable pub hash_payload : Json → String
  unfolding sort_keys stringify sha256
  hash_payload payload = sha256 (stringify (sort_keys payload))
