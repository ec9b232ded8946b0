-- ===== src/Hashing/Lookups.antt =====
-- What the object that utils/hash.ts builds holds under each key.
use l0_worker.Base.{
  String, Bool, false, not, ◌&&◌, ◌||◌, Option, none, some, List, [], ◌∷◌, arith, ◌==◌, ◌≡◌, refl,
  eq_iff, if◌then◌else◌, is_some,
}
use l0_worker.Json.{Json, obj, Fields, end, field, property}
use l0_worker.Hashing.{
  place, assign, assign_found, rebuild, keys, insert_key, sort, sort_keys, sort_values,
}

-- The values by their keys, each with its keys sorted.
abbrev pub sorted_value : Option Json → Option Json
sorted_value none = none
sorted_value (some v) = some (sort_keys v)

pub property-sort_values :
    (k : String) (fs : Fields) → property k (sort_values fs) ≡ sorted_value (property k fs)
unfolding property sort_values
property-sort_values k end = refl
property-sort_values k (field j v fs) = ground (arith, property-sort_values k fs)

property-place :
    (k j : String) (v : Json) (fs : Fields)
    → property j (place k v fs) ≡ (if k == j then some v else property j fs)
unfolding property place
property-place k j v end = refl
property-place k j v (field i w fs) =
    ground (arith, property-place k j v fs, eq_iff k j, eq_iff i j, eq_iff i k)

-- Whether a key is in a list.
abbrev pub listed : String → List String → Bool
listed k [] = false
listed k (j ∷ js) = j == k || listed k js

abbrev kept : String → Option Json → Bool
kept k o = not (k == "__proto__") && is_some o

property-assign :
    (k j : String) (o : Option Json) (fs : Fields)
    → property j (assign_found k o fs) ≡ (if k == j && kept j o then o else property j fs)
unfolding assign_found assign
property-assign k j none fs = ground arith
property-assign k j (some v) fs =
    ground (arith, property-place k j v fs, eq_iff k j, eq_iff k "__proto__", eq_iff j "__proto__")

property-rebuild :
    (ks : List String) (values sorted : Fields) (j : String)
    → property j (rebuild ks values sorted)
      ≡ (if listed j ks && kept j (property j values) then property j values else property j sorted)
unfolding rebuild
property-rebuild [] values sorted j = refl
property-rebuild (k ∷ ks) values sorted j = ground (
  arith,
  property-rebuild ks values (assign_found k (property k values) sorted) j,
  property-assign k j (property k values) sorted,
  eq_iff k j,
)

listed-insert_key :
    (j k : String) (ks : List String) → listed j (insert_key k ks) ≡ (k == j || listed j ks)
unfolding insert_key
listed-insert_key j k [] = refl
listed-insert_key j k (i ∷ is) = ground (arith, listed-insert_key j k is)

listed-sort : (j : String) (ks : List String) → listed j (sort ks) ≡ listed j ks
unfolding sort
listed-sort j [] = refl
listed-sort j (k ∷ ks) = ground (arith, listed-insert_key j k (sort ks), listed-sort j ks)

pub listed-keys : (j : String) (fs : Fields) → listed j (keys fs) ≡ is_some (property j fs)
unfolding keys property
listed-keys j end = refl
listed-keys j (field k v fs) = ground (arith, listed-keys j fs)

-- The fields of an object.
abbrev pub fields_of : Json → Fields
fields_of (obj fs) = fs
fields_of _ = end

-- Sorting the keys of an object leaves under each key but `__proto__` the value that was there, with its own keys
-- sorted, and nothing under any other key; under `__proto__` nothing is left.
pub property-sort_keys :
    (k : String) (fs : Fields)
    → property k (fields_of (sort_keys (obj fs)))
      ≡ (if k == "__proto__" then none else sorted_value (property k fs))
unfolding sort_keys property
property-sort_keys k fs = ground (
  arith,
  property-rebuild (sort (keys fs)) (sort_values fs) end k,
  property-sort_values k fs,
  listed-sort k (keys fs),
  listed-keys k fs,
)
