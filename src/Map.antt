-- ===== src/Map.antt =====
-- JavaScript's `Map` with string keys, in insertion order; plain objects that are only read by key
-- are maps too. The uniqueness of keys is the predicate `HasDistinctKeys`, which every map built
-- from the empty one has.
pub mod Laws
pub mod Size
use l0_worker.Base.{
  ℕ, String, Bool, true, false, Option, none, some, List, [], ◌∷◌, ◌==◌, if◌then◌else◌, is_some,
  map, length, ◌≡◌,
}

abbrev pub Map {ℓ} : Type ℓ → Type ℓ
Map V = List (String × V)

module _ {ℓ} {V : Type ℓ} where
  -- m.get(k)
  unfoldable pub get : String → Map V → Option V
  get k [] = none
  get k ((j, v) ∷ m) = if j == k then some v else get k m

  -- m.has(k)
  unfoldable pub has : String → Map V → Bool
  has k [] = false
  has k ((j, v) ∷ m) = if j == k then true else has k m

  -- m.set(k, v): a new key goes to the end, an old one keeps its place
  unfoldable pub set : String → V → Map V → Map V
  set k v [] = (k, v) ∷ []
  set k v ((j, w) ∷ m) = if j == k then (j, v) ∷ m else (j, w) ∷ set k v m

  -- m.delete(k), without its result
  unfoldable pub delete : String → Map V → Map V
  delete k [] = []
  delete k ((j, v) ∷ m) = let rest = delete k m in if j == k then rest else (j, v) ∷ rest

  -- m.size
  abbrev pub size : Map V → ℕ
  size m = length m

  -- m.keys()
  abbrev pub keys : Map V → List String
  keys m = map (λ e. e.0) m

  -- { ...m, ...n }
  unfoldable pub spread : Map V → Map V → Map V
  spread m [] = m
  spread m ((k, v) ∷ n) = spread (set k v m) n

  abbrev pub HasDistinctKeys : Map V → Type 0
  HasDistinctKeys [] = Unit
  HasDistinctKeys ((k, v) ∷ m) = (has k m ≡ false) × HasDistinctKeys m
