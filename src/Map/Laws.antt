-- ===== src/Map/Laws.antt =====
-- How the operations of a map read through `get` and `has`.
use l0_worker.Base.{
  String, true, false, none, some, [], ◌∷◌, ◌==◌, if◌then◌else◌, is_some, ◌≡◌, refl, arith, eq_iff,
  eq_refl,
}
use l0_worker.Map.{Map, get, has, set, delete, spread, HasDistinctKeys}

module _ {ℓ} {V : Type ℓ} where
  pub get-set :
      (k j : String) (v : V) (m : Map V) → get j (set k v m) ≡ (if k == j then some v else get j m)
  unfolding get set
  get-set k j v [] = refl
  get-set k j v ((i, w) ∷ m) = ground (arith, eq_iff k j, eq_iff i k, eq_iff i j, get-set k j v m)

  pub get-delete :
      (k j : String) (m : Map V) → get j (delete k m) ≡ (if k == j then none else get j m)
  unfolding get delete
  get-delete k j [] = ground arith
  get-delete k j ((i, w) ∷ m) = ground (arith, eq_iff k j, eq_iff i k, eq_iff i j, get-delete k j m)

  pub has-eq-get : (k : String) (m : Map V) → has k m ≡ is_some (get k m)
  unfolding has get
  has-eq-get k [] = refl
  has-eq-get k ((j, v) ∷ m) = ground (arith, has-eq-get k m)

  pub has-set :
      (k j : String) (v : V) (m : Map V) → has j (set k v m) ≡ (if k == j then true else has j m)
  unfolding has set
  has-set k j v [] = refl
  has-set k j v ((i, w) ∷ m) = ground (arith, eq_iff k j, eq_iff i k, eq_iff i j, has-set k j v m)

  pub has-delete :
      (k j : String) (m : Map V) → has j (delete k m) ≡ (if k == j then false else has j m)
  unfolding has delete
  has-delete k j [] = ground arith
  has-delete k j ((i, w) ∷ m) = ground (arith, eq_iff k j, eq_iff i k, eq_iff i j, has-delete k j m)

  -- Deleting a key that is not there changes nothing.
  pub delete_absent : (k : String) (m : Map V) → has k m ≡ false → delete k m ≡ m
  unfolding has delete
  delete_absent k [] h = refl
  delete_absent k ((j, v) ∷ m) h = ground (arith, delete_absent k m)

  -- A key that was new is deleted without a trace.
  pub delete-set : (k : String) (v : V) (m : Map V) → has k m ≡ false → delete k (set k v m) ≡ m
  unfolding has set delete
  delete-set k v [] h = ground (arith, eq_refl k)
  delete-set k v ((j, w) ∷ m) h = ground (arith, delete-set k v m)

  pub get-spread :
      (j : String) (n m : Map V)
      → HasDistinctKeys n
      → get j (spread m n) ≡ (if has j n then get j n else get j m)
  unfolding get has spread
  get-spread j [] m d = refl
  get-spread j ((k, v) ∷ n) m d =
      ground (arith, eq_iff k j, get-spread j n (set k v m) d.1, get-set k j v m)

  pub delete-HasDistinctKeys :
      (k : String) (m : Map V) → HasDistinctKeys m → HasDistinctKeys (delete k m)
  unfolding delete
  delete-HasDistinctKeys k [] d = tt
  delete-HasDistinctKeys k ((j, v) ∷ m) d =
      ground (arith, has-delete k j m, delete-HasDistinctKeys k m d.1)

  pub set-HasDistinctKeys :
      (k : String) (v : V) (m : Map V) → HasDistinctKeys m → HasDistinctKeys (set k v m)
  unfolding set
  set-HasDistinctKeys k v [] d = (unfold has in refl, tt)
  set-HasDistinctKeys k v ((j, w) ∷ m) d =
      ground (arith, has-set k j v m, eq_iff k j, eq_iff j k, set-HasDistinctKeys k v m d.1)

  pub spread-HasDistinctKeys : (n m : Map V) → HasDistinctKeys m → HasDistinctKeys (spread m n)
  unfolding spread
  spread-HasDistinctKeys [] m d = d
  spread-HasDistinctKeys ((k, v) ∷ n) m d =
      spread-HasDistinctKeys n (set k v m) (set-HasDistinctKeys k v m d)
