-- ===== src/Map/Size.antt =====
-- How the operations of a map change its size.
use l0_worker.Base.{suc, String, false, [], ◌∷◌, ◌++◌, if◌then◌else◌, ◌≡◌, refl, arith, eq_iff}
use l0_worker.Map.{keys, Map, has, set, delete, size, HasDistinctKeys}
use l0_worker.Map.Laws.{delete_absent}

module _ {ℓ} {V : Type ℓ} where
  pub size-set :
      (k : String) (v : V) (m : Map V)
      → size (set k v m) ≡ (if has k m then size m else suc (size m))
  unfolding has set
  size-set k v [] = refl
  size-set k v ((j, w) ∷ m) = ground (arith, size-set k v m)

  pub size-delete :
      (k : String) (m : Map V)
      → HasDistinctKeys m
      → size m ≡ (if has k m then suc (size (delete k m)) else size (delete k m))
  unfolding has delete
  size-delete k [] d = refl
  size-delete k ((j, v) ∷ m) d = ground (arith, eq_iff j k, size-delete k m d.1, delete_absent k m)

  -- A new key is appended.
  pub set_new : (k : String) (v : V) (m : Map V) → has k m ≡ false → set k v m ≡ m ++ (k, v) ∷ []
  unfolding has set
  set_new k v [] h = refl
  set_new k v ((j, w) ∷ m) h = ground (arith, set_new k v m)

  -- Setting a key that is there keeps the order of the keys; a new key comes last.
  pub keys-set :
      (k : String) (v : V) (m : Map V)
      → keys (set k v m) ≡ (if has k m then keys m else keys m ++ k ∷ [])
  unfolding has set
  keys-set k v [] = refl
  keys-set k v ((j, w) ∷ m) = ground (arith, keys-set k v m)
