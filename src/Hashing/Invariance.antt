-- ===== src/Hashing/Invariance.antt =====
-- The hash of utils/hash.ts does not depend on the order of keys.
use l0_worker.Base.{ℕ, String, List, [], ◌∷◌, false, eq_iff, arith, ◌≡◌, refl, ◌∙◌, ap, ap₂, ◌==◌}
use l0_worker.Json.{Json, arr, obj, Items, nil, cons, Fields, end, field, property}
use l0_worker.Hashing.{
  keys, sort, rebuild, insert_key, assign_found, sort_keys, sort_items, sort_values, sha256,
  hash_payload,
}
use l0_worker.Json.Stringify.{stringify}
use l0_worker.Hashing.Sorting.{insert_key_comm}

-- Payloads that are the same but for the order of the keys in their objects, at any depth.
mutual
  pub data Same : Json → Json → Type 0 where
    alike : (v : Json) → Same v v
    arrays : {xs ys : Items} → SameItems xs ys → Same (arr xs) (arr ys)
    objects : {fs gs : Fields} → Shuffled fs gs → Same (obj fs) (obj gs)

  pub data SameItems : Items → Items → Type 0 where
    empty : SameItems nil nil
    both :
        {x y : Json} {xs ys : Items}
        → Same x y
        → SameItems xs ys
        → SameItems (cons x xs) (cons y ys)

  pub data Shuffled : Fields → Fields → Type 0 where
    none_left : Shuffled end end
    keep :
        {v w : Json} {fs gs : Fields} (k : String)
        → Same v w
        → Shuffled fs gs
        → Shuffled (field k v fs) (field k w gs)
    swap :
        (k j : String) (v w : Json) (fs : Fields)
        → (k == j) ≡ false
        → Shuffled (field k v (field j w fs)) (field j w (field k v fs))
    then_also : {fs gs hs : Fields} → Shuffled fs gs → Shuffled gs hs → Shuffled fs hs

keys-sort : {fs gs : Fields} → Shuffled fs gs → sort (keys fs) ≡ sort (keys gs)
unfolding sort keys
keys-sort none_left = refl
keys-sort (keep k s t) = ap (insert_key k) (keys-sort t)
keys-sort (swap k j v w fs h) = insert_key_comm k j (sort (keys fs))
keys-sort (then_also s t) = keys-sort s ∙ keys-sort t

rebuild-property :
    (ks : List String) (ms ns sorted : Fields)
    → ((k : String) → property k ms ≡ property k ns)
    → rebuild ks ms sorted ≡ rebuild ks ns sorted
unfolding rebuild
rebuild-property [] ms ns sorted h = refl
rebuild-property (k ∷ ks) ms ns sorted h =
    rw (h k) (rebuild-property ks ms ns (assign_found k (property k ns) sorted) h)

mutual
  unfolding sort_keys property

  same : {v w : Json} → Same v w → sort_keys v ≡ sort_keys w
  same (alike v) = refl
  same (arrays s) = ap arr (same_items s)
  same (objects {fs} {gs} s) = ap obj (
      rw (keys-sort s)
        (rebuild-property (sort (keys gs)) (sort_values fs) (sort_values gs) end (same_values s)))

  same_items : {xs ys : Items} → SameItems xs ys → sort_items xs ≡ sort_items ys
  same_items empty = refl
  same_items (both s t) = ap₂ cons (same s) (same_items t)

  same_values :
      {fs gs : Fields}
      → Shuffled fs gs
      → (i : String) → property i (sort_values fs) ≡ property i (sort_values gs)
  same_values none_left i = refl
  same_values (keep k s t) i = ground (arith, same s, same_values t i)
  same_values (swap k j v w fs h) i = ground (arith, eq_iff k i, eq_iff j i, eq_iff k j)
  same_values (then_also s t) i = same_values s i ∙ same_values t i

-- Payloads that differ only in the order of the keys in their objects, at any depth, have the same hash.
pub hash_payload-Same :
    (digest : List ℕ → String) (v w : Json)
    → Same v w
    → hash_payload digest v ≡ hash_payload digest w
unfolding hash_payload
hash_payload-Same digest v w s = ap (λ x. sha256 digest (stringify x)) (same s)
