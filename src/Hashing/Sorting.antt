-- ===== src/Hashing/Sorting.antt =====
-- The keys of utils/hash.ts are sorted by a total order, so what comes out does not depend on their order.
use l0_worker.Base.{ℕ, String, true, false, List, [], ◌∷◌, arith, ◌≡◌, ◌≢◌, refl}
use l0_worker.Text.{codes}
use l0_worker.Text.Encoding.{codes-injective}
use l0_worker.Hashing.{units_before, not_after, key_not_after, insert_key}

units_total : (c d : ℕ) → units_before c d ≡ false → c ≢ d → units_before d c ≡ true
unfolding units_before
units_total c d h e = ground arith

units_asymm : (c d : ℕ) → units_before c d ≡ true → units_before d c ≡ true → ⊥
unfolding units_before
units_asymm c d h k = ground arith

units_trans :
    (c d e : ℕ) → units_before c d ≡ true → units_before d e ≡ true → units_before c e ≡ true
unfolding units_before
units_trans c d e h k = ground arith

not_after_total : (cs ds : List ℕ) → not_after cs ds ≡ false → not_after ds cs ≡ true
unfolding not_after
not_after_total [] ds h = absurd (cc)
not_after_total (c ∷ cs) [] h = refl
not_after_total (c ∷ cs) (d ∷ ds) h = ground (arith, not_after_total cs ds, units_total c d)

not_after_antisymm : (cs ds : List ℕ) → not_after cs ds ≡ true → not_after ds cs ≡ true → cs ≡ ds
unfolding not_after
not_after_antisymm [] [] h k = refl
not_after_antisymm [] (d ∷ ds) h k = cc
not_after_antisymm (c ∷ cs) [] h k = cc
not_after_antisymm (c ∷ cs) (d ∷ ds) h k = ground (arith, not_after_antisymm cs ds, units_asymm c d)

not_after_trans :
    (cs ds es : List ℕ) → not_after cs ds ≡ true → not_after ds es ≡ true → not_after cs es ≡ true
unfolding not_after
not_after_trans [] ds es h k = refl
not_after_trans (c ∷ cs) [] es h k = cc
not_after_trans (c ∷ cs) (d ∷ ds) [] h k = cc
not_after_trans (c ∷ cs) (d ∷ ds) (e ∷ es) h k =
    ground (arith, not_after_trans cs ds es, units_trans c d e, units_asymm c d)

pub key_total : (k j : String) → key_not_after k j ≡ false → key_not_after j k ≡ true
unfolding key_not_after
key_total k j = not_after_total (codes k) (codes j)

pub key_antisymm : (k j : String) → key_not_after k j ≡ true → key_not_after j k ≡ true → k ≡ j
unfolding key_not_after
key_antisymm k j p q = codes-injective k j (not_after_antisymm (codes k) (codes j) p q)

pub key_trans :
    (i j k : String)
    → key_not_after i j ≡ true
    → key_not_after j k ≡ true
    → key_not_after i k ≡ true
unfolding key_not_after
key_trans i j k = not_after_trans (codes i) (codes j) (codes k)

-- Two insertions commute.
pub insert_key_comm :
    (k j : String) (is : List String)
    → insert_key k (insert_key j is) ≡ insert_key j (insert_key k is)
unfolding insert_key
insert_key_comm k j [] = ground (arith, key_total k j, key_antisymm k j)
insert_key_comm k j (i ∷ is) = ground (
  arith,
  key_total k j,
  key_antisymm k j,
  key_trans k j i,
  key_trans j k i,
  insert_key_comm k j is,
)
