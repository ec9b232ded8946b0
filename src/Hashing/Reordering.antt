-- ===== src/Hashing/Reordering.antt =====
-- What payloads have in common when src/utils/hash.ts sorts them alike, or gives them the same hash.
use l0_worker.Base.{
  ℕ, String, Bool, true, false, not, ◌&&◌, none, some, arith, ◌==◌, ◌≡◌, inl, inr, refl, sym, ◌∙◌,
  ap, eq_iff, eq_refl, Bool-cases, Option-cases, if◌then◌else◌,
}
use mathlib.Core.Path.{subst}
use l0_worker.Json.{
  Json, null, bool, num, str, arr, obj, Items, nil, cons, Fields, end, field, property,
}
use l0_worker.Hashing.{keys, sort_keys, sort_items}
use l0_worker.Json.Stringify.Kinds.{kind, of_kind, of_kind_lem, items_of, fields_of}
use l0_worker.Hashing.Lookups.{listed, listed-keys, sorted_value, property-sort_keys}
use l0_worker.Hashing.Invariance.{
  Same, alike, arrays, objects, SameItems, empty, both, Shuffled, none_left, keep, swap, then_also,
}

-- No object has the same key twice, and none has the key `__proto__`.
unfoldable mutual
  unfolding keys

  pub ordinary : Json → Bool
  ordinary null = true
  ordinary (bool b) = true
  ordinary (num n) = true
  ordinary (str s) = true
  ordinary (arr xs) = ordinary_items xs
  ordinary (obj fs) = ordinary_fields fs

  pub ordinary_items : Items → Bool
  ordinary_items nil = true
  ordinary_items (cons x xs) = ordinary x && ordinary_items xs

  pub ordinary_fields : Fields → Bool
  ordinary_fields end = true
  ordinary_fields (field k v fs) =
      not (k == "__proto__") && not (listed k (keys fs)) && ordinary v && ordinary_fields fs

unfoldable remove : String → Fields → Fields
remove k end = end
remove k (field j v fs) = if j == k then fs else field j v (remove k fs)

absent : (k : String) (fs : Fields) → listed k (keys fs) ≡ false → property k fs ≡ none
absent k fs h = ground (arith, listed-keys k fs)

property-remove :
    (k i : String) (fs : Fields)
    → ordinary_fields fs ≡ true
    → property i (remove k fs) ≡ (if k == i then none else property i fs)
unfolding property remove ordinary_fields
property-remove k i end h = ground arith
property-remove k i (field j v fs) h =
    ground (arith, property-remove k i fs, absent j fs, eq_iff j k, eq_iff j i, eq_iff k i)

listed-remove :
    (k i : String) (fs : Fields)
    → listed i (keys fs) ≡ false
    → listed i (keys (remove k fs)) ≡ false
unfolding keys remove
listed-remove k i end h = refl
listed-remove k i (field j v fs) h = ground (arith, listed-remove k i fs)

ordinary-remove :
    (k : String) (fs : Fields) → ordinary_fields fs ≡ true → ordinary_fields (remove k fs) ≡ true
unfolding ordinary_fields remove
ordinary-remove k end h = refl
ordinary-remove k (field j v fs) h = ground (arith, ordinary-remove k fs, listed-remove k j fs)

ordinary-property :
    (k : String) (fs : Fields) (v : Json)
    → ordinary_fields fs ≡ true
    → property k fs ≡ some v
    → ordinary v ≡ true
unfolding ordinary_fields property
ordinary-property k end v h e = cc
ordinary-property k (field j w fs) v h e = ground (arith, ordinary-property k fs v)

no_proto : (fs : Fields) → ordinary_fields fs ≡ true → property "__proto__" fs ≡ none
unfolding ordinary_fields property
no_proto end h = refl
no_proto (field j w fs) h = ground (arith, no_proto fs)

shuffled_refl : (fs : Fields) → Shuffled fs fs
shuffled_refl end = none_left
shuffled_refl (field k v fs) = keep k (alike v) (shuffled_refl fs)

renamed :
    (k j : String) (v w : Json) (fs : Fields)
    → k ≡ j
    → v ≡ w
    → Shuffled (field k v fs) (field j w fs)
renamed k j v w fs p q =
    subst (λ x. Shuffled (field k v fs) (field x w fs)) p
      (subst (λ x. Shuffled (field k v fs) (field k x fs)) q (shuffled_refl (field k v fs)))

-- A field that is taken out may be put back in front.
restore :
    (k : String) (fs : Fields) (v : Json)
    → property k fs ≡ some v
    → Shuffled (field k v (remove k fs)) fs
unfolding property remove
restore k end v e = absurd (cc)
restore k (field j w fs) v e = elim (Bool-cases (j == k)) [
  | inl here ↦ rw here (renamed k j v w fs (sym ((eq_iff j k).0 here)) (ground (arith, e)))
  | inr other ↦ rw other (
      then_also (swap k j v w (remove k fs) (ground (arith, eq_iff j k, eq_iff k j)))
        (keep j (alike w) (restore k fs v (ground arith))))
]

kind-sort_keys : (v : Json) → kind (sort_keys v) ≡ kind v
unfolding sort_keys
kind-sort_keys null = refl
kind-sort_keys (bool b) = refl
kind-sort_keys (num n) = refl
kind-sort_keys (str s) = refl
kind-sort_keys (arr xs) = refl
kind-sort_keys (obj fs) = refl

-- A value that is sorted like another is the same but for the order of keys.
abbrev SortedLike : Json → Json → Type 0
SortedLike v w = ordinary v ≡ true → ordinary w ≡ true → sort_keys v ≡ sort_keys w → Same v w

-- It is enough to look at values of the same kind.
like_kind : (v w : Json) → SortedLike v (of_kind (kind v) w) → SortedLike v w
like_kind v w h p q e =
    let k = sym (kind-sort_keys v) ∙ ap kind e ∙ kind-sort_keys w in
    let shape : w ≡ of_kind (kind v) w = of_kind_lem w ∙ ap (λ (n : ℕ). of_kind n w) (sym k) in
    subst (SortedLike v) (sym shape) h p q e

abbrev Lookups : Fields → Fields → Type 0
Lookups fs gs = (k : String) → sorted_value (property k fs) ≡ sorted_value (property k gs)

-- Objects whose keys are sorted into the same object hold the same under every key.
lookups :
    (fs gs : Fields)
    → ordinary_fields fs ≡ true
    → ordinary_fields gs ≡ true
    → sort_keys (obj fs) ≡ sort_keys (obj gs)
    → Lookups fs gs
lookups fs gs p q e k = ground (
  arith,
  ap (λ v. property k (fields_of v)) e,
  property-sort_keys k fs,
  property-sort_keys k gs,
  no_proto fs,
  no_proto gs,
  eq_iff k "__proto__",
)

remaining :
    (k : String) (v w : Json) (fs gs : Fields)
    → ordinary_fields (field k v fs) ≡ true
    → ordinary_fields gs ≡ true
    → Lookups (field k v fs) gs
    → Lookups fs (remove k gs)
unfolding ordinary_fields property
remaining k v w fs gs p q h i =
    ground (arith, h i, property-remove k i gs q, absent k fs, eq_iff k i)

mutual
  unfolding ordinary sort_keys property

  pub sorted_like : (v w : Json) → SortedLike v w
  sorted_like null w = like_kind null w (λ p q e. alike null)
  sorted_like (bool b) w = like_kind (bool b) w (λ p q e. subst (Same (bool b)) e (alike (bool b)))
  sorted_like (num n) w = like_kind (num n) w (λ p q e. subst (Same (num n)) e (alike (num n)))
  sorted_like (str s) w = like_kind (str s) w (λ p q e. subst (Same (str s)) e (alike (str s)))
  sorted_like (arr xs) w =
      like_kind (arr xs) w (λ p q e. arrays (sorted_items xs (items_of w) p q (ap items_of e)))
  sorted_like (obj fs) w =
      like_kind (obj fs) w
        (λ p q e. objects (same_lookups fs (fields_of w) p q (lookups fs (fields_of w) p q e)))

  sorted_items :
      (xs ys : Items)
      → ordinary_items xs ≡ true
      → ordinary_items ys ≡ true
      → sort_items xs ≡ sort_items ys
      → SameItems xs ys
  sorted_items nil nil p q e = empty
  sorted_items nil (cons y ys) p q e = absurd (cc)
  sorted_items (cons x xs) nil p q e = absurd (cc)
  sorted_items (cons x xs) (cons y ys) p q e =
      both (sorted_like x y (ground arith) (ground arith) (ground arith))
        (sorted_items xs ys (ground arith) (ground arith) (ground arith))

  same_lookups :
      (fs gs : Fields)
      → ordinary_fields fs ≡ true
      → ordinary_fields gs ≡ true
      → Lookups fs gs
      → Shuffled fs gs
  same_lookups end end p q h = none_left
  same_lookups end (field j w gs) p q h = absurd (ground (arith, h j, eq_refl j))
  same_lookups (field k v fs) gs p q h = elim (Option-cases (property k gs)) [
    | inl missing ↦ absurd (ground (arith, h k, eq_refl k))
    | inr (w, found) ↦
        then_also
          (keep k
            (sorted_like v w (ground arith) (ordinary-property k gs w q found)
              (ground (arith, h k, eq_refl k)))
            (same_lookups fs (remove k gs) (ground arith) (ordinary-remove k gs q)
              (remaining k v w fs gs p q h)))
          (restore k gs w found)
  ]
