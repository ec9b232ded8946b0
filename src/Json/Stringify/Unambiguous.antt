-- ===== src/Json/Stringify/Unambiguous.antt =====
-- JSON.stringify writes no two JSON values alike.
use l0_worker.Base.{
  ℕ, String, Bool, true, false, List, [], ◌∷◌, ◌++◌, arith, ◌≡◌, inl, inr, refl, sym, ◌∙◌, ap, ap₂,
  append_assoc, append-nil,
}
use l0_worker.Json.{Json, null, bool, num, str, arr, obj, Items, nil, cons, Fields, end, field}
use l0_worker.Json.Stringify.{quote, stringify, more_items, more_fields}
use l0_worker.Json.Stringify.Kinds.{
  lead, Split, lead-stringify, same_kind, num_of, bool_of, str_of, items_of, fields_of, kind-le,
}
use l0_worker.Json.Stringify.Characters.{quote-split, print-split, Stops}

abbrev pub first : List ℕ → ℕ
first [] = 0
first (c ∷ cs) = c

bool-Split : (a b : Bool) (r s : List ℕ) → Split (bool a) r s (bool b)
unfolding stringify
bool-Split true true r s e = (refl, ground arith)
bool-Split true false r s e = absurd (omega (arith, ap first e))
bool-Split false true r s e = absurd (omega (arith, ap first e))
bool-Split false false r s e = (refl, ground arith)

more_items-Stops : (xs : Items) (r : List ℕ) → Stops (more_items xs ++ r)
unfolding more_items
more_items-Stops nil r = inr (omega arith)
more_items-Stops (cons x xs) r = inl (omega arith)

more_fields-Stops : (fs : Fields) (r : List ℕ) → Stops (more_fields fs ++ r)
unfolding more_fields
more_fields-Stops end r = inr (omega arith)
more_fields-Stops (field k v fs) r = inl (omega arith)

list_tail : {x y : ℕ} {xs ys : List ℕ} → x ∷ xs ≡ y ∷ ys → xs ≡ ys
list_tail e = ground arith

-- A field's text, with what follows it.
field_text : (k v m r : List ℕ) → (k ++ b':' ∷ v ++ m) ++ r ≡ k ++ b':' ∷ (v ++ (m ++ r))
field_text k v m r = simp append_assoc

-- A list that ends is not one that goes on with an item.
closed : (y : Json) (m r s : List ℕ) → b']' ∷ r ≡ (stringify y ++ m) ++ s → ⊥
closed y m r s e =
    omega
      (arith, ap lead (e ∙ append_assoc (stringify y) m s), lead-stringify y (m ++ s), kind-le y)

-- The rest of a list, or of an object, is split whatever follows it.
abbrev ItemsSplit : Items → Type 0
ItemsSplit xs =
    (ys : Items) (r s : List ℕ) → more_items xs ++ r ≡ more_items ys ++ s → (xs ≡ ys) × (r ≡ s)

abbrev FieldsSplit : Fields → Type 0
FieldsSplit fs =
    (gs : Fields) (r s : List ℕ) → more_fields fs ++ r ≡ more_fields gs ++ s → (fs ≡ gs) × (r ≡ s)

abbrev pub ValueSplit : Json → Type 0
ValueSplit v = (w : Json) (r s : List ℕ) → Stops r → Stops s → Split v r s w

item-split :
    (x y : Json) (xs ys : Items) (r s : List ℕ)
    → ValueSplit x
    → ItemsSplit xs
    → (stringify x ++ more_items xs) ++ r ≡ (stringify y ++ more_items ys) ++ s
    → (cons x xs ≡ cons y ys) × (r ≡ s)
item-split x y xs ys r s value items e =
    let text =
      sym (append_assoc (stringify x) (more_items xs) r)
      ∙ e
      ∙ append_assoc (stringify y) (more_items ys) s in
    let (same, rest) =
      value y (more_items xs ++ r) (more_items ys ++ s) (more_items-Stops xs r)
        (more_items-Stops ys s) text in
    let (tails, after) = items ys r s rest in (ap₂ cons same tails, after)

field-split :
    (k j : String) (v w : Json) (fs gs : Fields) (r s : List ℕ)
    → ValueSplit v
    → FieldsSplit fs
    → (quote k ++ b':' ∷ stringify v ++ more_fields fs) ++ r
      ≡ (quote j ++ b':' ∷ stringify w ++ more_fields gs) ++ s
    → (field k v fs ≡ field j w gs) × (r ≡ s)
field-split k j v w fs gs r s value fields e =
    let text =
      sym (field_text (quote k) (stringify v) (more_fields fs) r)
      ∙ e
      ∙ field_text (quote j) (stringify w) (more_fields gs) s in
    let (key, colon) = quote-split k j _ _ text in
    let (same, rest) =
      value w (more_fields fs ++ r) (more_fields gs ++ s) (more_fields-Stops fs r)
        (more_fields-Stops gs s) (list_tail colon) in
    let (tails, after) = fields gs r s rest in (λ i. field (key i) (same i) (tails i), after)

mutual
  unfolding stringify quote

  pub stringify-Split : (v : Json) → ValueSplit v
  stringify-Split null w r s p q = same_kind null w r s (λ e. (refl, ground arith))
  stringify-Split (bool b) w r s p q = same_kind (bool b) w r s (bool-Split b (bool_of w) r s)
  stringify-Split (num n) w r s p q =
      same_kind (num n) w r s
        λ e. let (same, rest) = print-split n (num_of w) r s p q e in (ap num same, rest)
  stringify-Split (str t) w r s p q =
      same_kind (str t) w r s
        λ e. let (same, rest) = quote-split t (str_of w) r s e in (ap str same, rest)
  stringify-Split (arr xs) w r s p q =
      same_kind (arr xs) w r s
        λ e. let (same, rest) = items-split xs (items_of w) r s e in (ap arr same, rest)
  stringify-Split (obj fs) w r s p q =
      same_kind (obj fs) w r s
        λ e. let (same, rest) = fields-split fs (fields_of w) r s e in (ap obj same, rest)

  items-split :
      (xs ys : Items) (r s : List ℕ)
      → stringify (arr xs) ++ r ≡ stringify (arr ys) ++ s
      → (xs ≡ ys) × (r ≡ s)
  items-split nil nil r s e = (refl, ground arith)
  items-split nil (cons y ys) r s e = absurd (closed y (more_items ys) r s (list_tail e))
  items-split (cons x xs) nil r s e = absurd (closed x (more_items xs) s r (sym (list_tail e)))
  items-split (cons x xs) (cons y ys) r s e =
      item-split x y xs ys r s (stringify-Split x) (more_items-split xs) (list_tail e)

  more_items-split : (xs : Items) → ItemsSplit xs
  more_items-split nil nil r s e = (refl, ground arith)
  more_items-split nil (cons y ys) r s e = absurd (omega (arith, ap first e))
  more_items-split (cons x xs) nil r s e = absurd (omega (arith, ap first e))
  more_items-split (cons x xs) (cons y ys) r s e =
      item-split x y xs ys r s (stringify-Split x) (more_items-split xs) (list_tail e)

  fields-split :
      (fs gs : Fields) (r s : List ℕ)
      → stringify (obj fs) ++ r ≡ stringify (obj gs) ++ s
      → (fs ≡ gs) × (r ≡ s)
  fields-split end end r s e = (refl, ground arith)
  fields-split end (field j w gs) r s e = absurd (omega (arith, ap first (list_tail e)))
  fields-split (field k v fs) end r s e = absurd (omega (arith, ap first (list_tail e)))
  fields-split (field k v fs) (field j w gs) r s e =
      field-split k j v w fs gs r s (stringify-Split v) (more_fields-split fs) (list_tail e)

  more_fields-split : (fs : Fields) → FieldsSplit fs
  more_fields-split end end r s e = (refl, ground arith)
  more_fields-split end (field j w gs) r s e = absurd (omega (arith, ap first e))
  more_fields-split (field k v fs) end r s e = absurd (omega (arith, ap first e))
  more_fields-split (field k v fs) (field j w gs) r s e =
      field-split k j v w fs gs r s (stringify-Split v) (more_fields-split fs) (list_tail e)

-- No two JSON values have the same text.
pub stringify-injective : (v w : Json) → stringify v ≡ stringify w → v ≡ w
stringify-injective v w e =
    (stringify-Split v w [] [] tt tt
      (append-nil (stringify v) ∙ e ∙ sym (append-nil (stringify w)))).0
