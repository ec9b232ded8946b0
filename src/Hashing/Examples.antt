-- ===== src/Hashing/Examples.antt =====
-- Runs of utils/hash.ts.
use l0_worker.Base.{ℕ, String, none, List, [], ◌∷◌, ◌≡◌, ◌↔◌, refl, ◌==◌, if◌then◌else◌}
use l0_worker.Base.Int.{pos}
use l0_worker.Json.{null, num, str, arr, obj, nil, Fields, end, field, property}
use l0_worker.Text.{codes, encode_all}
use l0_worker.Hashing.{sort, keys, key_not_after, sort_keys, hash_payload, enumerated_before}
use l0_worker.Json.Stringify.{stringify}
use l0_worker.Hashing.Lookups.{property-sort_keys, fields_of, sorted_value}
use l0_worker.Hashing.Invariance.{
  Same, alike, objects, keep, swap, then_also, none_left, hash_payload-Same,
}
use l0_worker.Hashing.Reordering.{ordinary}
use l0_worker.Hashing.Exactness.{hashed, hash_payload_iff}

-- {"model":"m","10":{"b":1,"a":[]},"9":null}
abbrev inner : Fields
inner = field "b" (num (pos 1)) (field "a" (arr nil) end)

abbrev inner_turned : Fields
inner_turned = field "a" (arr nil) (field "b" (num (pos 1)) end)

abbrev payload : Fields
payload = field "9" null (field "10" (obj inner) (field "model" (str "m\"") end))

abbrev payload_turned : Fields
payload_turned = field "10" (obj inner_turned) (field "9" null (field "model" (str "m\"") end))

-- U+FF5E comes after U+1F600 in UTF-16.
sorted_keys :
    sort ("～" ∷ "😀" ∷ "b" ∷ "a" ∷ "B" ∷ "10" ∷ "9" ∷ [])
    ≡ "10" ∷ "9" ∷ "B" ∷ "a" ∷ "b" ∷ "😀" ∷ "～" ∷ []
unfolding sort key_not_after
sorted_keys = refl

-- Array indices are enumerated first, and as numbers.
sorted_payload :
    stringify
      (sort_keys (obj (field "model" (str "m\"") (field "10" (obj inner) (field "9" null end)))))
    ≡ codes "{\"9\":null,\"10\":{\"a\":[],\"b\":1},\"model\":\"m\\\"\"}"
unfolding sort_keys stringify enumerated_before key_not_after
sorted_payload = refl

payload_Same : Same (obj payload) (obj payload_turned)
payload_Same = objects (
    then_also (swap "9" "10" null (obj inner) _ refl) (
      keep "10" (objects (swap "b" "a" (num (pos 1)) (arr nil) end refl))
        (keep "9" (alike null) (keep "model" (alike _) none_left))))

abbrev first_bytes : List ℕ → String
first_bytes [] = "none"
first_bytes (b ∷ bs) = "some"

bytes_agree : hashed (obj payload) ≡ hashed (obj payload_turned)
unfolding sort_keys stringify key_not_after enumerated_before encode_all
bytes_agree = refl

hash_payload_iff_example :
    (hash_payload first_bytes (obj payload) ≡ hash_payload first_bytes (obj payload_turned))
    ↔ Same (obj payload) (obj payload_turned)
unfolding ordinary keys
hash_payload_iff_example =
    hash_payload_iff first_bytes (obj payload) (obj payload_turned) refl refl (λ e. bytes_agree)

payloads_agree :
    hash_payload first_bytes (obj payload) ≡ hash_payload first_bytes (obj payload_turned)
payloads_agree = hash_payload-Same first_bytes (obj payload) (obj payload_turned) payload_Same

property-sort_keys_example :
    property "10" (fields_of (sort_keys (obj payload)))
    ≡ (if "10" == "__proto__" then none else sorted_value (property "10" payload))
property-sort_keys_example = property-sort_keys "10" payload

-- An own property named `__proto__` does not count for the hash.
proto_dropped : sort_keys (obj (field "__proto__" (num (pos 1)) inner)) ≡ sort_keys (obj inner)
unfolding sort_keys key_not_after enumerated_before
proto_dropped = refl
