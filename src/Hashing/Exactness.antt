-- ===== src/Hashing/Exactness.antt =====
-- What the hash of src/utils/hash.ts tells of a payload.
use l0_worker.Base.{ℕ, String, true, List, ◌≡◌, ◌↔◌}
use l0_worker.Json.{Json}
use l0_worker.Text.{encode_all}
use l0_worker.Text.Encoding.{encode_all-injective}
use l0_worker.Hashing.{sort_keys, sha256, hash_payload}
use l0_worker.Json.Stringify.{stringify}
use l0_worker.Hashing.Invariance.{Same, hash_payload-Same}
use l0_worker.Json.Stringify.Unambiguous.{stringify-injective}
use l0_worker.Hashing.Reordering.{ordinary, sorted_like}

-- The bytes that are hashed for a payload.
abbrev pub hashed : Json → List ℕ
hashed v = encode_all (stringify (sort_keys v))

hashed-Same : (v w : Json) → ordinary v ≡ true → ordinary w ≡ true → hashed v ≡ hashed w → Same v w
hashed-Same v w p q e = sorted_like v w p q (
    stringify-injective (sort_keys v) (sort_keys w)
      (encode_all-injective (stringify (sort_keys v)) (stringify (sort_keys w)) e))

module _ (digest : List ℕ → String) where
  -- Of two payloads in which no object has a key twice or the key `__proto__`, and whose bytes the digest does
  -- not confuse, the hashes are equal exactly if the payloads are the same but for the order of the keys in
  -- their objects, at any depth.
  pub hash_payload_iff :
      (v w : Json)
      → ordinary v ≡ true
      → ordinary w ≡ true
      → (digest (hashed v) ≡ digest (hashed w) → hashed v ≡ hashed w)
      → (hash_payload digest v ≡ hash_payload digest w) ↔ Same v w
  unfolding hash_payload sha256
  hash_payload_iff v w p q distinct =
      (λ e. hashed-Same v w p q (distinct e), hash_payload-Same digest v w)
