-- ===== src/Executor/Consume/Tokens.antt =====
-- What the loop of executor/executor.ts makes of a token stream.
use l0_worker.Base.{
  ℕ, suc, ◌+◌, String, Bool, true, false, ◌&&◌, none, some, List, [], ◌∷◌, ◌++◌, length,
  append_assoc, append-nil, ◌≡◌, refl, sym, arith, Option-cases, inl, inr, if◌then◌else◌,
}
use Prim.Native.String
use l0_worker.Executor.Runtime.{Occurrence, emitted, streamed}
use l0_worker.Executor.Consume.{
  Callback, on_first_token, on_token, on_l0_event, Consumed, token_of, consume, consume_one,
  at_start,
}

-- The texts of the tokens among what happens.
unfoldable pub token_texts : List Occurrence → List String
token_texts [] = []
token_texts (emitted e ∷ os) = token_texts os
token_texts (streamed e ∷ os) = elim (token_of e) [
  | none ↦ token_texts os
  | some v ↦ v ∷ token_texts os
]

abbrev pub concat : String → List String → String
concat s [] = s
concat s (v ∷ vs) = concat (String.◌++◌ s v) vs

-- The texts that onToken is called with.
unfoldable pub heard_tokens : List Callback → List String
heard_tokens [] = []
heard_tokens (on_token v ∷ cs) = v ∷ heard_tokens cs
heard_tokens (_ ∷ cs) = heard_tokens cs

unfoldable pub first_calls : List Callback → ℕ
first_calls [] = 0
first_calls (on_first_token ∷ cs) = suc (first_calls cs)
first_calls (_ ∷ cs) = first_calls cs

-- onToken is called only after onFirstToken, which may have been called before the list.
unfoldable pub announced : Bool → List Callback → Bool
announced seen [] = true
announced seen (on_first_token ∷ cs) = announced true cs
announced seen (on_token v ∷ cs) = seen && announced seen cs
announced seen (_ ∷ cs) = announced seen cs

-- The calls for what happens.
abbrev pub calls_for : Bool → List Occurrence → List Callback
calls_for seen [] = []
calls_for seen (emitted e ∷ os) = on_l0_event e ∷ calls_for seen os
calls_for seen (streamed e ∷ os) = elim (token_of e) [
  | none ↦ calls_for seen os
  | some v ↦
      if seen
      then on_token v ∷ calls_for true os
      else on_first_token ∷ on_token v ∷ calls_for true os
]

pub consume_shape :
    (os : List Occurrence) (c : Consumed)
    → ((consume os c).content ≡ concat c.content (token_texts os))
      × ((consume os c).token_count ≡ c.token_count + length (token_texts os))
      × ((consume os c).calls ≡ c.calls ++ calls_for c.first_token_emitted os)
unfolding consume consume_one token_texts
consume_shape [] c = (refl, omega arith, sym (append-nil c.calls))
consume_shape (emitted e ∷ os) c = ground (
  arith,
  consume_shape os (consume_one (emitted e) c),
  append_assoc c.calls (on_l0_event e ∷ []) (calls_for c.first_token_emitted os),
)
consume_shape (streamed e ∷ os) c =
    let rest = consume_shape os (consume_one (streamed e) c) in
    elim (Option-cases e.value) [
      | inl absent ↦ ground arith
      | inr (v, present) ↦ ground (
        arith,
        append_assoc c.calls (on_token v ∷ []) (calls_for true os),
        append_assoc c.calls (on_first_token ∷ on_token v ∷ []) (calls_for true os),
      )
    ]

calls_for_lem :
    (seen : Bool) (os : List Occurrence)
    → (heard_tokens (calls_for seen os) ≡ token_texts os)
      × (announced seen (calls_for seen os) ≡ true)
      × (first_calls (calls_for true os) ≡ 0)
unfolding heard_tokens announced first_calls token_texts
calls_for_lem seen [] = (refl, refl, refl)
calls_for_lem seen (emitted e ∷ os) = ground (arith, calls_for_lem seen os)
calls_for_lem seen (streamed e ∷ os) = ground (arith, calls_for_lem seen os, calls_for_lem true os)

abbrev pub first_count : List String → ℕ
first_count [] = 0
first_count (v ∷ vs) = 1

first_calls_lem :
    (os : List Occurrence) → first_calls (calls_for false os) ≡ first_count (token_texts os)
unfolding first_calls token_texts
first_calls_lem [] = refl
first_calls_lem (emitted e ∷ os) = ground (arith, first_calls_lem os)
first_calls_lem (streamed e ∷ os) =
    let (_, _, none_after) = calls_for_lem true os in ground (arith, first_calls_lem os)

-- The loop over a stream, from its start: the content is the tokens' texts one after another, the count
-- is their number, onToken is called with each in order, and onFirstToken once if there is a token, before
-- all of them, and never otherwise.
pub consume_tokens :
    (os : List Occurrence)
    → ((consume os at_start).content ≡ concat "" (token_texts os))
      × ((consume os at_start).token_count ≡ length (token_texts os))
      × (heard_tokens (consume os at_start).calls ≡ token_texts os)
      × (first_calls (consume os at_start).calls ≡ first_count (token_texts os))
      × (announced false (consume os at_start).calls ≡ true)
consume_tokens os =
    let (content, count, calls) = consume_shape os at_start in
    let (heard, before, _) = calls_for_lem false os in
    (content, omega (arith, count), rw calls heard, rw calls (first_calls_lem os), rw calls before)
