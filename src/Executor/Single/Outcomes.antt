-- ===== src/Executor/Single/Outcomes.antt =====
-- How the results of executor/executor.ts's text and structured executions agree with the callbacks.
use mathlib.Core.Path.{subst}
use l0_worker.Base.{
  String, none, ◌⊎◌, inl, inr, refl, Bool, true, false, Option, some, List, length, ◌≡◌, arith, ◌∙◌,
  sym, ap,
}
use l0_worker.Map.{Map}
use l0_worker.Json.{Json}
use l0_worker.Thrown.{Result, ok, err, ◌>>=◌, Result-cases}
use l0_worker.Order.{ExecutionSpec, ModelSpec, JsonSchema}
use l0_worker.Payload.{Message}
use l0_worker.Executor.Runtime.{Runtime, Occurrence, L0State}
use l0_worker.Executor.Consume.{ExecutionResult, Consumed, consume, at_start}
use l0_worker.Executor.Consume.Tokens.{
  consume_tokens, concat, heard_tokens, first_calls, first_count, announced,
}
use l0_worker.Executor.Single.{
  execute_text, execute_structured, text_result, structured_result, validated, parse_content,
  text_options, structured_options,
}

text_outcome_lem :
    (model : ModelSpec) (c : Consumed) (o : Result L0State) (r : ExecutionResult)
    → (o >>= λ state. ok (text_result model c state)) ≡ ok r
    → (r.content ≡ c.content) × (r.token_count ≡ c.token_count) × (r.model_used ≡ some model)
unfolding text_result
text_outcome_lem model c (ok state) r h = ground arith
text_outcome_lem model c (err e) r h = cc

tokens_agree :
    (os : List Occurrence) (r : ExecutionResult)
    → r.token_count ≡ (consume os at_start).token_count
    → (r.token_count ≡ length (heard_tokens (consume os at_start).calls))
      × (first_calls (consume os at_start).calls
          ≡ first_count (heard_tokens (consume os at_start).calls))
      × (announced false (consume os at_start).calls ≡ true)
tokens_agree os r same =
    let (_, count, heard, first, before) = consume_tokens os in
    (same ∙ count ∙ sym (ap length heard), first ∙ sym (ap first_count heard), before)

module _ (runtime : Runtime) where
  -- Where the output of a structured execution comes from: the object of the runtime, if it has one, and
  -- otherwise the text that was heard, parsed.
  abbrev pub ComesFrom : Option (Result Json) → String → Json → Type 0
  ComesFrom object heard j =
      (object ≡ some (ok j))
      ⊎ ((¬ ((k : Json) × (object ≡ some (ok k)))) × (runtime.json_parse heard ≡ ok j))

  validated-ComesFrom :
      (object : Option (Result Json)) (content : String) (j : Json)
      → validated runtime object content ≡ ok j
      → ComesFrom object content j
  unfolding validated parse_content
  validated-ComesFrom (some (ok k)) content j h = inl (ap some h)
  validated-ComesFrom (some (err e)) content j h =
      elim (Result-cases (runtime.json_parse content)) [
        | inl (x, threw) ↦ absurd (ground arith)
        | inr (k, parsed) ↦ inr (λ (k, is). ground arith, ground arith)
      ]
  validated-ComesFrom none content j h = elim (Result-cases (runtime.json_parse content)) [
    | inl (x, threw) ↦ absurd (ground arith)
    | inr (k, parsed) ↦ inr (λ (k, is). ground arith, ground arith)
  ]

  structured_outcome_lem :
      (model : ModelSpec) (c : Consumed) (o : Result L0State) (v : Result Json)
      (r : ExecutionResult)
      → (o >>= λ state. v >>= λ j. ok (structured_result runtime model c state j)) ≡ ok r
      → (r.token_count ≡ c.token_count)
        × ((j : Json) × (v ≡ ok j)
            × (r.validated_output ≡ some j)
            × (r.content ≡ runtime.json_stringify j))
  unfolding structured_result
  structured_outcome_lem model c (ok state) (ok j) r h =
      (ground arith, (j, refl, ground arith, ground arith))
  structured_outcome_lem model c (ok state) (err e) r h = cc
  structured_outcome_lem model c (err e) v r h = cc

  -- When a text execution returns a result, its content is exactly the texts that onToken was called with,
  -- one after another, its token count is their number, its model is the one asked for, and onFirstToken
  -- was called once before all of them if there is one, and never otherwise.
  pub text_outcome :
      (model : ModelSpec) (execution : ExecutionSpec) (messages : List Message)
      (meta : Option (Map Json)) (signal : Bool) (r : ExecutionResult)
      → let x = execute_text runtime model execution messages meta signal in
        x.outcome ≡ ok r
        → (r.content ≡ concat "" (heard_tokens x.calls))
          × (r.token_count ≡ length (heard_tokens x.calls))
          × (first_calls x.calls ≡ first_count (heard_tokens x.calls))
          × (announced false x.calls ≡ true)
          × (r.model_used ≡ some model)
  unfolding execute_text
  text_outcome model execution messages meta signal r h =
      let run = runtime.l0 (text_options model execution messages meta signal) in
      let c = consume run.occurrences at_start in
      let (content, count, same_model) = text_outcome_lem model c run.outcome r h in
      let (all, _, heard, _, _) = consume_tokens run.occurrences in
      let (tokens, first, before) = tokens_agree run.occurrences r count in
      (content ∙ all ∙ sym (ap (concat "") heard), tokens, first, before, same_model)

  -- When a structured execution returns a result, its output is the object that the runtime made, or, exactly if
  -- the runtime made none, what JSON.parse makes of the texts that onToken was called with, one after another;
  -- its content is the JSON text of that output, and its token count is the number of tokens that onToken was
  -- called with, after one call of onFirstToken if there is one.
  pub structured_outcome :
      (model : ModelSpec) (execution : ExecutionSpec) (messages : List Message)
      (schema : JsonSchema) (meta : Option (Map Json)) (signal : Bool) (r : ExecutionResult)
      → let x = execute_structured runtime model execution messages schema meta signal in
        let run = runtime.l0 (structured_options model execution messages schema meta signal) in
        x.outcome ≡ ok r
        → ((j : Json) × ComesFrom run.object (concat "" (heard_tokens x.calls)) j
            × (r.validated_output ≡ some j)
            × (r.content ≡ runtime.json_stringify j))
          × (r.token_count ≡ length (heard_tokens x.calls))
          × (first_calls x.calls ≡ first_count (heard_tokens x.calls))
          × (announced false x.calls ≡ true)
  unfolding execute_structured
  structured_outcome model execution messages schema meta signal r h =
      let run = runtime.l0 (structured_options model execution messages schema meta signal) in
      let c = consume run.occurrences at_start in
      let (count, (j, given, output, content)) =
        structured_outcome_lem model c run.outcome (validated runtime run.object c.content) r h in
      let (all, _, heard, _, _) = consume_tokens run.occurrences in
      let text = all ∙ sym (ap (concat "") heard) in
      let (tokens, first, before) = tokens_agree run.occurrences r count in
      let source = validated-ComesFrom run.object c.content j given in
      (
        (j, subst (λ t. ComesFrom run.object t j) text source, output, content),
        tokens,
        first,
        before,
      )
