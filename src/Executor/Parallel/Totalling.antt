-- ===== src/Executor/Parallel/Totalling.antt =====
-- What a fanout of executor/executor.ts adds up.
use l0_worker.Base.{
  ℕ, ◌+◌, String, Bool, Option, none, some, List, [], ◌∷◌, ◌++◌, map, or_else, append_assoc,
  append-nil, ◌≡◌, refl, sym, ap, arith,
}
use l0_worker.Base.Int.{ℤ}
use l0_worker.Map.{Map}
use l0_worker.Json.{Json, arr}
use l0_worker.Thrown.{ok}
use l0_worker.Order.{ExecutionSpec, ModelSpec, OutputSpec, fanout, text, json}
use l0_worker.Payload.{Message}
use l0_worker.Executor.Runtime.{Runtime, L0State, StreamOptions}
use l0_worker.Executor.Options.{ToolDefinition, build_common_l0_options, build_tools}
use l0_worker.Executor.Streams.{
  Stream, text_stream, object_stream, build_text_stream, build_structured_stream,
}
use l0_worker.Executor.Consume.{ExecutionResult}
use l0_worker.Executor.Parallel.{
  Totals, no_totals, sum_results, add_result, strings, fanout_result, execute_parallel, operations,
  parallel_stream,
}

-- The contribution of one result; one that has no state counts for nothing, with an empty text.
abbrev pub content_of : Option L0State → String
content_of none = ""
content_of (some s) = or_else s.content ""

abbrev pub tokens_of : Option L0State → ℕ
tokens_of none = 0
tokens_of (some s) = or_else s.token_count 0

abbrev pub input_of : Option L0State → ℕ
input_of none = 0
input_of (some s) = or_else s.input_tokens 0

abbrev pub output_of : Option L0State → ℕ
output_of none = 0
output_of (some s) = or_else s.output_tokens (or_else s.token_count 0)

abbrev pub total : (Option L0State → ℕ) → List (Option L0State) → ℕ
total f [] = 0
total f (r ∷ rs) = f r + total f rs

sum_results_lem :
    (rs : List (Option L0State)) (t : Totals)
    → ((sum_results rs t).outputs ≡ t.outputs ++ map content_of rs)
      × ((sum_results rs t).total_tokens ≡ t.total_tokens + total tokens_of rs)
      × ((sum_results rs t).total_input ≡ t.total_input + total input_of rs)
      × ((sum_results rs t).total_output ≡ t.total_output + total output_of rs)
unfolding sum_results
sum_results_lem [] t = (sym (append-nil t.outputs), omega arith, omega arith, omega arith)
sum_results_lem (none ∷ rs) t = ground (
  arith,
  sum_results_lem rs (add_result none t),
  append_assoc t.outputs ("" ∷ []) (map content_of rs),
)
sum_results_lem (some s ∷ rs) t = ground (
  arith,
  sum_results_lem rs (add_result (some s) t),
  append_assoc t.outputs (or_else s.content "" ∷ []) (map content_of rs),
)

module _ (runtime : Runtime) where
  fanout_result_lem :
      (execution : ExecutionSpec) (rs : List (Option L0State))
      → ((fanout_result runtime execution rs).content
          ≡ runtime.json_stringify (arr (strings (map content_of rs))))
        × ((fanout_result runtime execution rs).token_count ≡ total tokens_of rs)
        × ((fanout_result runtime execution rs).input_tokens ≡ total input_of rs)
        × ((fanout_result runtime execution rs).output_tokens ≡ total output_of rs)
  unfolding fanout_result
  fanout_result_lem execution rs =
      let (outputs, tokens, input, output) = sum_results_lem rs no_totals in
      (
        ap (λ os. runtime.json_stringify (arr (strings os))) outputs,
        omega (arith, tokens),
        omega (arith, input),
        omega (arith, output),
      )

-- Two lists of one length, whose elements are related in every place.
abbrev pub InOrder : {A B : Type 0} → (A → B → Type 0) → List A → List B → Type 0
InOrder R [] [] = Unit {0}
InOrder R (x ∷ xs) (y ∷ ys) = R x y × InOrder R xs ys
InOrder R _ _ = ⊥

InOrder-map :
    {A B C : Type 0} (f : A → B) (R : B → C → Type 0) (S : A → C → Type 0) (xs : List A)
    (ys : List C)
    → ((x : A) (y : C) → R (f x) y → S x y)
    → InOrder R (map f xs) ys
    → InOrder S xs ys
InOrder-map f R S [] [] h o = tt
InOrder-map f R S [] (y ∷ ys) h o = o
InOrder-map f R S (x ∷ xs) [] h o = o
InOrder-map f R S (x ∷ xs) (y ∷ ys) h o = (h x y o.0, InOrder-map f R S xs ys h o.1)

-- The model that a stream asks, and what it asks it.
abbrev pub asked : Stream → ModelSpec × List Message
asked (text_stream c) = (c.model, c.messages)
asked (object_stream c) = (c.model, c.messages)

asked-parallel_stream :
    (output : OutputSpec) (messages : List Message) (tools : Option (Map ToolDefinition))
    (m : ModelSpec)
    → asked (parallel_stream output messages tools m) ≡ (m, messages)
unfolding parallel_stream build_text_stream build_structured_stream
asked-parallel_stream text messages tools m = refl
asked-parallel_stream OutputSpec.tokens messages tools m = refl
asked-parallel_stream (json schema strict) messages tools m = refl

module _ (runtime : Runtime) (execution : ExecutionSpec) (messages : List Message)
    (output : OutputSpec) (meta : Option (Map Json)) (signal : Bool)
    (Ends : StreamOptions → Option L0State → Type 0) where
  -- The state is the end of an operation for the model: one whose stream asks the model for an answer to
  -- the messages, without a fallback, and with the options that the order gives.
  abbrev pub EndsFor : ModelSpec → Option L0State → Type 0
  EndsFor m s =
      (op : StreamOptions) × (asked op.stream ≡ (m, messages))
      × (op.fallback_streams ≡ none)
      × (op.common ≡ build_common_l0_options execution meta signal)
      × Ends op s

  by_model :
      (rs : List (Option L0State))
      → InOrder Ends (operations execution messages output meta signal) rs
      → InOrder EndsFor execution.models rs
  unfolding operations
  by_model rs o =
      InOrder-map _ Ends EndsFor execution.models rs
        (λ m s ends.
          (_, asked-parallel_stream output messages (build_tools execution) m, refl, refl, ends))
        o

  -- Where every state that the runtime gives is the end of the operation in its place, a fanout returns a
  -- result, and every state is the end of an operation that asks the model in its place: the content is the
  -- JSON text of the list of all their texts, in the order of the models and with an empty one for an operation
  -- without a state, and the counts of tokens, of input tokens and of output tokens are the sums over them.
  pub fanout_totals :
      (limit : Option ℤ) (rs : List (Option L0State))
      → (runtime.parallel (operations execution messages output meta signal) limit).outcome ≡ ok rs
      → InOrder Ends (operations execution messages output meta signal) rs
      → (r : ExecutionResult) × ((execute_parallel runtime
            (record { mode = fanout; max = limit })
            execution
            messages
            output
            meta
            signal).outcome
          ≡ ok r)
        × InOrder EndsFor execution.models rs
        × (r.content ≡ runtime.json_stringify (arr (strings (map content_of rs))))
        × (r.token_count ≡ total tokens_of rs)
        × (r.input_tokens ≡ total input_of rs)
        × (r.output_tokens ≡ total output_of rs)
  unfolding execute_parallel
  fanout_totals limit rs h placed =
      let (content, tokens, input, out) = fanout_result_lem runtime execution rs in
      (
        fanout_result runtime execution rs,
        rw h refl,
        by_model rs placed,
        content,
        tokens,
        input,
        out,
      )
