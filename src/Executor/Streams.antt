-- ===== src/Executor/Streams.antt =====
-- src/executor/executor.ts: the streams that the runtime may start, as what they ask of the AI SDK.
use l0_worker.Base.{String, Option, none, some, List}
use l0_worker.Map
use l0_worker.Map.{Map}
use l0_worker.Json.{Json, null}
use l0_worker.Order.{ModelSpec, JsonSchema}
use l0_worker.Payload.{Message}
use l0_worker.Executor.Options.{ToolDefinition}

-- The arguments of streamText.
pub record TextCall : Type 0 where
  pub model : ModelSpec
  pub messages : List Message
  pub tools : Option (Map ToolDefinition)
  pub temperature : Option Json
  pub max_output_tokens : Option Json
  pub top_p : Option Json
  pub frequency_penalty : Option Json
  pub presence_penalty : Option Json
  pub stop_sequences : Option Json

-- The arguments of streamObject.
pub record ObjectCall : Type 0 where
  pub model : ModelSpec
  pub messages : List Message
  pub schema : JsonSchema
  pub temperature : Option Json
  pub max_output_tokens : Option Json
  pub top_p : Option Json
  pub frequency_penalty : Option Json
  pub presence_penalty : Option Json

pub data Stream : Type 0 where
  text_stream : TextCall → Stream
  object_stream : ObjectCall → Stream

-- (model.params ?? {})[name]
abbrev pub param : String → ModelSpec → Option Json
param name model = elim model.params [ none ↦ none | some ps ↦ Map.get name ps ]

-- x ?? undefined
abbrev pub not_null : Option Json → Option Json
not_null (some null) = none
not_null o = o

unfoldable pub build_text_stream : ModelSpec → List Message → Option (Map ToolDefinition) → Stream
build_text_stream model messages tools = text_stream (record {
  model = model;
  messages = messages;
  tools = tools;
  temperature = param "temperature" model;
  max_output_tokens = param "maxOutputTokens" model;
  top_p = param "topP" model;
  frequency_penalty = param "frequencyPenalty" model;
  presence_penalty = param "presencePenalty" model;
  stop_sequences = param "stop" model;
})

unfoldable pub build_structured_stream : ModelSpec → List Message → JsonSchema → Stream
build_structured_stream model messages schema = object_stream (record {
  model = model;
  messages = messages;
  schema = schema;
  temperature = param "temperature" model;
  max_output_tokens = param "maxOutputTokens" model;
  top_p = param "topP" model;
  frequency_penalty = param "frequencyPenalty" model;
  presence_penalty = param "presencePenalty" model;
})

-- The first stream of executeStructured.
unfoldable pub primary_structured_stream : ModelSpec → List Message → JsonSchema → Stream
primary_structured_stream model messages schema = object_stream (record {
  model = model;
  messages = messages;
  schema = schema;
  temperature = not_null (param "temperature" model);
  max_output_tokens = not_null (param "maxOutputTokens" model);
  top_p = not_null (param "topP" model);
  frequency_penalty = not_null (param "frequencyPenalty" model);
  presence_penalty = not_null (param "presencePenalty" model);
})
