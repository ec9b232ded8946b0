-- ===== src/Executor/Runtime.antt =====
-- What the worker asks of the L0 runtime (the package @ai2070/l0) and of the engine's JSON functions.
use l0_worker.Base.{ℕ, String, Bool, Option, List}
use l0_worker.Base.Int.{ℤ}
use l0_worker.Map.{Map}
use l0_worker.Json.{Json}
use l0_worker.Thrown.{Result}
use l0_worker.Executor.Options.{L0Options}
use l0_worker.Executor.Streams.{Stream}

-- L0Event of src/executor/executor.ts: a type, a time, and fields of its own.
pub record L0Event : Type 0 where
  pub type : String
  pub ts : ℕ
  pub fields : Map Json

-- An event of a token stream.
pub record StreamEvent : Type 0 where
  pub type : String
  pub value : Option String

-- The state of a stream at its end; an absent `resumed` is false.
pub record L0State : Type 0 where
  pub content : Option String
  pub token_count : Option ℕ
  pub input_tokens : Option ℕ
  pub output_tokens : Option ℕ
  pub tool_call_names : Option (Map String)
  pub resumed : Bool

pub record StreamOptions : Type 0 where
  pub stream : Stream
  pub fallback_streams : Option (List Stream)
  pub common : L0Options

-- What the worker sees happen, in order: a call of `onEvent`, or an event of the stream.
pub data Occurrence : Type 0 where
  emitted : L0Event → Occurrence
  streamed : StreamEvent → Occurrence

-- `l0` and the stream that it returns: what happens, and how it ends. `object` is how the promise
-- `.object` of the last stream that was started ends, if one was.
pub record L0Run : Type 0 where
  pub occurrences : List Occurrence
  pub outcome : Result L0State
  pub object : Option (Result Json)

-- `race`: the events, and the winner's state and index.
pub record RaceRun : Type 0 where
  pub events : List L0Event
  pub outcome : Result (L0State × ℕ)

-- `parallel`: the events, and the state of each operation that has one.
pub record ParallelRun : Type 0 where
  pub events : List L0Event
  pub outcome : Result (List (Option L0State))

pub record Runtime : Type 0 where
  pub l0 : StreamOptions → L0Run
  pub race : List StreamOptions → RaceRun
  pub parallel : List StreamOptions → Option ℤ → ParallelRun
  pub json_stringify : Json → String
  pub json_parse : String → Result Json
