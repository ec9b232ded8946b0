-- ===== src/Server/Wire.antt =====
-- The streams of src/server.ts (and of api/submit.ts and api/replay.ts) as text: server-sent events. A value that
-- is written is JSON; a text is its code points.
pub mod Lines
pub mod Reading
mod Examples
use l0_worker.Base.{
  ℕ, Bool, true, false, ◌||◌, Option, none, some, List, [], ◌∷◌, ◌++◌, map, eqb, if◌then◌else◌,
}
use l0_worker.Base.Int.{pos}
use l0_worker.Json.{Json, null, bool, num, str, obj, end, field}
use l0_worker.Json.Stringify.{stringify}
use l0_worker.Text.{codes}
use l0_worker.Executor.Runtime.{L0Event}
use l0_worker.Event.Outbound.Printing.{event_json}
use l0_worker.Server.{Chunk, data_event, data_l0, replay_complete, done, error_event}

-- `value v` is an event or an error, and `finished` the mark at the end of a task.
pub data Frame : Type 0 where
  value : Json → Frame
  finished : Frame

-- What is sent as the data of an event.
unfoldable pub payload : Frame → List ℕ
unfolding stringify
payload (value v) = stringify v
payload finished = codes "[DONE]"

-- `data: ${…}\n\n`
unfoldable pub frame : Frame → List ℕ
unfolding payload
frame f = codes "data: " ++ (payload f ++ 10 ∷ 10 ∷ [])

-- The text of a stream.
unfoldable pub wire : List Frame → List ℕ
unfolding frame
wire [] = []
wire (f ∷ fs) = frame f ++ wire fs

abbrev matched : Option Bool → Json
matched none = null
matched (some b) = bool b

-- `l0_value` is the object that an event of the L0 runtime is.
module _ (l0_value : L0Event → Json) where
  -- What is written for a chunk.
  unfoldable pub frame_of : Chunk → Frame
  unfolding event_json
  frame_of (data_event e) = value (event_json e)
  frame_of (data_l0 e) = value (l0_value e)
  frame_of (replay_complete n m) = value (
      obj (
        field "type" (str "REPLAY_COMPLETE")
          (field "events_replayed" (num (pos n)) (field "output_hash_match" (matched m) end))))
  frame_of done = finished
  frame_of (error_event j) = value j

  -- The text of a stream of chunks.
  unfoldable pub stream_text : List Chunk → List ℕ
  unfolding wire frame_of
  stream_text chunks = wire (map frame_of chunks)
