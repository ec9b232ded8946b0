-- ===== src/Server/Wire/Examples.antt =====
-- Streams of src/server.ts, as text.
use l0_worker.Base.{some, true, List, [], ◌∷◌, map, ◌≡◌, refl}
use l0_worker.Json.{Json, str, obj, end, field}
use l0_worker.Text.{codes}
use l0_worker.Event.Outbound.{OutboundEvent, task_accepted}
use l0_worker.Executor.Runtime.{L0Event}
use l0_worker.Server.{Chunk, data_event, data_l0, replay_complete, done}
use l0_worker.Server.Wire.{payload, frame_of, stream_text}
use l0_worker.Server.Wire.Lines.{read_stream, add_line}
use l0_worker.Server.Wire.Reading.{stream_readable}

abbrev type_only : L0Event → Json
type_only e = obj (field "type" (str e.type) end)

-- The task's name has a line feed.
abbrev accepted : OutboundEvent
accepted = task_accepted (record { task_id = "a\nb"; worker_id = "w1"; ts = 7 })

abbrev chunks : List Chunk
chunks =
    data_event accepted
    ∷ data_l0 (record { type = "TOKEN"; ts = 8; fields = [] })
    ∷ replay_complete 1 (some true)
    ∷ done
    ∷ []

chunks_read :
    read_stream (stream_text type_only chunks)
    ≡ codes "{\"type\":\"TASK_ACCEPTED\",\"taskId\":\"a\\nb\",\"workerId\":\"w1\",\"ts\":7}"
      ∷ codes "{\"type\":\"TOKEN\"}"
      ∷ codes "{\"type\":\"REPLAY_COMPLETE\",\"events_replayed\":1,\"output_hash_match\":true}"
      ∷ codes "[DONE]"
      ∷ []
unfolding read_stream stream_text payload add_line
chunks_read = refl

stream_readable_example :
    (read_stream (stream_text type_only chunks) ≡ map payload (map (frame_of type_only) chunks))
    × ((es ds : List OutboundEvent)
        → stream_text type_only (map data_event es) ≡ stream_text type_only (map data_event ds)
        → es ≡ ds)
stream_readable_example = stream_readable type_only chunks
