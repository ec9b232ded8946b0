-- ===== src/Payload/Examples.antt =====
-- Runs of executor/task.ts.
use l0_worker.Base.{String, none, some, List, [], ◌∷◌, ◌≡◌, ◌≢◌, ◌⊎◌, refl}
use l0_worker.Json.{Json, str, obj, field, end, property}
use l0_worker.Thrown.{ok}
use l0_worker.Payload.{
  TaskPayload, Message, user, parse_task_payload, parse_prompt, parse_message_list, refine,
  build_messages,
}
use l0_worker.Payload.Messages.{parsed_messages}

abbrev hello : Json
hello = obj (field "prompt" (str "hello") end)

abbrev hello_payload : TaskPayload
hello_payload = record { prompt = some "hello"; messages = none }

hello_parsed : parse_task_payload hello ≡ some hello_payload
unfolding parse_task_payload parse_prompt parse_message_list refine property
hello_parsed = refl

parsed_messages_example :
    ((ms : List Message) × (none ≡ some ms) × (build_messages hello_payload ≡ ok ms))
    ⊎ ((s : String) × (hello_payload.messages ≡ none)
        × (some "hello" ≡ some s)
        × (s ≢ "")
        × (build_messages hello_payload ≡ ok (record { role = user; content = s } ∷ [])))
parsed_messages_example = parsed_messages hello hello_payload hello_parsed
