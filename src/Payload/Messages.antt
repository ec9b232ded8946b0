-- ===== src/Payload/Messages.antt =====
-- From a task's payload to the messages for the model.
use l0_worker.Base.{
  String, true, Option, none, some, List, [], ◌∷◌, ◌≡◌, ◌≢◌, ◌⊎◌, inl, inr, refl, arith, eq_iff,
  Option-cases,
}
use l0_worker.Json.{Json, str, arr, obj, nil, end, field, property}
use l0_worker.Thrown.{ok}
use l0_worker.Payload.{
  TaskPayload, Message, user, parse_task_payload, build_messages, has_prompt, has_messages, refine,
  parse_prompt, parse_message_list,
}

refined :
    (o : Option (Option String)) (ms : Option (Option (List Message))) (p : TaskPayload)
    → refine o ms ≡ some p
    → (has_prompt p.prompt ≡ true) ⊎ (has_messages p.messages ≡ true)
unfolding refine
refined o ms p h = ground arith

parsed_has_content :
    (j : Json) (p : TaskPayload)
    → parse_task_payload j ≡ some p
    → (has_prompt p.prompt ≡ true) ⊎ (has_messages p.messages ≡ true)
unfolding parse_task_payload
parsed_has_content (obj fs) p h =
    refined (parse_prompt (property "prompt" fs)) (parse_message_list (property "messages" fs)) p h
parsed_has_content _ p h = cc

only_prompt :
    (o : Option String) (ms : Option (List Message))
    → ms ≡ none
    → (has_prompt o ≡ true) ⊎ (has_messages ms ≡ true)
    → (s : String) × (o ≡ some s) × (s ≢ "")
only_prompt none ms e h = ground arith
only_prompt (some s) ms e h = (s, refl, ground (arith, eq_iff s ""))

-- Building the messages of a payload that was parsed never fails: they are the payload's own messages
-- if it has any list of them, and otherwise its prompt, which is not empty, as the one message of a
-- user.
pub parsed_messages :
    (j : Json) (p : TaskPayload)
    → parse_task_payload j ≡ some p
    → ((ms : List Message) × (p.messages ≡ some ms) × (build_messages p ≡ ok ms))
      ⊎ ((s : String) × (p.messages ≡ none)
          × (p.prompt ≡ some s)
          × (s ≢ "")
          × (build_messages p ≡ ok (record { role = user; content = s } ∷ [])))
unfolding build_messages
parsed_messages j p h = elim (Option-cases p.messages) [
  | inr (ms, e) ↦ inl (ms, e, rw e refl)
  | inl e ↦
      let (s, given, ne) = only_prompt p.prompt p.messages e (parsed_has_content j p h) in
      inr (s, e, given, ne, ground (arith, eq_iff s ""))
]

abbrev pub prompt_beside_no_messages : String → Json
prompt_beside_no_messages s = obj (field "prompt" (str s) (field "messages" (arr nil) end))

-- A prompt beside an empty list of messages is accepted as a payload, and then lost: no message at all
-- is built from it, whatever the prompt.
pub prompt_lost :
    (s : String)
    → s ≢ ""
    → (p : TaskPayload) × (parse_task_payload (prompt_beside_no_messages s) ≡ some p)
      × (p.prompt ≡ some s)
      × (build_messages p ≡ ok [])
unfolding parse_task_payload build_messages property
prompt_lost s ne =
    (record { prompt = some s; messages = some [] }, ground (arith, eq_iff s ""), refl, refl)
