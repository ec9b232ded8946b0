-- ===== src/Payload.antt =====
-- src/executor/task.ts and buildMessages of src/executor/executor.ts: a task's payload and the
-- messages that it becomes. A parse that throws a ZodError is `none`.
pub mod Messages
mod Examples
use l0_worker.Base.{
  String, Bool, true, false, ◌||◌, not, Option, none, some, List, [], ◌∷◌, ◌==◌, if◌then◌else◌,
}
use l0_worker.Json.{Json, null, bool, num, str, arr, obj, Items, nil, cons, Fields, property}
use l0_worker.Thrown.{Result, ok, err, new_error}

pub data Role : Type 0 where
  system user assistant : Role

pub record Message : Type 0 where
  pub role : Role
  pub content : String

pub record TaskPayload : Type 0 where
  pub prompt : Option String
  pub messages : Option (List Message)

unfoldable pub parse_role : String → Option Role
parse_role s =
    if s == "system"
    then some system
    else if s == "user"
    then some user
    else if s == "assistant"
    then some assistant
    else none

abbrev with_content : String → Option Role → Option Message
with_content content none = none
with_content content (some r) = some (record { role = r; content = content })

unfoldable pub message_of_properties : Option Json → Option Json → Option Message
unfolding parse_role
message_of_properties (some (str role)) (some (str content)) =
    with_content content (parse_role role)
message_of_properties _ _ = none

unfoldable pub parse_message : Json → Option Message
unfolding message_of_properties
parse_message (obj fs) = message_of_properties (property "role" fs) (property "content" fs)
parse_message _ = none

abbrev join : Option Message → Option (List Message) → Option (List Message)
join (some m) (some ms) = some (m ∷ ms)
join _ _ = none

unfoldable pub parse_messages : Items → Option (List Message)
unfolding parse_message
parse_messages nil = some []
parse_messages (cons j js) = join (parse_message j) (parse_messages js)

-- An optional property of a given shape: `none` is a value of another shape.
unfoldable pub parse_prompt : Option Json → Option (Option String)
parse_prompt none = some none
parse_prompt (some (str s)) = some (some s)
parse_prompt (some _) = none

abbrev given {ℓ} : {A : Type ℓ} → Option A → Option (Option A)
given none = none
given (some a) = some (some a)

unfoldable pub parse_message_list : Option Json → Option (Option (List Message))
unfolding parse_messages
parse_message_list none = some none
parse_message_list (some (arr js)) = given (parse_messages js)
parse_message_list (some _) = none

-- A prompt is truthy if it is given and not empty.
abbrev pub has_prompt : Option String → Bool
has_prompt none = false
has_prompt (some s) = not (s == "")

abbrev pub has_messages : Option (List Message) → Bool
has_messages none = false
has_messages (some []) = false
has_messages (some (m ∷ ms)) = true

-- The refinement of TaskPayloadSchema.
unfoldable pub refine : Option (Option String) → Option (Option (List Message)) → Option TaskPayload
refine (some p) (some ms) =
    if has_prompt p || has_messages ms then some (record { prompt = p; messages = ms }) else none
refine _ _ = none

-- parseTaskPayload(input)
unfoldable pub parse_task_payload : Json → Option TaskPayload
unfolding parse_prompt parse_message_list refine
parse_task_payload (obj fs) =
    refine (parse_prompt (property "prompt" fs)) (parse_message_list (property "messages" fs))
parse_task_payload _ = none

unfoldable pub prompt_message : Option String → Result (List Message)
prompt_message none = err (new_error "Payload must have either prompt or messages")
prompt_message (some s) =
    if s == ""
    then err (new_error "Payload must have either prompt or messages")
    else ok (record { role = user; content = s } ∷ [])

-- buildMessages(payload); an array is truthy, the empty one too
unfoldable pub build_messages : TaskPayload → Result (List Message)
unfolding prompt_message
build_messages p = elim p.messages [ some ms ↦ ok ms | none ↦ prompt_message p.prompt ]
