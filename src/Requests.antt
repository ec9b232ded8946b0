-- ===== src/Requests.antt =====
-- src/events/inbound.ts: the schemas of the requests to replay a task and to change the configuration, on
-- the bodies of requests. An object has one value for a key.
pub mod Inference
pub mod Submit
mod Examples
use l0_worker.Base.{String, Bool, true, false, Option, none, some, [], ◌∷◌, ◌==◌}
use l0_worker.Base.Int.{ℤ}
use l0_worker.Map.{Map}
use l0_worker.Json.{Json, bool, num, str, obj, Fields, end, field, property}
use l0_worker.Auth.{parse_envelope}
use l0_worker.Event.Inbound.{AuthEnvelope, TaskReplayRequest, WorkerConfigUpdate}

abbrev bind {ℓ κ} : {A : Type ℓ} {B : Type κ} → Option A → (A → Option B) → Option B
bind none f = none
bind (some a) f = f a

-- z.string()
unfoldable pub text_of : Option Json → Option String
text_of (some (str s)) = some s
text_of _ = none

-- z.number()
unfoldable pub number_of : Option Json → Option ℤ
number_of (some (num n)) = some n
number_of _ = none

-- A schema with `.optional()`: an absent property passes, as no value.
abbrev pub maybe {ℓ} : {A : Type ℓ} → (Option Json → Option A) → Option Json → Option (Option A)
maybe read none = some none
maybe read (some j) = bind (read (some j)) (λ a. some (some a))

abbrev cons_entry {ℓ} : {A : Type ℓ} → String → Option A → Option (Map A) → Option (Map A)
cons_entry k (some a) (some m) = some ((k, a) ∷ m)
cons_entry k _ _ = none

-- z.record(z.string(), z.number())
unfoldable pub numbers_of_fields : Fields → Option (Map ℤ)
unfolding number_of
numbers_of_fields end = some []
numbers_of_fields (field k j fs) = cons_entry k (number_of (some j)) (numbers_of_fields fs)

unfoldable pub numbers_of : Option Json → Option (Map ℤ)
unfolding numbers_of_fields
numbers_of (some (obj fs)) = numbers_of_fields fs
numbers_of _ = none

-- z.boolean()
unfoldable pub flag_of : Json → Option Bool
flag_of (bool b) = some b
flag_of _ = none

-- z.record(z.string(), z.boolean())
unfoldable pub flags_of_fields : Fields → Option (Map Bool)
unfolding flag_of
flags_of_fields end = some []
flags_of_fields (field k j fs) = cons_entry k (flag_of j) (flags_of_fields fs)

unfoldable pub flags_of : Option Json → Option (Map Bool)
unfolding flags_of_fields
flags_of (some (obj fs)) = flags_of_fields fs
flags_of _ = none

unfoldable pub envelope_of : Option Json → Option AuthEnvelope
unfolding parse_envelope
envelope_of (some j) = parse_envelope j
envelope_of none = none

abbrev pub is_literal : String → Option String → Bool
is_literal s none = false
is_literal s (some t) = t == s

abbrev pub provided {ℓ} : {A : Type ℓ} → Bool → A → Option A
provided true a = some a
provided false a = none

abbrev pub properties : Json → Option Fields
properties (obj fs) = some fs
properties _ = none

infixl 5 ◌>>=◌
abbrev pub ◌>>=◌ {ℓ κ} : {A : Type ℓ} {B : Type κ} → Option A → (A → Option B) → Option B
m >>= f = bind m f

-- WorkerConfigUpdateSchema.safeParse(body)
unfoldable pub parse_config_update : Json → Option WorkerConfigUpdate
unfolding envelope_of text_of number_of numbers_of flags_of
parse_config_update j = do
  fs ← properties j
  auth ← maybe envelope_of (property "auth" fs)
  worker_id ← text_of (property "worker_id" fs)
  max_concurrency ← maybe number_of (property "max_concurrency" fs)
  resource_caps ← maybe numbers_of (property "resource_caps" fs)
  feature_flags ← maybe flags_of (property "feature_flags" fs)
  effective_ts ← number_of (property "effective_ts" fs)
  provided (is_literal "WORKER_CONFIG_UPDATE" (text_of (property "type" fs))) (record {
    auth = auth;
    worker_id = worker_id;
    max_concurrency = max_concurrency;
    resource_caps = resource_caps;
    feature_flags = feature_flags;
    effective_ts = effective_ts;
  })

-- TaskReplayRequestSchema.safeParse(body)
unfoldable pub parse_replay_request : Json → Option TaskReplayRequest
unfolding envelope_of text_of number_of
parse_replay_request j = do
  fs ← properties j
  auth ← envelope_of (property "auth" fs)
  task_id ← text_of (property "task_id" fs)
  input_hash ← text_of (property "input_hash" fs)
  expected_output_hash ← maybe text_of (property "expected_output_hash" fs)
  reason ← text_of (property "reason" fs)
  replay_ts ← number_of (property "replay_ts" fs)
  provided (is_literal "TASK_REPLAY_REQUEST" (text_of (property "type" fs))) (record {
    auth = auth;
    task_id = task_id;
    input_hash = input_hash;
    expected_output_hash = expected_output_hash;
    reason = reason;
    replay_ts = replay_ts;
  })
