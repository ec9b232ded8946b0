-- ===== src/Requests/Submit/RoundTrip.antt =====
-- A submission of src/events/inbound.ts, as JSON and read back.
use l0_worker.Base.{
  true, Option, none, some, arith, ◌≡◌, ◌↔◌, refl, inl, inr, Bool-cases, Option-cases,
}
use mathlib.Core.Path.{subst}
use l0_worker.Base.Int.{ℤ}
use l0_worker.Json.{Json, bool, num, str, obj, end, field, property}
use l0_worker.Auth.{envelope_json, envelope_admits, parse_envelope, read_envelope}
use l0_worker.Event.Inbound.{AuthEnvelope, TaskConstraints, TaskSubmit}
use l0_worker.Order.{order_admits}
use l0_worker.Requests.{number_of, envelope_of, properties}
use l0_worker.Requests.Inference.{map_of, boolean_of, order_of}
use l0_worker.Requests.Inference.Printing.{given, print_optional, print_map, order_json}
use l0_worker.Requests.Inference.RoundTrip.{
  lookups, always_lem, map_of_lem, boolean_of_lem, order_of_lem,
}
use l0_worker.Requests.Inference.Admission.{order_of_sound}
use l0_worker.Requests.Submit.{constraints_of, parse_task_submit}

abbrev constraints_json : TaskConstraints → Json
constraints_json c = obj (
    given "timeout_ms" (print_optional num c.timeout_ms) (
      given "memory_cap_mb" (print_optional num c.memory_cap_mb)
        (given "determinism_required" (print_optional bool c.determinism_required) end)))

-- The JSON that a submission is.
abbrev pub submit_json : TaskSubmit → Json
submit_json s = obj (
    field "type" (str "TASK_SUBMIT") (
      field "auth" (envelope_json s.auth) (
        field "task_id" (str s.task_id) (
          field "order" (order_json s.order) (
            field "payload" s.payload (
              given "constraints" (print_optional constraints_json s.constraints) (
                given "meta" (print_optional print_map s.meta) (
                  field "input_hash" (str s.input_hash)
                    (field "submission_ts" (num s.submission_ts) end)))))))))

number_of_lem : (n : ℤ) → number_of (some (num n)) ≡ some n
unfolding number_of
number_of_lem n = refl

constraints_of_lem : (c : TaskConstraints) → constraints_of (some (constraints_json c)) ≡ some c
unfolding constraints_of
constraints_of_lem c = simp (
  lookups,
  always_lem num number_of number_of_lem c.timeout_ms,
  always_lem num number_of number_of_lem c.memory_cap_mb,
  always_lem bool boolean_of boolean_of_lem c.determinism_required,
)

envelope_of_lem :
    (e : AuthEnvelope) → envelope_admits e ≡ true → envelope_of (some (envelope_json e)) ≡ some e
unfolding envelope_of parse_envelope read_envelope property
envelope_of_lem e h = rw h refl

envelope_of_sound :
    (j : Option Json) (e : AuthEnvelope) → envelope_of j ≡ some e → envelope_admits e ≡ true
unfolding envelope_of parse_envelope
envelope_of_sound none e h = absurd (ground arith)
envelope_of_sound (some (obj fs)) e h =
    elim (Option-cases
      (read_envelope (property "token" fs) (property "issued_at" fs) (property "ttl" fs))) [
        | inl nothing ↦ absurd (ground arith)
        | inr (x, found) ↦ elim (Bool-cases (envelope_admits x)) [
          | inl admitted ↦
              let same : x ≡ e = ground arith in subst (λ y. envelope_admits y ≡ true) same admitted
          | inr refused ↦ absurd (ground arith)
        ]
      ]
envelope_of_sound (some _) e h = absurd (ground arith)

-- A submission whose envelope and order the schemas admit is read back unchanged from its JSON, with every
-- optional part that it has and none that it has not.
pub parse_task_submit-submit_json :
    (s : TaskSubmit)
    → envelope_admits s.auth ≡ true
    → order_admits s.order ≡ true
    → parse_task_submit (submit_json s) ≡ some s
unfolding parse_task_submit
parse_task_submit-submit_json s envelope order = simp (
  lookups,
  envelope_of_lem s.auth envelope,
  order_of_lem s.order order,
  always_lem constraints_json constraints_of constraints_of_lem s.constraints,
  always_lem print_map map_of map_of_lem s.meta,
)

parsed_parts :
    (j : Json) (s : TaskSubmit)
    → parse_task_submit j ≡ some s
    → (auth : Option Json) × (order : Option Json) × (envelope_of auth ≡ some s.auth)
      × (order_of order ≡ some s.order)
unfolding parse_task_submit
parsed_parts j s h = elim (Option-cases (properties j)) [
  | inl nothing ↦ absurd (ground arith)
  | inr (fs, found) ↦ (property "auth" fs, property "order" fs, ground arith, ground arith)
]

-- The submissions that some JSON is read as are exactly those whose envelope and order the schemas admit: a
-- token of at least 32 units and a positive time to live, at least one model, and positive limits.
pub submission_iff :
    (s : TaskSubmit)
    → ((j : Json) × (parse_task_submit j ≡ some s))
      ↔ ((envelope_admits s.auth ≡ true) × (order_admits s.order ≡ true))
submission_iff s = (
  λ r.
      let (j, h) = r in
      let (auth, order, envelope_read, order_read) = parsed_parts j s h in
      (envelope_of_sound auth s.auth envelope_read, order_of_sound order s.order order_read),
  λ h. (submit_json s, parse_task_submit-submit_json s h.0 h.1),
)
