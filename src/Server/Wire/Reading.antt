-- ===== src/Server/Wire/Reading.antt =====
-- What a reader gets from a stream of src/server.ts.
use l0_worker.Base.{
  ℕ, String, true, false, none, List, [], ◌∷◌, ◌++◌, map, arith, ◌≡◌, ◌≢◌, refl, sym, ◌∙◌, ap, ap₂,
  All, All-append, append_assoc, append-nil,
}
use l0_worker.Json.{Json, null, bool, num, str, arr, obj, Items, nil, cons, Fields, end, field}
use l0_worker.Json.Stringify.{escape, escaped, quote, stringify, more_items, more_fields}
use l0_worker.Json.Stringify.Unambiguous.{first, stringify-injective}
use l0_worker.Json.Stringify.Kinds.{lead, lead-stringify, kind-le}
use l0_worker.Decimal.{print}
use l0_worker.Decimal.Laws.{print-All, IsNumeral}
use l0_worker.Text.{codes}
use l0_worker.Executor.Runtime.{L0Event}
use l0_worker.Event.Outbound.{OutboundEvent}
use l0_worker.Event.Outbound.Readback.{event_json-injective}
use l0_worker.Server.{Chunk, data_event}
use l0_worker.Server.Wire.{Frame, value, finished, payload, frame, wire, frame_of, stream_text}
use l0_worker.Server.Wire.Lines.{add_line, read, read_stream, NoBreak, read_line}

join : (xs ys : List ℕ) → NoBreak xs → NoBreak ys → NoBreak (xs ++ ys)
join xs ys p q = All-append (λ c. (c ≢ 10) × (c ≢ 13)) xs ys p q

escape-NoBreak : (c : ℕ) → NoBreak (escape c)
escape-NoBreak c = ground arith

escaped-NoBreak : (cs : List ℕ) → NoBreak (escaped cs)
unfolding escaped
escaped-NoBreak [] = omega arith
escaped-NoBreak (c ∷ cs) = join (escape c) (escaped cs) (escape-NoBreak c) (escaped-NoBreak cs)

quote-NoBreak : (s : String) → NoBreak (quote s)
unfolding quote
quote-NoBreak s = (omega arith, escaped-NoBreak (codes s))

numeral-NoBreak : (cs : List ℕ) → All IsNumeral cs → NoBreak cs
numeral-NoBreak [] h = tt
numeral-NoBreak (c ∷ cs) h = (omega arith, numeral-NoBreak cs h.1)

item-NoBreak :
    (x : Json) (xs : Items)
    → NoBreak (stringify x)
    → NoBreak (more_items xs)
    → NoBreak (stringify x ++ more_items xs)
item-NoBreak x xs p q = join (stringify x) (more_items xs) p q

field-NoBreak :
    (k : String) (v : Json) (fs : Fields)
    → NoBreak (stringify v)
    → NoBreak (more_fields fs)
    → NoBreak (quote k ++ b':' ∷ stringify v ++ more_fields fs)
field-NoBreak k v fs p q =
    join (quote k ++ b':' ∷ stringify v) (more_fields fs)
      (join (quote k) (b':' ∷ stringify v) (quote-NoBreak k) (omega arith, p)) q

mutual
  unfolding stringify

  stringify-NoBreak : (v : Json) → NoBreak (stringify v)
  stringify-NoBreak null = omega arith
  stringify-NoBreak (bool true) = omega arith
  stringify-NoBreak (bool false) = omega arith
  stringify-NoBreak (num n) = numeral-NoBreak (print n) (print-All n)
  stringify-NoBreak (str s) = quote-NoBreak s
  stringify-NoBreak (arr nil) = omega arith
  stringify-NoBreak (arr (cons x xs)) =
      (omega arith, item-NoBreak x xs (stringify-NoBreak x) (more_items-NoBreak xs))
  stringify-NoBreak (obj end) = omega arith
  stringify-NoBreak (obj (field k v fs)) =
      (omega arith, field-NoBreak k v fs (stringify-NoBreak v) (more_fields-NoBreak fs))

  more_items-NoBreak : (xs : Items) → NoBreak (more_items xs)
  more_items-NoBreak nil = omega arith
  more_items-NoBreak (cons x xs) =
      (omega arith, item-NoBreak x xs (stringify-NoBreak x) (more_items-NoBreak xs))

  more_fields-NoBreak : (fs : Fields) → NoBreak (more_fields fs)
  more_fields-NoBreak end = omega arith
  more_fields-NoBreak (field k v fs) =
      (omega arith, field-NoBreak k v fs (stringify-NoBreak v) (more_fields-NoBreak fs))

payload-NoBreak : (f : Frame) → NoBreak (payload f)
unfolding payload
payload-NoBreak (value v) = stringify-NoBreak v
payload-NoBreak finished = omega arith

read-frame :
    (f : Frame) (rest : List ℕ) → read none [] (frame f ++ rest) ≡ payload f ∷ read none [] rest
unfolding frame read add_line
read-frame f rest =
    ap (read none (codes "data: ")) (append_assoc (payload f) (10 ∷ 10 ∷ []) rest)
    ∙ read_line none b'd' (b'a' ∷ b't' ∷ b'a' ∷ b':' ∷ b' ' ∷ []) (payload f) (10 ∷ rest)
        (payload-NoBreak f)

read-wire : (fs : List Frame) → read_stream (wire fs) ≡ map payload fs
unfolding read_stream wire
read-wire [] = refl
read-wire (f ∷ fs) =
    read-frame f (wire fs) ∙ ap (λ (ps : List (List ℕ)). payload f ∷ ps) (read-wire fs)

list_tail : {x y : ℕ} {xs ys : List ℕ} → x ∷ xs ≡ y ∷ ys → xs ≡ ys
list_tail e = ground arith

-- No value is written like the mark at the end of a task.
not_finished : (v : Json) → stringify v ≡ codes "[DONE]" → ⊥
unfolding stringify quote
not_finished null e = omega (arith, ap lead e)
not_finished (bool true) e = omega (arith, ap lead e)
not_finished (bool false) e = omega (arith, ap lead e)
not_finished (num n) e =
    omega (arith, ap lead (append-nil (print n) ∙ e), lead-stringify (num n) [])
not_finished (str s) e = omega (arith, ap lead e)
not_finished (arr nil) e = omega (arith, ap first (list_tail e))
not_finished (arr (cons x xs)) e =
    omega (arith, ap lead (list_tail e), lead-stringify x (more_items xs), kind-le x)
not_finished (obj end) e = omega (arith, ap lead e)
not_finished (obj (field k v fs)) e = omega (arith, ap lead e)

payload-injective : (f g : Frame) → payload f ≡ payload g → f ≡ g
unfolding payload
payload-injective (value v) (value w) e = ap value (stringify-injective v w e)
payload-injective (value v) finished e = absurd (not_finished v e)
payload-injective finished (value w) e = absurd (not_finished w (sym e))
payload-injective finished finished e = refl

payloads-injective : (fs gs : List Frame) → map payload fs ≡ map payload gs → fs ≡ gs
payloads-injective [] [] e = refl
payloads-injective [] (g ∷ gs) e = cc
payloads-injective (f ∷ fs) [] e = cc
payloads-injective (f ∷ fs) (g ∷ gs) e =
    ap₂ ◌∷◌ (payload-injective f g (cc)) (payloads-injective fs gs (cc))

-- The same text is written for the same values and marks only.
wire-injective : (fs gs : List Frame) → wire fs ≡ wire gs → fs ≡ gs
wire-injective fs gs e =
    payloads-injective fs gs (sym (read-wire fs) ∙ ap read_stream e ∙ read-wire gs)

module _ (l0_value : L0Event → Json) where
  frame_of-injective :
      (e d : OutboundEvent)
      → frame_of l0_value (data_event e) ≡ frame_of l0_value (data_event d)
      → e ≡ d
  unfolding frame_of
  frame_of-injective e d h = event_json-injective e d (cc)

  frames-injective :
      (es ds : List OutboundEvent)
      → map (frame_of l0_value) (map data_event es) ≡ map (frame_of l0_value) (map data_event ds)
      → es ≡ ds
  frames-injective [] [] h = refl
  frames-injective [] (d ∷ ds) h = cc
  frames-injective (e ∷ es) [] h = cc
  frames-injective (e ∷ es) (d ∷ ds) h =
      ap₂ ◌∷◌ (frame_of-injective e d (cc)) (frames-injective es ds (cc))

  -- A reader of server-sent events gets from the text of a stream exactly the data of its chunks, one event for
  -- each, in order. Two streams of the worker's events have the same text only if they are the same events.
  pub stream_readable :
      (chunks : List Chunk)
      → (read_stream (stream_text l0_value chunks) ≡ map payload (map (frame_of l0_value) chunks))
        × ((es ds : List OutboundEvent)
            → stream_text l0_value (map data_event es) ≡ stream_text l0_value (map data_event ds)
            → es ≡ ds)
  unfolding stream_text
  stream_readable chunks = (
    read-wire (map (frame_of l0_value) chunks),
    λ es ds e. frames-injective es ds (wire-injective _ _ e),
  )
