-- ===== src/Core/Envelope.antt =====
-- The wire types of src/smallage/core/envelope.py: what a job looks like in Redis.
mod Lines
pub mod Roundtrip
pub use Lines.{NoNewline}
unfoldable pub use Lines.{join_lines, split_lines}
use litestar_rs.Prelude.{
  ℕ, Text, Bytes, text, same, Bool, true, false, Option, some, none, List, [], ◌∷◌, ◌≡◌, refl, map,
  if◌then◌else◌,
}
use litestar_rs.Prelude.Int.{ℤ}
use litestar_rs.Prelude.Dict.{lookup, put, put_some}
use litestar_rs.Python.{
  Python, Exn, malformed_envelope, missing_field, unsupported_version, unicode_decode_error,
  value_error,
}
use litestar_rs.Effect.{Outcome, returned, raised, cancelled}

abbrev pub Fields : Type 0
Fields = List (Bytes × Bytes)

pub record Envelope : Type 0 where
  pub id : Text
  pub task : Text
  pub payload : Bytes
  pub enqueued_at : ℤ
  pub attempt : ℤ
  pub payload_ref : Option Text
  pub traceparent : Option Text
  pub tracestate : Option Text
  pub dedup : Option Text
  pub result_ttl_ms : Option ℤ
  pub history : List Text

-- A stream entry as Redis returns it.
pub record Record : Type 0 where
  pub stream : Text
  pub entry_id : Bytes
  pub fields : Fields

-- One unacknowledged entry, as `XPENDING` describes it.
pub record Pending : Type 0 where
  pub stream : Text
  pub entry_id : Bytes
  pub consumer : Text
  pub times_delivered : ℤ

pub record TaskResult : Type 0 where
  pub success : Bool
  pub value : Bytes
  pub error : Text

abbrev pub envelope_version : Bytes
envelope_version = text "1"

abbrev pub required : List Bytes
required =
    text "v" ∷ text "id" ∷ text "task" ∷ text "payload" ∷ text "enqueued_at" ∷ text "attempt" ∷ []

-- Exceptions in pure code; `do` blocks over `Outcome`.
infixl 5 ◌>>=◌ ◌>>◌
abbrev pub ◌>>=◌ : {A B : Type 0} → Outcome A → (A → Outcome B) → Outcome B
returned a >>= f = f a
raised e >>= f = raised e
cancelled >>= f = cancelled

abbrev pub ◌>>◌ : {B : Type 0} → Outcome (Unit {0}) → Outcome B → Outcome B
m >> k = m >>= λ _. k

pub bind-returned :
    {A B : Type 0} (o : Outcome A) (f : A → Outcome B) (b : B)
    → (o >>= f) ≡ returned b
    → (a : A) × (o ≡ returned a) × (f a ≡ returned b)
bind-returned (returned a) f b e = (a, refl, e)
bind-returned (raised x) f b e = cc
bind-returned cancelled f b e = cc

abbrev pub or_raise : {A : Type 0} → Exn → Option A → Outcome A
or_raise e none = raised e
or_raise e (some a) = returned a

-- `fields[name]`, where a missing name is MalformedEnvelope
unfoldable pub require : Bytes → Fields → Outcome Bytes
require name fields = or_raise (malformed_envelope (missing_field name)) (lookup name fields)

-- The first loop of `from_fields`.
unfoldable pub check_required : List Bytes → Fields → Outcome (Unit {0})
unfolding require
check_required [] fields = returned tt
check_required (name ∷ names) fields = do _ ← require name fields; check_required names fields

unfoldable pub check_version : Bytes → Outcome (Unit {0})
check_version v =
    if same v envelope_version
    then returned tt
    else raised (malformed_envelope (unsupported_version v))

-- An absent field stays at its default.
abbrev optional : {A : Type 0} → (Bytes → Outcome A) → Option Bytes → Outcome (Option A)
optional f none = returned none
optional f (some b) = do a ← f b; returned (some a)

module _ (py : Python) where
  open py use {encode, decode, str_int, int_bytes}

  abbrev encode_some : Option Text → Option Bytes
  encode_some none = none
  encode_some (some s) = some (encode s)

  abbrev str_some : Option ℤ → Option Bytes
  str_some none = none
  str_some (some n) = some (encode (str_int n))

  abbrev history_field : List Text → Option Bytes
  history_field [] = none
  history_field (line ∷ lines) = some (encode (join_lines (line ∷ lines)))

  unfoldable pub to_fields : Envelope → Fields
  to_fields envelope =
      let fields : Fields =
        (text "v", envelope_version)
        ∷ (text "id", encode envelope.id)
        ∷ (text "task", encode envelope.task)
        ∷ (text "payload", envelope.payload)
        ∷ (text "enqueued_at", encode (str_int envelope.enqueued_at))
        ∷ (text "attempt", encode (str_int envelope.attempt))
        ∷ [] in
      put_some (text "history") (history_field envelope.history) (
        put_some (text "dedup") (encode_some envelope.dedup) (
          put_some (text "tracestate") (encode_some envelope.tracestate) (
            put_some (text "traceparent") (encode_some envelope.traceparent) (
              put_some (text "payload_ref") (encode_some envelope.payload_ref)
                (put_some (text "result_ttl_ms") (str_some envelope.result_ttl_ms) fields)))))

  -- `b.decode()`
  abbrev decoded : Bytes → Outcome Text
  decoded b = or_raise unicode_decode_error (decode b)

  -- `int(b)`
  abbrev number : Bytes → Outcome ℤ
  number b = or_raise value_error (int_bytes b)

  abbrev lines_of : Option Bytes → Outcome (List Text)
  lines_of none = returned []
  lines_of (some []) = returned []
  lines_of (some (b ∷ bs)) = do s ← decoded (b ∷ bs); returned (split_lines s)

  -- The order of evaluation is the source's: it decides which exception an entry raises.
  unfoldable pub from_fields : Fields → Outcome Envelope
  unfolding check_required check_version require
  from_fields fields = do
    check_required required fields
    v ← require (text "v") fields
    check_version v
    payload_ref ← optional decoded (lookup (text "payload_ref") fields)
    traceparent ← optional decoded (lookup (text "traceparent") fields)
    tracestate ← optional decoded (lookup (text "tracestate") fields)
    dedup ← optional decoded (lookup (text "dedup") fields)
    result_ttl_ms ← optional number (lookup (text "result_ttl_ms") fields)
    history ← lines_of (lookup (text "history") fields)
    id ← decoded (← require (text "id") fields)
    task ← decoded (← require (text "task") fields)
    payload ← require (text "payload") fields
    enqueued_at ← number (← require (text "enqueued_at") fields)
    attempt ← number (← require (text "attempt") fields)
    returned (record {
      id = id;
      task = task;
      payload = payload;
      enqueued_at = enqueued_at;
      attempt = attempt;
      payload_ref = payload_ref;
      traceparent = traceparent;
      tracestate = tracestate;
      dedup = dedup;
      result_ttl_ms = result_ttl_ms;
      history = history;
    })
