-- ===== src/Core/Scheduler/Promotion.antt =====
-- What a job that was scheduled becomes when it is due.
use litestar_rs.Prelude.{Text, some, none, [], ◌∷◌, ◌≡◌, refl, arith, same, same_iff, if◌then◌else◌}
use litestar_rs.Prelude.Dict.{lookup, dict_laws}
use litestar_rs.Python.{Python}
use litestar_rs.Core.Envelope.{Envelope, Fields, to_fields, from_fields}
use litestar_rs.Core.Scheduler.{stream_field, scheduled_fields, promoted}

-- No field is listed twice.
abbrev pub IsDistinct : Fields → Type 0
IsDistinct [] = Unit
IsDistinct ((name, value) ∷ flat) = (lookup name flat ≡ none) × IsDistinct flat

pub lookup-promoted :
    (name : Text) (flat : Fields)
    → lookup name (promoted flat).1 ≡ (if same name stream_field then none else lookup name flat)
unfolding promoted lookup
lookup-promoted name [] = ground arith
lookup-promoted name ((other, value) ∷ flat) = ground (
  arith,
  same_iff other stream_field,
  same_iff name stream_field,
  same_iff other name,
  lookup-promoted name flat,
)

pub stream-promoted :
    (flat : Fields) → IsDistinct flat → (promoted flat).0 ≡ lookup stream_field flat
unfolding promoted lookup
stream-promoted [] distinct = refl
stream-promoted ((other, value) ∷ flat) (fresh, distinct) =
    ground (arith, same_iff other stream_field, stream-promoted flat distinct)

-- The fields of other names.
abbrev pub others : Text → Fields → Fields
others name [] = []
others name ((other, value) ∷ flat) =
    let rest = others name flat in if same other name then rest else (other, value) ∷ rest

pub fields-promoted : (flat : Fields) → (promoted flat).1 ≡ others stream_field flat
unfolding promoted
fields-promoted [] = refl
fields-promoted ((other, value) ∷ flat) = ground (arith, fields-promoted flat)

module _ (py : Python) (envelope : Envelope) (stream : Text) (flat : Fields) where
  -- In whatever order Redis lists the fields that were stored for a job: once due, the job is added
  -- to the stream that was chosen when it was scheduled, and the new entry decodes as the entry of
  -- an immediate enqueue does.
  pub promoted-scheduled_fields :
      IsDistinct flat
      → ((name : Text) → lookup name flat ≡ lookup name (scheduled_fields py envelope stream))
      → ((promoted flat).0 ≡ some (py.encode stream))
        × (from_fields py (promoted flat).1 ≡ from_fields py (to_fields py envelope))
  unfolding from_fields scheduled_fields same
  promoted-scheduled_fields distinct stored = (
    simp (dict_laws, stored, stream-promoted flat distinct),
    simp (dict_laws, lookup-promoted, stored),
  )
