-- ===== src/Core/Scripts/Promoting/Scheduled.antt =====
-- A job from its scheduling, by src/smallage/core/scheduler.py, to the run of promote.lua that moves it.
use litestar_rs.Prelude.{
  Text, Bytes, Bool-cases, true, false, none, some, List, [], ◌∷◌, ◌++◌, ◌≡◌, ◌≢◌, inl, inr, refl,
  sym, ap, ◌∙◌, arith, text, same, same→eq, member,
}
use mathlib.Core.Path.{subst}
use mathlib.Core.List.{append_assoc}
use litestar_rs.Prelude.Int.{ℤ}
use litestar_rs.Prelude.Dict.{lookup, lookup-put}
use litestar_rs.Python.{Python}
use litestar_rs.Core.Envelope.{Envelope, Fields, envelope_version, to_fields, from_fields}
use litestar_rs.Core.Envelope.Roundtrip.{lookup-v}
use litestar_rs.Core.Scheduler.{stream_field, scheduled_fields, promoted}
use litestar_rs.Core.Scheduler.Promotion.{IsDistinct, lookup-promoted, promoted-scheduled_fields}
use litestar_rs.Core.Scripts.Promoting.{Sorted, due_of, promote, entry_of, entries_of, IsDocumented}
use litestar_rs.Core.Scripts.Promoting.Once.{added-promote}

module _ (py : Python) (envelope : Envelope) (stream : Text) (flat : Fields) where
  fields_left :
      ((name : Text) → lookup name flat ≡ lookup name (scheduled_fields py envelope stream))
      → (promoted flat).1 ≢ []
  unfolding scheduled_fields lookup same
  fields_left stored nothing =
      let version : lookup (text "v") (promoted flat).1 ≡ some envelope_version =
        lookup-promoted (text "v") flat
        ∙ (stored (text "v")
            ∙ (lookup-put stream_field (text "v") (py.encode stream) (to_fields py envelope)
                ∙ lookup-v py envelope)) in
      let gone : lookup (text "v") (promoted flat).1 ≡ none = rw nothing refl in cc

module _ {R : Type 0} (redis : Sorted R) where
  entry_of-some :
      (stream : Bytes) (fields : Fields)
      → fields ≢ []
      → entry_of redis (some stream, fields) ≡ (stream, fields) ∷ []
  entry_of-some stream [] left = absurd (left refl)
  entry_of-some stream (field ∷ fields) left = refl

  -- The entry of a job that is due is among those of all that are.
  entries_of-member :
      (prefix id : Text) (due : List Text) (r : R)
      → member id due ≡ true
      → (before : List (Bytes × Fields)) × (after : List (Bytes × Fields)) × (entries_of redis
            prefix due r
          ≡ before ++ (entry_of redis (promoted (redis.hgetall (prefix ++ id) r)) ++ after))
  unfolding member
  entries_of-member prefix id [] r m = absurd (ground arith)
  entries_of-member prefix id (first ∷ due) r m = elim (Bool-cases (same first id)) [
    | inl own ↦ ([], entries_of redis prefix due r, rw (same→eq first id own) refl)
    | inr other ↦
        let (before, after, e) = entries_of-member prefix id due r (ground arith) in
        let entry = entry_of redis (promoted (redis.hgetall (prefix ++ first) r)) in
        (
          entry ++ before,
          after,
          ap (λ rest. entry ++ rest) e
              ∙ sym (
                  append_assoc entry before
                    (entry_of redis (promoted (redis.hgetall (prefix ++ id) r)) ++ after)),
        )
  ]

module _ {R : Type 0} (redis : Sorted R) (py : Python) (key prefix : Text)
    (apart : (id : Text) → same (prefix ++ id) key ≡ false)
    (laws : IsDocumented redis key prefix) where
  -- A run of promote.lua that finds a scheduled job due, whose hash still holds what was stored,
  -- adds its entry to the stream that was chosen when it was scheduled; the entry decodes as that of
  -- an immediate enqueue does, in whatever order Redis lists the fields.
  pub promote-scheduled_fields :
      (envelope : Envelope) (stream id : Text) (limit : ℤ) (r : R)
      → member id (due_of redis key limit r) ≡ true
      → IsDistinct (redis.hgetall (prefix ++ id) r)
      → ((name : Text)
          → lookup name (redis.hgetall (prefix ++ id) r)
            ≡ lookup name (scheduled_fields py envelope stream))
      → (before : List (Bytes × Fields)) × (after : List (Bytes × Fields)) × (fields : Fields)
        × (redis.added (promote redis key limit prefix r).1
            ≡ redis.added r ++ (before ++ ((py.encode stream, fields) ∷ after)))
        × (from_fields py fields ≡ from_fields py (to_fields py envelope))
  promote-scheduled_fields envelope stream id limit r due distinct stored =
      let flat = redis.hgetall (prefix ++ id) r in
      let (chosen, decodes) = promoted-scheduled_fields py envelope stream flat distinct stored in
      let left = fields_left py envelope stream flat stored in
      let (before, after, e) = entries_of-member redis prefix id (due_of redis key limit r) r due in
      let entry : entry_of redis (promoted flat) ≡ (py.encode stream, (promoted flat).1) ∷ [] =
        subst
          (λ s. entry_of redis (s, (promoted flat).1) ≡ (py.encode stream, (promoted flat).1) ∷ [])
          (sym chosen) (entry_of-some redis (py.encode stream) (promoted flat).1 left) in
      (
        before,
        after,
        (promoted flat).1,
        added-promote redis key prefix apart laws limit r
            ∙ ap (λ entries. redis.added r ++ entries)
                (e ∙ ap (λ entries. before ++ (entries ++ after)) entry),
        decodes,
      )
