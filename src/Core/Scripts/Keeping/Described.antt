-- ===== src/Core/Scripts/Keeping/Described.antt =====
-- What the inner loop of sweep_consumers.lua, of src/smallage/core/scripts, reads off a consumer.
use litestar_rs.Prelude.{
  Text, true, Option, Option-cases, some, none, [], ◌∷◌, ◌≡◌, inl, inr, refl, ap, ◌∙◌, arith, text,
  same, same_iff,
}
use litestar_rs.Prelude.Dict.{lookup, first_some}
use litestar_rs.Prelude.Int.{ℤ, pos, eq_of_parts}
use litestar_rs.Core.Envelope.{Fields}
use litestar_rs.Core.Scheduler.Promotion.{IsDistinct}
use litestar_rs.Core.Scripts.{Streams, Described, nothing_described, describe, is_zero}

module _ {R : Type 0} (redis : Streams R) where
  describe-name :
      (fields : Fields) (d : Described)
      → IsDistinct fields
      → (describe redis fields d).name ≡ first_some (lookup (text "name") fields) d.name
  unfolding describe lookup
  describe-name [] d distinct = refl
  describe-name ((field, value) ∷ rest) d (fresh, distinct) = ground (
    arith,
    same_iff field (text "name"),
    describe-name rest (record d { name = some value }) distinct,
    describe-name rest (record d { pending = redis.tonumber value }) distinct,
    describe-name rest (record d { idle = redis.tonumber value }) distinct,
    describe-name rest d distinct,
  )

  abbrev number_of : Option Text → Option ℤ → Option ℤ
  number_of none before = before
  number_of (some value) before = redis.tonumber value

  describe-pending :
      (fields : Fields) (d : Described)
      → IsDistinct fields
      → (describe redis fields d).pending ≡ number_of (lookup (text "pending") fields) d.pending
  unfolding describe lookup same
  describe-pending [] d distinct = refl
  describe-pending ((field, value) ∷ rest) d (fresh, distinct) = ground (
    arith,
    same_iff field (text "pending"),
    same_iff field (text "name"),
    describe-pending rest (record d { name = some value }) distinct,
    describe-pending rest (record d { pending = redis.tonumber value }) distinct,
    describe-pending rest (record d { idle = redis.tonumber value }) distinct,
    describe-pending rest d distinct,
  )

  zero : (n : ℤ) → is_zero redis (some n) ≡ true → n ≡ pos 0
  zero n h = eq_of_parts n (pos 0) (ground arith)

  -- A consumer that has a name and no pending entries is listed so.
  pub describe-listed :
      (fields : Fields) (name : Text)
      → IsDistinct fields
      → is_zero redis (describe redis fields nothing_described).pending ≡ true
      → (describe redis fields nothing_described).name ≡ some name
      → (lookup (text "name") fields ≡ some name)
        × ((pending : Text) × (lookup (text "pending") fields ≡ some pending)
            × (redis.tonumber pending ≡ some (pos 0)))
  describe-listed fields name distinct none_pending named =
      let by_name = describe-name fields nothing_described distinct in
      let by_number = describe-pending fields nothing_described distinct in
      elim (Option-cases (lookup (text "pending") fields)) [
        | inl e ↦ absurd (ground (arith, by_number, none_pending, e))
        | inr (pending, e) ↦ elim (Option-cases (redis.tonumber pending)) [
          | inl f ↦ absurd (ground (arith, by_number, none_pending, e, f))
          | inr (n, f) ↦
              let listed : is_zero redis (some n) ≡ true =
                ground (arith, by_number, none_pending, e, f) in
              (
                ground (arith, by_name, named, Option-cases (lookup (text "name") fields)),
                (pending, e, f ∙ ap some (zero n listed)),
              )
        ]
      ]
