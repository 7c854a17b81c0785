-- ===== src/Core/Scripts/Promoting/Once.antt =====
-- Runs of promote.lua.
use litestar_rs.Prelude.{
  ℕ, ◌+◌, ◌*◌, ◌/◌, Text, ap, Bool-cases, true, false, some, none, List, [], ◌∷◌, ◌++◌, ◌≡◌, ◌≢◌,
  inl, inr, refl, sym, ◌∙◌, arith, same, same_refl, member, member-append, if◌then◌else◌,
}
use litestar_rs.Prelude.Int.{ℤ, pos, ◌+ℤ◌, ◌*ℤ◌}
use litestar_rs.Core.Envelope.{Fields}
use litestar_rs.Core.Scheduler.{promoted}
use litestar_rs.Core.Scheduler.Promotion.{IsDistinct, stream-promoted, fields-promoted}
use litestar_rs.Core.Worker.Handler.{floor_div}
use litestar_rs.Core.Scripts.Promoting.{
  Sorted, due_of, promote, taken_up, entries_of, said, jobs_of, instant, NoneTwice, IsDocumented,
}
use litestar_rs.Core.Scripts.Promoting.Rounds.{
  hgetall-promote_each, score-promote_each, added-promote_each,
}

not_member : (id : Text) → member id [] ≢ true
unfolding member
not_member id h = cc

whole_ms :
    (seconds microseconds : ℕ)
    → pos seconds *ℤ pos 1000 +ℤ floor_div (pos microseconds) 1000
      ≡ pos (seconds * 1000 + microseconds / 1000)
unfolding ◌+ℤ◌ ◌*ℤ◌ floor_div
whole_ms seconds microseconds = ground arith

module _ {R : Type 0} (redis : Sorted R) (key prefix : Text)
    (apart : (id : Text) → same (prefix ++ id) key ≡ false)
    (laws : IsDocumented redis key prefix) where
  promoted-said : (flat : Fields) → IsDistinct flat → promoted flat ≡ said flat
  promoted-said flat distinct = ground (arith, stream-promoted flat distinct, fields-promoted flat)

  entries_of-jobs_of :
      (due : List Text) (r : R)
      → ((id : Text) → IsDistinct (redis.hgetall (prefix ++ id) r))
      → entries_of redis prefix due r ≡ jobs_of redis prefix due r
  entries_of-jobs_of [] r distinct = refl
  entries_of-jobs_of (id ∷ due) r distinct =
      rw
        (
          promoted-said (redis.hgetall (prefix ++ id) r) (distinct id),
          entries_of-jobs_of due r distinct,
        )
        refl

  instant-ms :
      (r : R) (seconds microseconds : ℕ)
      → redis.clock r ≡ (pos seconds, pos microseconds)
      → instant redis r ≡ pos (seconds * 1000 + microseconds / 1000)
  instant-ms r seconds microseconds now = rw now (whole_ms seconds microseconds)

  pub added-promote :
      (limit : ℤ) (r : R)
      → redis.added (promote redis key limit prefix r).1
        ≡ redis.added r ++ entries_of redis prefix (due_of redis key limit r) r
  unfolding promote
  added-promote limit r =
      added-promote_each redis key prefix apart laws (due_of redis key limit r) [] r
        (laws.range_distinct (instant redis r) limit r)

  -- One run of the script finds the jobs that are due at Redis's own time, in whole milliseconds: the
  -- first `limit` that ZRANGEBYSCORE lists. For each, in that order, it adds an entry to the stream
  -- that the job's hash names and with the hash's other fields, and leaves out a job whose hash is
  -- gone, names no stream or has no other field. The jobs that were found are then in the sorted set
  -- no more and have no hash, and every other job has the score and the hash that it had. No hash
  -- has a field twice.
  pub promote-entries_of :
      (limit : ℤ) (r : R) (seconds microseconds : ℕ) (due : List Text)
      → redis.clock r ≡ (pos seconds, pos microseconds)
      → ((id : Text) → IsDistinct (redis.hgetall (prefix ++ id) r))
      → due ≡ redis.zrangebyscore key (pos (seconds * 1000 + microseconds / 1000)) limit r
      → (redis.added (promote redis key limit prefix r).1
          ≡ redis.added r ++ jobs_of redis prefix due r)
        × ((id : Text)
            → (redis.score key id (promote redis key limit prefix r).1
                ≡ (if member id due then none else redis.score key id r))
              × (redis.hgetall (prefix ++ id) (promote redis key limit prefix r).1
                  ≡ (if member id due then [] else redis.hgetall (prefix ++ id) r)))
  unfolding promote
  promote-entries_of limit r seconds microseconds due now distinct found =
      let same_due : due ≡ due_of redis key limit r =
        found
        ∙ ap (λ ms. redis.zrangebyscore key ms limit r)
            (sym (instant-ms r seconds microseconds now)) in
      rw same_due (
        added-promote limit r
            ∙ ap (λ entries. redis.added r ++ entries)
                (entries_of-jobs_of (due_of redis key limit r) r distinct),
        λ id. (
          score-promote_each redis key prefix apart laws id (due_of redis key limit r) [] r,
          hgetall-promote_each redis key prefix apart laws id (due_of redis key limit r) [] r,
        ),
      )

  -- A job that a pass does not take up keeps its score, and one that it takes up has none.
  score-pass :
      (limit : ℤ) (ms : ℕ) (r : R) (id : Text)
      → redis.score key id (redis.wait ms (promote redis key limit prefix r).1)
        ≡ (if member id (due_of redis key limit r) then none else redis.score key id r)
  unfolding promote
  score-pass limit ms r id =
      laws.score-wait ms id (promote redis key limit prefix r).1
      ∙ score-promote_each redis key prefix apart laws id (due_of redis key limit r) [] r

  -- What a later pass takes up had a score before.
  taken_up_scored :
      (passes : List (ℤ × ℕ)) (r : R) (id : Text)
      → member id (taken_up redis key prefix passes r) ≡ true
      → (score : ℤ) × (redis.score key id r ≡ some score)
  unfolding taken_up
  taken_up_scored [] r id m = absurd (not_member id m)
  taken_up_scored ((limit, ms) ∷ passes) r id m =
      let due = due_of redis key limit r in
      let r' = redis.wait ms (promote redis key limit prefix r).1 in
      elim (Bool-cases (member id due)) [
        | inl now ↦ laws.range_scored (instant redis r) limit r id now
        | inr not_now ↦
            let later : member id (taken_up redis key prefix passes r') ≡ true =
              ground (arith, member-append id due (taken_up redis key prefix passes r')) in
            let (score, scored) = taken_up_scored passes r' id later in
            (score, sym (score-pass limit ms r id ∙ rw not_now refl) ∙ scored)
      ]

  NoneTwice-append :
      (ids later : List Text)
      → NoneTwice ids
      → NoneTwice later
      → ((id : Text) → member id ids ≡ true → member id later ≡ false)
      → NoneTwice (ids ++ later)
  unfolding member
  NoneTwice-append [] later first second apart_ids = second
  NoneTwice-append (id ∷ ids) later (fresh, first) second apart_ids = (
    member-append id ids later ∙ rw fresh (apart_ids id (rw (same_refl id) refl)),
    NoneTwice-append ids later first second (λ other m. apart_ids other (ground (arith, m))),
  )

  -- However many leaders run the script, at whatever times and with whatever limits, no job is
  -- taken up twice.
  pub taken_up-NoneTwice :
      (passes : List (ℤ × ℕ)) (r : R) → NoneTwice (taken_up redis key prefix passes r)
  unfolding taken_up
  taken_up-NoneTwice [] r = tt
  taken_up-NoneTwice ((limit, ms) ∷ passes) r =
      let due = due_of redis key limit r in
      let r' = redis.wait ms (promote redis key limit prefix r).1 in
      NoneTwice-append due (taken_up redis key prefix passes r')
        (laws.range_distinct (instant redis r) limit r) (taken_up-NoneTwice passes r')
        (λ id now. elim (Bool-cases (member id (taken_up redis key prefix passes r'))) [
          | inr never ↦ never
          | inl again ↦
              let (score, scored) = taken_up_scored passes r' id again in
              let gone : redis.score key id r' ≡ none = score-pass limit ms r id ∙ rw now refl in cc
        ])
