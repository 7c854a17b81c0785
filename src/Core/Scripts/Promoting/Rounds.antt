-- ===== src/Core/Scripts/Promoting/Rounds.antt =====
-- The rounds of the loop of promote.lua.
use litestar_rs.Prelude.{
  Text, Bytes, Bool-cases, false, Option, some, none, List, [], ◌∷◌, ◌++◌, ◌≡◌, inl, inr, refl, sym,
  ap, ◌∙◌, arith, same, same→eq, same_iff, member, if◌then◌else◌,
}
use mathlib.Core.List.{append-nil, append_assoc}
use litestar_rs.Core.Envelope.{Fields}
use litestar_rs.Core.Scheduler.{promoted}
use litestar_rs.Core.Scripts.Promoting.{
  Sorted, add_moved, move_job, promote_each, entry_of, entries_of, NoneTwice, IsDocumented,
}

same_append : (prefix s t : Text) → same (prefix ++ s) (prefix ++ t) ≡ same s t
unfolding same
same_append [] s t = refl
same_append (c ∷ prefix) s t = ground (arith, same_append prefix s t)

module _ {R : Type 0} (redis : Sorted R) (key prefix : Text)
    (apart : (id : Text) → same (prefix ++ id) key ≡ false)
    (laws : IsDocumented redis key prefix) where
  added-add_moved :
      (job : Option Bytes × Fields) (moved : List Bytes) (r : R)
      → redis.added (add_moved redis job moved r).1 ≡ redis.added r ++ entry_of redis job
  added-add_moved (none, fields) moved r = sym (append-nil (redis.added r))
  added-add_moved (some stream, []) moved r = sym (append-nil (redis.added r))
  added-add_moved (some stream, field ∷ fields) moved r =
      laws.added-add_entry stream (field ∷ fields) r

  hgetall-add_moved :
      (k : Text) (job : Option Bytes × Fields) (moved : List Bytes) (r : R)
      → redis.hgetall k (add_moved redis job moved r).1 ≡ redis.hgetall k r
  hgetall-add_moved k (none, fields) moved r = refl
  hgetall-add_moved k (some stream, []) moved r = refl
  hgetall-add_moved k (some stream, field ∷ fields) moved r =
      laws.hgetall-add_entry k stream (field ∷ fields) r

  score-add_moved :
      (id : Text) (job : Option Bytes × Fields) (moved : List Bytes) (r : R)
      → redis.score key id (add_moved redis job moved r).1 ≡ redis.score key id r
  score-add_moved id (none, fields) moved r = refl
  score-add_moved id (some stream, []) moved r = refl
  score-add_moved id (some stream, field ∷ fields) moved r =
      laws.score-add_entry id stream (field ∷ fields) r

  -- One round of the loop.
  abbrev Round : Text → List Bytes → R → R
  Round id moved r =
      redis.zrem key id (move_job redis (prefix ++ id) (redis.hgetall (prefix ++ id) r) moved r).1

  added-move_job :
      (k : Text) (flat : Fields) (moved : List Bytes) (r : R)
      → redis.added (move_job redis k flat moved r).1
        ≡ redis.added r ++ entry_of redis (promoted flat)
  unfolding move_job promoted
  added-move_job k [] moved r = sym (append-nil (redis.added r))
  added-move_job k (pair ∷ flat) moved r =
      let job = promoted (pair ∷ flat) in
      laws.added-del_key k (add_moved redis job moved r).1 ∙ added-add_moved job moved r

  hgetall-move_job :
      (k j : Text) (flat : Fields) (moved : List Bytes) (r : R)
      → redis.hgetall j r ≡ flat
      → redis.hgetall k (move_job redis j flat moved r).1
        ≡ (if same j k then [] else redis.hgetall k r)
  unfolding move_job
  hgetall-move_job k j [] moved r here = elim (Bool-cases (same j k)) [
    | inl own ↦ rw own (rw (sym (same→eq j k own)) here)
    | inr other ↦ rw other refl
  ]
  hgetall-move_job k j (pair ∷ flat) moved r here =
      let job = promoted (pair ∷ flat) in
      laws.hgetall-del_key k j (add_moved redis job moved r).1
      ∙ ap (λ rest. if same j k then [] else rest) (hgetall-add_moved k job moved r)

  score-move_job :
      (id k : Text) (flat : Fields) (moved : List Bytes) (r : R)
      → same k key ≡ false
      → redis.score key id (move_job redis k flat moved r).1 ≡ redis.score key id r
  unfolding move_job
  score-move_job id k [] moved r h = refl
  score-move_job id k (pair ∷ flat) moved r h =
      let job = promoted (pair ∷ flat) in
      laws.score-del_key id k (add_moved redis job moved r).1 h ∙ score-add_moved id job moved r

  added-round :
      (id : Text) (moved : List Bytes) (r : R)
      → redis.added (Round id moved r)
        ≡ redis.added r ++ entry_of redis (promoted (redis.hgetall (prefix ++ id) r))
  added-round id moved r =
      let flat = redis.hgetall (prefix ++ id) r in
      laws.added-zrem id (move_job redis (prefix ++ id) flat moved r).1
      ∙ added-move_job (prefix ++ id) flat moved r

  hgetall-round :
      (other id : Text) (moved : List Bytes) (r : R)
      → redis.hgetall (prefix ++ other) (Round id moved r)
        ≡ (if same id other then [] else redis.hgetall (prefix ++ other) r)
  hgetall-round other id moved r =
      let flat = redis.hgetall (prefix ++ id) r in
      laws.hgetall-zrem (prefix ++ other) id (move_job redis (prefix ++ id) flat moved r).1
      ∙ (hgetall-move_job (prefix ++ other) (prefix ++ id) flat moved r refl
          ∙ rw (same_append prefix id other) refl)

  score-round :
      (other id : Text) (moved : List Bytes) (r : R)
      → redis.score key other (Round id moved r)
        ≡ (if same id other then none else redis.score key other r)
  score-round other id moved r =
      let flat = redis.hgetall (prefix ++ id) r in
      laws.score-zrem other id (move_job redis (prefix ++ id) flat moved r).1
      ∙ ap (λ rest. if same id other then none else rest)
          (score-move_job other (prefix ++ id) flat moved r (apart id))

  pub hgetall-promote_each :
      (other : Text) (due : List Text) (moved : List Bytes) (r : R)
      → redis.hgetall (prefix ++ other) (promote_each redis key prefix due moved r).1
        ≡ (if member other due then [] else redis.hgetall (prefix ++ other) r)
  unfolding promote_each member
  hgetall-promote_each other [] moved r = refl
  hgetall-promote_each other (id ∷ due) moved r = ground (
    arith,
    hgetall-round other id moved r,
    hgetall-promote_each other due
        (move_job redis (prefix ++ id) (redis.hgetall (prefix ++ id) r) moved r).0
        (Round id moved r),
  )

  pub score-promote_each :
      (other : Text) (due : List Text) (moved : List Bytes) (r : R)
      → redis.score key other (promote_each redis key prefix due moved r).1
        ≡ (if member other due then none else redis.score key other r)
  unfolding promote_each member
  score-promote_each other [] moved r = refl
  score-promote_each other (id ∷ due) moved r = ground (
    arith,
    score-round other id moved r,
    score-promote_each other due
        (move_job redis (prefix ++ id) (redis.hgetall (prefix ++ id) r) moved r).0
        (Round id moved r),
  )

  -- The other jobs are read as they were.
  entries_of-round :
      (id : Text) (moved : List Bytes) (r : R) (due : List Text)
      → member id due ≡ false
      → entries_of redis prefix due (Round id moved r) ≡ entries_of redis prefix due r
  unfolding member
  entries_of-round id moved r [] fresh = refl
  entries_of-round id moved r (other ∷ due) fresh =
      let apart_ids : same id other ≡ false =
        ground (arith, same_iff id other, same_iff other id) in
      let as_before : redis.hgetall (prefix ++ other) (Round id moved r)
          ≡ redis.hgetall (prefix ++ other) r =
        hgetall-round other id moved r ∙ rw apart_ids refl in
      rw as_before (rw (entries_of-round id moved r due (ground arith)) refl)

  pub added-promote_each :
      (due : List Text) (moved : List Bytes) (r : R)
      → NoneTwice due
      → redis.added (promote_each redis key prefix due moved r).1
        ≡ redis.added r ++ entries_of redis prefix due r
  unfolding promote_each
  added-promote_each [] moved r once = sym (append-nil (redis.added r))
  added-promote_each (id ∷ due) moved r (fresh, once) =
      let r' = Round id moved r in
      let moved' = (move_job redis (prefix ++ id) (redis.hgetall (prefix ++ id) r) moved r).0 in
      let entries = entry_of redis (promoted (redis.hgetall (prefix ++ id) r)) in
      added-promote_each due moved' r' once
      ∙ (rw (added-round id moved r) (
          rw (entries_of-round id moved r due fresh)
            (append_assoc (redis.added r) entries (entries_of redis prefix due r))))
