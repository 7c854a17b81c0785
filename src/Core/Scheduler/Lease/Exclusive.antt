-- ===== src/Core/Scheduler/Lease/Exclusive.antt =====
-- Several workers that ask `hold_leadership` of src/smallage/core/scheduler.py for the lease.
use litestar_rs.Prelude.{
  Bytes, ℕ, ◌<◌, ◌-◌, ◌+◌, Text, false, Option, some, List, [], ◌∷◌, ◌≡◌, ◌≢◌, refl, ap, ◌∙◌, arith,
  lt→ltb, All, same, same_iff,
}
use litestar_rs.Prelude.Int.{ℤ, pos}
use litestar_rs.Python.{Python}
use litestar_rs.Core.Cron.{CronJob}
use litestar_rs.Effect.{Outcome, perform, returned, succeeded, ◌>>=◌}
use litestar_rs.Core.Keys.{leader_key}
use litestar_rs.Core.Scheduler.{
  RedisScheduler, take_lease, run_renew, run_release, clock, write_job, run_promote, zcard, Answers,
  hold_leadership,
}
use litestar_rs.Core.Scheduler.Lease.{
  Keyspace, IsRedis, after, Turn, command, pass, serve, after_all, granted, Lease, lease_turn,
  lease_after, lease_granted, IsFor,
}
use litestar_rs.Core.Scheduler.Lease.Refinement.{granted-refines}

-- The milliseconds that pass.
unfoldable pub elapsed : List Turn → ℕ
elapsed [] = 0
elapsed (command c ∷ turns) = elapsed turns
elapsed (pass n ∷ turns) = n + elapsed turns

-- A command of another worker, or time.
abbrev pub IsOther : Text → Turn → Type 0
IsOther token (command (take_lease key other ttl)) = other ≢ token
IsOther token (command (run_renew key other ttl)) = other ≢ token
IsOther token (command (run_release key other)) = other ≢ token
IsOther token (command other) = Unit
IsOther token (pass n) = Unit

apart : (a b : Text) → b ≢ a → same a b ≡ false
apart a b different = ground (arith, same_iff a b)

abbrev held_for : Text → ℕ → Lease
held_for token left = some (token, left)

spent :
    (token : Text) (left n : ℕ)
    → n < left
    → after n (some (token, left)) ≡ held_for token (left - n)
spent token left n soon = ground (arith, lt→ltb n left soon)

lease_after_others :
    (turns : List Turn) (token : Text) (left : ℕ)
    → All (IsOther token) turns
    → elapsed turns < left
    → All (λ g. g ≡ false) (lease_granted turns (some (token, left)))
      × (lease_after turns (some (token, left)) ≡ some (token, left - elapsed turns))
unfolding lease_after lease_granted lease_turn elapsed
lease_after_others [] token left h soon = (tt, ap (held_for token) (omega arith))
lease_after_others (command (take_lease key other ttl) ∷ turns) token left (first, rest) soon =
    let (refused, kept) = lease_after_others turns token left rest soon in ((refl, refused), kept)
lease_after_others (command (run_renew key other ttl) ∷ turns) token left (first, rest) soon =
    let (refused, kept) = lease_after_others turns token left rest soon in
    rw (apart token other first) ((refl, refused), kept)
lease_after_others (command (run_release key other) ∷ turns) token left (first, rest) soon =
    let (refused, kept) = lease_after_others turns token left rest soon in
    rw (apart token other first) ((refl, refused), kept)
lease_after_others (command clock ∷ turns) token left (first, rest) soon =
    let (refused, kept) = lease_after_others turns token left rest soon in ((refl, refused), kept)
lease_after_others (command (write_job a b c d e) ∷ turns) token left (first, rest) soon =
    let (refused, kept) = lease_after_others turns token left rest soon in ((refl, refused), kept)
lease_after_others (command (run_promote a b c) ∷ turns) token left (first, rest) soon =
    let (refused, kept) = lease_after_others turns token left rest soon in ((refl, refused), kept)
lease_after_others (command (zcard a) ∷ turns) token left (first, rest) soon =
    let (refused, kept) = lease_after_others turns token left rest soon in ((refl, refused), kept)
lease_after_others (pass n ∷ turns) token left (first, rest) soon =
    let (refused, kept) = lease_after_others turns token (left - n) rest (omega arith) in
    rw (spent token left n (omega arith))
      ((refl, refused), kept ∙ ap (held_for token) (omega arith))

module _ {R : Type 0} (redis : Keyspace R) (laws : IsRedis redis) (key : Text) where
  others_refused :
      (turns : List Turn) (r : R) (token : Text) (left : ℕ)
      → All (IsFor key) turns
      → All (IsOther token) turns
      → redis.holder key r ≡ some (token, left)
      → elapsed turns < left
      → All (λ g. g ≡ false) (granted redis turns r)
        × (redis.holder key (after_all redis turns r) ≡ some (token, left - elapsed turns))
  others_refused turns r token left for others held soon =
      let (answers, holder) = granted-refines redis laws key turns r for in
      let (refused, kept) = lease_after_others turns token left others soon in
      (rw answers (rw held refused), holder ∙ ap (lease_after turns) held ∙ kept)

-- The answers of Redis to the two commands of `hold_leadership`, with turns of others between them.
pub record IsAnswered {R : Type 0} (redis : Keyspace R) (key token : Text) (ttl : ℤ) (r : R)
    (between : List Turn) (replies : Answers) : Type 0 where
  pub first : replies.flag [] ≡ returned (serve redis (take_lease key token ttl) r).0
  pub second :
      replies.flag (record { call = take_lease key token ttl; status = succeeded } ∷ [])
      ≡ returned
          (serve redis
            (run_renew key token ttl)
            (after_all redis between (serve redis (take_lease key token ttl) r).1)).0

module _ {R : Type 0} (redis : Keyspace R) (laws : IsRedis redis) (py : Python) (crc32 : Bytes → ℕ)
    (next_fire_ms : CronJob → ℤ → Outcome (Option ℤ)) (self : RedisScheduler)
    (replies : Answers) where
  -- While another worker's lease has time left, `hold_leadership` answers no, whatever other workers
  -- take, renew and release between its two commands.
  pub hold_leadership_exclusive :
      (holder token : Text) (left ms : ℕ) (r : R) (between : List Turn)
      → token ≢ holder
      → 0 < ms
      → redis.holder (leader_key self.namespace) r ≡ some (holder, left)
      → All (IsFor (leader_key self.namespace)) between
      → All (IsOther holder) between
      → elapsed between < left
      → IsAnswered redis (leader_key self.namespace) token (pos ms) r between replies
      → (hold_leadership py crc32 next_fire_ms replies self token
          (pos ms)
          (record { state = tt; trace = [] })).0
        ≡ returned false
  unfolding hold_leadership perform granted after_all elapsed ◌>>=◌
  hold_leadership_exclusive holder token left ms r between different positive held for others soon
        answered =
      let key : Text = leader_key self.namespace in
      let ((not_taken, _), still) =
        others_refused redis laws key (command (take_lease key token (pos ms)) ∷ []) r holder left
          ((refl, (ms, positive, refl)), tt) (different, tt) held (omega arith) in
      let (_, kept) =
        others_refused redis laws key between (serve redis (take_lease key token (pos ms)) r).1
          holder (left - 0) for others still (omega arith) in
      let ((not_renewed, _), _) =
        others_refused redis laws key (command (run_renew key token (pos ms)) ∷ [])
          (after_all redis between (serve redis (take_lease key token (pos ms)) r).1) holder
          (left - 0 - elapsed between) ((refl, (ms, positive, refl)), tt) (different, tt) kept
          (omega arith) in
      let no : replies.flag [] ≡ returned false = answered.first ∙ ap returned not_taken in
      let never : replies.flag
            (record { call = take_lease key token (pos ms); status = succeeded } ∷ [])
          ≡ returned false =
        answered.second ∙ ap returned not_renewed in
      rw no never
