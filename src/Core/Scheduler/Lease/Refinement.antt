-- ===== src/Core/Scheduler/Lease/Refinement.antt =====
-- The key of the lease and its two scripts, beside the lease of Core/Scheduler/Lease.
use litestar_rs.Prelude.{
  ℕ, ◌<◌, Text, Bool-cases, Option-cases, some, List, [], ◌∷◌, ◌≡◌, inl, inr, refl, ap, ◌∙◌, All,
  same, same→eq,
}
use litestar_rs.Prelude.Int.{pos}
use litestar_rs.Core.Scheduler.{
  take_lease, run_renew, run_release, clock, write_job, run_promote, zcard,
}
use litestar_rs.Core.Scheduler.Lease.{
  Keyspace, IsRedis, value_of, renew_leader, release_leader, Turn, command, pass, serve, answer,
  after_all, granted, lease_turn, lease_after, lease_granted, IsFor,
}

module _ {R : Type 0} (redis : Keyspace R) (laws : IsRedis redis) (key : Text) where
  abbrev Agrees : Turn → R → Type 0
  Agrees turn r =
      ((answer redis turn r).0 ≡ (lease_turn turn (redis.holder key r)).0)
      × (redis.holder key (answer redis turn r).1 ≡ (lease_turn turn (redis.holder key r)).1)

  take-Agrees :
      (token : Text) (ms : ℕ) (r : R) → 0 < ms → Agrees (command (take_lease key token (pos ms))) r
  unfolding serve lease_turn
  take-Agrees token ms r positive = elim (Option-cases (redis.holder key r)) [
    | inl free ↦
        let (taken, held) = laws.set_free key token ms r positive free in rw free (taken, held)
    | inr (held, there) ↦
        rw there (rw (laws.set_taken key token (pos ms) r held there) (refl, there))
  ]

  renew-Agrees :
      (token : Text) (ms : ℕ) (r : R) → 0 < ms → Agrees (command (run_renew key token (pos ms))) r
  unfolding serve lease_turn renew_leader
  renew-Agrees token ms r positive = elim (Option-cases (redis.holder key r)) [
    | inl free ↦ rw free (rw (laws.get_value key r ∙ ap value_of free, renew_leader) (refl, free))
    | inr ((holder, left), there) ↦ elim (Bool-cases (same holder token)) [
      | inl ours ↦
          let name : holder ≡ token = same→eq holder token ours in
          rw there (
            rw (laws.get_value key r ∙ ap value_of there, renew_leader)
              (rw ours (
                refl,
                laws.expire_held key ms r holder left positive there ∙ ap (λ t. some (t, ms)) name,
              )))
      | inr theirs ↦
          rw there
            (rw (laws.get_value key r ∙ ap value_of there, renew_leader) (rw theirs (refl, there)))
    ]
  ]

  release-Agrees : (token : Text) (r : R) → Agrees (command (run_release key token)) r
  unfolding serve lease_turn release_leader
  release-Agrees token r = elim (Option-cases (redis.holder key r)) [
    | inl free ↦ rw free (rw (laws.get_value key r ∙ ap value_of free, release_leader) (refl, free))
    | inr ((holder, left), there) ↦ elim (Bool-cases (same holder token)) [
      | inl ours ↦ rw there (
          rw (laws.get_value key r ∙ ap value_of there, release_leader)
            (rw ours (refl, laws.del_free key r)))
      | inr theirs ↦
          rw there (
            rw (laws.get_value key r ∙ ap value_of there, release_leader) (rw theirs (refl, there)))
    ]
  ]

  turn-Agrees : (turn : Turn) (r : R) → IsFor key turn → Agrees turn r
  unfolding lease_turn
  turn-Agrees (command (take_lease k token ttl)) r (here, (ms, positive, time)) =
      rw here (rw time (take-Agrees token ms r positive))
  turn-Agrees (command (run_renew k token ttl)) r (here, (ms, positive, time)) =
      rw here (rw time (renew-Agrees token ms r positive))
  turn-Agrees (command (run_release k token)) r here = rw here (release-Agrees token r)
  turn-Agrees (command clock) r h = absurd h
  turn-Agrees (command (write_job a b c d e)) r h = absurd h
  turn-Agrees (command (run_promote a b c)) r h = absurd h
  turn-Agrees (command (zcard a)) r h = absurd h
  turn-Agrees (pass n) r h = (refl, laws.pass_left n key r)

  -- On every schedule of commands of any number of schedulers, with time that passes between them,
  -- the key of Redis and the two scripts behave as the lease promises: they grant the same commands,
  -- and the key has the lease's holder with the time that it has left.
  pub granted-refines :
      (turns : List Turn) (r : R)
      → All (IsFor key) turns
      → (granted redis turns r ≡ lease_granted turns (redis.holder key r))
        × (redis.holder key (after_all redis turns r) ≡ lease_after turns (redis.holder key r))
  unfolding granted lease_granted after_all lease_after
  granted-refines [] r h = (refl, refl)
  granted-refines (turn ∷ turns) r (first, rest) =
      let (same_answer, same_holder) = turn-Agrees turn r first in
      let (answers, holder) = granted-refines turns (answer redis turn r).1 rest in
      (
        rw same_answer (
            ap (◌∷◌ (lease_turn turn (redis.holder key r)).0)
              (answers ∙ ap (lease_granted turns) same_holder)),
        holder ∙ ap (lease_after turns) same_holder,
      )
