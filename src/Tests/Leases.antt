-- ===== src/Tests/Leases.antt =====
-- A key of Redis that keeps a lease, and what two workers are told.
use litestar_rs.Prelude.{
  ℕ, ◌<◌, Text, text, Bool, true, false, some, none, refl, arith, List, [], ◌∷◌, ◌≡◌, ◌≢◌, same,
  eq→same,
}
use litestar_rs.Prelude.Int.{ℤ, pos, pos_part}
use litestar_rs.Python.{plain}
use litestar_rs.Effect.{returned}
use litestar_rs.Core.Keys.{leader_key}
use litestar_rs.Core.Scheduler.{
  RedisScheduler, Request, take_lease, run_renew, run_release, Answers, hold_leadership,
}
use litestar_rs.Core.Scheduler.Lease.{
  Keyspace, IsRedis, value_of, after, Turn, command, pass, serve, answer, after_all, granted, Lease,
  lease_after, lease_granted, IsFor, renew_leader,
}
use litestar_rs.Core.Scheduler.Lease.Refinement.{granted-refines}
use litestar_rs.Core.Scheduler.Lease.Exclusive.{elapsed, IsAnswered, hold_leadership_exclusive}

-- A Redis with one key.
abbrev set_lease : Text → Text → ℤ → Lease → Bool × Lease
set_lease key value ttl none = (true, some (value, pos_part ttl))
set_lease key value ttl (some held) = (false, some held)

abbrev expire_lease : Text → ℤ → Lease → Lease
expire_lease key ttl none = none
expire_lease key ttl (some (value, left)) = some (value, pos_part ttl)

abbrev one_key : Keyspace Lease
one_key = record {
  set_nx_px = set_lease;
  get = λ key r. value_of r;
  pexpire = expire_lease;
  del = λ key r. none;
  pass = after;
  holder = λ key r. r;
}

set_free_one :
    (key value : Text) (ttl : ℕ) (r : Lease)
    → 0 < ttl
    → r ≡ none
    → ((set_lease key value (pos ttl) r).0 ≡ true)
      × ((set_lease key value (pos ttl) r).1 ≡ some (value, ttl))
set_free_one key value ttl none positive free = (refl, refl)
set_free_one key value ttl (some held) positive free = cc

set_taken_one :
    (key value : Text) (ttl : ℤ) (r : Lease) (held : Text × ℕ)
    → r ≡ some held
    → set_lease key value ttl r ≡ (false, r)
set_taken_one key value ttl none held there = cc
set_taken_one key value ttl (some other) held there = refl

expire_one :
    (key : Text) (ttl : ℕ) (r : Lease) (value : Text) (left : ℕ)
    → 0 < ttl
    → r ≡ some (value, left)
    → expire_lease key (pos ttl) r ≡ some (value, ttl)
expire_one key ttl none value left positive there = cc
expire_one key ttl (some (other, n)) value left positive there = cc

one_key-IsRedis : IsRedis one_key
one_key-IsRedis = record {
  get_value = λ key r. refl;
  set_free = set_free_one;
  set_taken = set_taken_one;
  expire_held = expire_one;
  del_free = λ key r. refl;
  pass_left = λ n key r. refl;
}

abbrev leader : Text
leader = text "leader"

abbrev schedule : List Turn
schedule =
    command (take_lease leader (text "a") (pos 15000))
    ∷ pass 4000
    ∷ command (take_lease leader (text "b") (pos 15000))
    ∷ command (run_renew leader (text "b") (pos 15000))
    ∷ command (run_release leader (text "a"))
    ∷ command (take_lease leader (text "b") (pos 15000))
    ∷ []

granted_schedule : lease_granted schedule none ≡ true ∷ false ∷ false ∷ false ∷ true ∷ true ∷ []
unfolding lease_granted litestar_rs.Core.Scheduler.Lease.lease_turn same
granted_schedule = refl

lasting : (leader ≡ leader) × ((ms : ℕ) × (0 < ms) × (pos 15000 ≡ pos ms))
lasting = (refl, (15000, omega arith, refl))

granted-refines_example :
    (granted one_key schedule none ≡ lease_granted schedule none)
    × (after_all one_key schedule none ≡ lease_after schedule none)
granted-refines_example =
    granted-refines one_key one_key-IsRedis leader schedule none
      (lasting, (tt, (lasting, (lasting, (refl, (lasting, tt))))))

abbrev self : RedisScheduler
self = record { namespace = text "lrs"; shards = pos 1 }

abbrev refusing : Answers
refusing = record {
  time = λ t. returned (pos 0, pos 0);
  done = λ t. returned tt;
  number = λ t. returned (pos 0);
  flag = λ t. returned false;
  ids = λ t. returned [];
}

soon : elapsed (pass 5000 ∷ []) < 9000
unfolding elapsed
soon = omega arith

answered :
    IsAnswered one_key
      (leader_key self.namespace)
      (text "b")
      (pos 15000)
      (some (text "a", 9000))
      (pass 5000 ∷ [])
      refusing
unfolding serve after_all renew_leader same
answered = record { first = refl; second = refl }

unequal : false ≢ true
unequal e = cc

tokens_differ : text "b" ≢ text "a"
unfolding same
tokens_differ e = unequal (eq→same e)

hold_leadership_exclusive_example :
    (hold_leadership plain
      (λ b. 0)
      (λ job now. returned none)
      refusing
      self
      (text "b")
      (pos 15000)
      (record { state = tt; trace = [] })).0
    ≡ returned false
hold_leadership_exclusive_example =
    hold_leadership_exclusive one_key one_key-IsRedis plain (λ b. 0) (λ job now. returned none) self
      refusing (text "a") (text "b") 9000 15000 (some (text "a", 9000)) (pass 5000 ∷ [])
      tokens_differ (omega arith) refl (tt, tt) (tt, tt) soon answered
