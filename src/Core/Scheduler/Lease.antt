-- ===== src/Core/Scheduler/Lease.antt =====
-- The lease of the scheduler: src/smallage/core/scripts/renew_leader.lua and release_leader.lua, over
-- the commands of Redis that they and `hold_leadership` of src/smallage/core/scheduler.py use.
pub mod Refinement
pub mod Exclusive
use litestar_rs.Prelude.{
  ℕ, ◌<◌, ◌-◌, ◌+◌, Text, Bool, true, false, Option, some, none, List, [], ◌∷◌, ◌≡◌, same, ltb,
  if◌then◌else◌,
}
use litestar_rs.Prelude.Int.{ℤ, pos, pos_part}
use litestar_rs.Core.Scheduler.{Request, take_lease, run_renew, run_release}

-- SET with NX and PX, GET, PEXPIRE and DEL on a state `R` of Redis, and the passing of milliseconds;
-- `holder` is the value of a key with the milliseconds that it has left.
pub record Keyspace (R : Type 0) : Type 0 where
  pub set_nx_px : Text → Text → ℤ → R → Bool × R
  pub get : Text → R → Option Text
  pub pexpire : Text → ℤ → R → R
  pub del : Text → R → R
  pub pass : ℕ → R → R
  pub holder : Text → R → Option (Text × ℕ)

abbrev pub value_of : Option (Text × ℕ) → Option Text
value_of none = none
value_of (some (value, left)) = some value

-- What is left of a key's time.
abbrev pub after : ℕ → Option (Text × ℕ) → Option (Text × ℕ)
after n none = none
after n (some (value, left)) = if ltb n left then some (value, left - n) else none

-- What Redis documents of these commands.
pub record IsRedis {R : Type 0} (redis : Keyspace R) : Type 0 where
  pub get_value : (key : Text) (r : R) → redis.get key r ≡ value_of (redis.holder key r)
  pub set_free :
      (key value : Text) (ttl : ℕ) (r : R)
      → 0 < ttl
      → redis.holder key r ≡ none
      → ((redis.set_nx_px key value (pos ttl) r).0 ≡ true)
        × (redis.holder key (redis.set_nx_px key value (pos ttl) r).1 ≡ some (value, ttl))
  pub set_taken :
      (key value : Text) (ttl : ℤ) (r : R) (held : Text × ℕ)
      → redis.holder key r ≡ some held
      → redis.set_nx_px key value ttl r ≡ (false, r)
  pub expire_held :
      (key : Text) (ttl : ℕ) (r : R) (value : Text) (left : ℕ)
      → 0 < ttl
      → redis.holder key r ≡ some (value, left)
      → redis.holder key (redis.pexpire key (pos ttl) r) ≡ some (value, ttl)
  pub del_free : (key : Text) (r : R) → redis.holder key (redis.del key r) ≡ none
  pub pass_left :
      (n : ℕ) (key : Text) (r : R)
      → redis.holder key (redis.pass n r) ≡ after n (redis.holder key r)

module _ {R : Type 0} (redis : Keyspace R) where
  -- renew_leader.lua
  unfoldable pub renew_leader : Text → Text → ℤ → R → Bool × R
  renew_leader key token ttl r = elim (redis.get key r) [
    | none ↦ (false, r)
    | some value ↦ if same value token then (true, redis.pexpire key ttl r) else (false, r)
  ]

  -- release_leader.lua
  unfoldable pub release_leader : Text → Text → R → Bool × R
  release_leader key token r = elim (redis.get key r) [
    | none ↦ (false, r)
    | some value ↦ if same value token then (true, redis.del key r) else (false, r)
  ]

-- What may happen to the key: a command of a scheduler, or milliseconds that pass.
pub data Turn : Type 0 where
  command : Request → Turn
  pass : ℕ → Turn

module _ {R : Type 0} (redis : Keyspace R) where
  -- Whether a command was granted, and the state after it.
  unfoldable pub serve : Request → R → Bool × R
  serve (take_lease key token ttl) r = redis.set_nx_px key token ttl r
  serve (run_renew key token ttl) r = renew_leader redis key token ttl r
  serve (run_release key token) r = release_leader redis key token r
  serve other r = (false, r)

  abbrev pub answer : Turn → R → Bool × R
  answer (command c) r = serve c r
  answer (pass n) r = (false, redis.pass n r)

  unfoldable pub after_all : List Turn → R → R
  after_all [] r = r
  after_all (turn ∷ turns) r = after_all turns (answer turn r).1

  -- What was granted, the first one first.
  unfoldable pub granted : List Turn → R → List Bool
  granted [] r = []
  granted (turn ∷ turns) r = (answer turn r).0 ∷ granted turns (answer turn r).1

-- What the lease promises: a holder and the milliseconds that it has left.
abbrev pub Lease : Type 0
Lease = Option (Text × ℕ)

abbrev pub is_held_by : Text → Lease → Bool
is_held_by token none = false
is_held_by token (some (holder, left)) = same holder token

-- Taken while it is free, renewed and released by its holder alone, and gone when its time is up.
unfoldable pub lease_turn : Turn → Lease → Bool × Lease
lease_turn (command (take_lease key token ttl)) none = (true, some (token, pos_part ttl))
lease_turn (command (take_lease key token ttl)) (some held) = (false, some held)
lease_turn (command (run_renew key token ttl)) lease =
    if is_held_by token lease then (true, some (token, pos_part ttl)) else (false, lease)
lease_turn (command (run_release key token)) lease =
    if is_held_by token lease then (true, none) else (false, lease)
lease_turn (command other) lease = (false, lease)
lease_turn (pass n) lease = (false, after n lease)

unfoldable pub lease_after : List Turn → Lease → Lease
lease_after [] lease = lease
lease_after (turn ∷ turns) lease = lease_after turns (lease_turn turn lease).1

unfoldable pub lease_granted : List Turn → Lease → List Bool
lease_granted [] lease = []
lease_granted (turn ∷ turns) lease =
    (lease_turn turn lease).0 ∷ lease_granted turns (lease_turn turn lease).1

-- A command for this key, with a time to live.
abbrev pub IsFor : Text → Turn → Type 0
IsFor key (command (take_lease k token ttl)) = (k ≡ key) × ((ms : ℕ) × (0 < ms) × (ttl ≡ pos ms))
IsFor key (command (run_renew k token ttl)) = (k ≡ key) × ((ms : ℕ) × (0 < ms) × (ttl ≡ pos ms))
IsFor key (command (run_release k token)) = k ≡ key
IsFor key (command other) = ⊥
IsFor key (pass n) = Unit
