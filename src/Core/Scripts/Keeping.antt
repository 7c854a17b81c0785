-- ===== src/Core/Scripts/Keeping.antt =====
-- An entry between its arrival in a stream and its acknowledgement.
pub mod Described
pub mod Steps
pub mod Always
pub mod Sent
use litestar_rs.Prelude.{
  ℕ, Text, Bytes, text, Bool, Bool-cases, true, false, ◌&&◌, Option, Option-cases, some, none, List,
  [], ◌∷◌, ◌≡◌, ◌≢◌, ◌⊎◌, inl, inr, refl, sym, ap, ◌∙◌, arith, All, All-imp, All-any, same, same→eq,
  eq→same, member, if◌then◌else◌,
}
use litestar_rs.Prelude.Int.{ℤ, pos, ◌≤ℤ◌, ◌+ℤ◌, leb_ℤ}
use litestar_rs.Prelude.Dict.{lookup}
use litestar_rs.Core.Envelope.{Fields}
use litestar_rs.Core.Scheduler.Promotion.{IsDistinct}
use litestar_rs.Core.Transport.Commands.{
  Command, xgroup_create, xadd, xreadgroup, set_alive, pexpire, delete, set_nx, run_ack,
  xpending_range, time, run_reclaim, run_sweep, xpending, xtrim, xinfo_groups,
}
use litestar_rs.Core.Scripts.{
  Streams, nothing_described, describe, is_zero, is_at_least, is_empty, ack, reclaim, sweep_listed,
  sweep_consumers, set_all, expire_all, serve, Turn, command, pass, answer, after_all,
}

module _ {R : Type 0} (redis : Streams R) (stream group : Text) (id : Bytes) where
  -- Nothing that can be seen of the entry has changed.
  abbrev pub Untouched : R → R → Type 0
  Untouched r r' =
      (redis.has stream id r' ≡ redis.has stream id r)
      × (redis.fresh stream group id r' ≡ redis.fresh stream group id r)
      × (redis.holder stream group id r' ≡ redis.holder stream group id r)

  -- The entry is in its stream, and the group has still to deliver it or has it pending.
  abbrev pub IsKept : R → Type 0
  IsKept r =
      (redis.has stream id r ≡ true)
      × ((redis.fresh stream group id r ≡ true)
          ⊎ ((consumer : Text) × (redis.holder stream group id r ≡ some consumer)))

  -- XINFO lists no field of a consumer twice, and gives the one that holds the entry another number
  -- of pending entries than 0.
  abbrev pub IsTold : R → Fields → Type 0
  IsTold r consumer =
      IsDistinct consumer
      × ((name pending : Text)
          → lookup (text "name") consumer ≡ some name
          → lookup (text "pending") consumer ≡ some pending
          → redis.holder stream group id r ≡ some name
          → redis.tonumber pending ≢ some (pos 0))

  -- What Redis documents of its commands, as far as an entry that is in its stream is concerned.
  pub record IsDocumented : Type 0 where
    pub create_apart : (s g : Text) (r : R) → Untouched r (redis.create_group s g r)
    pub add_apart :
        (s : Text) (fields : Fields) (r : R)
        → redis.has stream id r ≡ true
        → Untouched r (redis.add s fields r)
    pub read_delivers :
        (g c : Text) (streams : List Text) (count : ℤ) (r : R)
        → Untouched r (redis.read_group g c streams count r)
          ⊎ ((redis.has stream id (redis.read_group g c streams count r) ≡ redis.has stream id r)
              × (redis.fresh stream group id r ≡ true)
              × (redis.holder stream group id (redis.read_group g c streams count r) ≡ some c))
    pub xack_apart :
        (s g : Text) (ids : List Bytes) (r : R)
        → (s ≢ stream) ⊎ (member id ids ≡ false)
        → Untouched r (redis.xack s g ids r).1
    pub xdel_apart :
        (s : Text) (ids : List Bytes) (r : R)
        → (s ≢ stream) ⊎ (member id ids ≡ false)
        → Untouched r (redis.xdel s ids r)
    pub xclaim_moves :
        (s g c : Text) (min_idle : ℤ) (other : Bytes) (r : R)
        → redis.has stream id r ≡ true
        → Untouched r (redis.xclaim s g c min_idle other r).1
          ⊎ ((redis.has stream id (redis.xclaim s g c min_idle other r).1 ≡ true)
              × (redis.holder stream group id (redis.xclaim s g c min_idle other r).1 ≡ some c))
    pub trim_apart :
        (s : Text) (limit : ℤ) (r : R)
        → (s ≢ stream) ⊎ (limit ≤ℤ redis.added_ms id)
        → Untouched r (redis.trim s limit r)
    pub delconsumer_apart :
        (s g name : Text) (r : R)
        → (s ≢ stream) ⊎ ((g ≢ group) ⊎ (redis.holder stream group id r ≢ some name))
        → Untouched r (redis.delconsumer s g name r)
    pub told : (r : R) → All (IsTold r) (redis.xinfo_consumers stream group r)
    pub set_apart :
        (key value : Text) (ttl : ℤ) (r : R)
        → key ≢ stream
        → Untouched r (redis.set_px key value ttl r)
    pub set_nx_apart :
        (key value : Text) (ttl : ℤ) (r : R)
        → key ≢ stream
        → Untouched r (redis.set_nx_px key value ttl r)
    pub expire_apart :
        (key : Text) (ttl : ℤ) (r : R) → key ≢ stream → Untouched r (redis.expire key ttl r)
    pub del_apart :
        (keys : List Text) (r : R) → All (λ key. key ≢ stream) keys → Untouched r (redis.del keys r)
    pub pass_apart : (n : ℕ) (r : R) → Untouched r (redis.pass n r)

  -- A turn that neither acknowledges the entry nor trims as far as it, and whose keys are not the
  -- stream's.
  abbrev pub IsSparing : Turn → Type 0
  IsSparing (command (set_alive keys consumer ttl)) = All (λ key. key ≢ stream) keys
  IsSparing (command (pexpire keys ttl)) = All (λ key. key ≢ stream) keys
  IsSparing (command (delete keys)) = All (λ key. key ≢ stream) keys
  IsSparing (command (set_nx key value ttl)) = key ≢ stream
  IsSparing (command (run_ack s keys g ids)) =
      ((s ≢ stream) ⊎ (member id ids ≡ false)) × All (λ key. key ≢ stream) keys
  IsSparing (command (run_reclaim s key g c min_idle other ttl)) = key ≢ stream
  IsSparing (command (xtrim s limit)) = (s ≢ stream) ⊎ (limit ≤ℤ redis.added_ms id)
  IsSparing (command other) = Unit
  IsSparing (pass n) = Unit
