-- ===== src/Core/Scripts.antt =====
-- The Lua scripts of src/smallage/core/scripts that take, give back and clean up entries: ack.lua,
-- reclaim.lua and sweep_consumers.lua, over the commands of Redis that they use. Redis keeps text as
-- bytes, so the names of consumers are text here.
pub mod Keeping
pub mod Claiming
pub mod Promoting
use litestar_rs.Prelude.{
  ℕ, ◌<◌, ◌-◌, Text, Bytes, text, Bool, true, false, ◌&&◌, Option, some, none, List, [], ◌∷◌, same,
  ltb, member, if◌then◌else◌,
}
use litestar_rs.Prelude.Int.{ℤ, pos, ◌+ℤ◌, leb_ℤ}
use litestar_rs.Core.Envelope.{Fields}
use litestar_rs.Core.Transport.Commands.{
  Command, Entry, xgroup_create, xadd, xreadgroup, set_alive, pexpire, delete, set_nx, run_ack,
  xpending_range, time, run_reclaim, run_sweep, xpending, xtrim, xinfo_groups,
}

-- The commands on a state `R` of Redis, and the passing of milliseconds. `has`, `fresh`, `holder` and
-- `left` are what can be seen of the state: whether an entry is in a stream, whether a group still
-- has to deliver it, the consumer that it is pending for, and the milliseconds a key has left.
pub record Streams (R : Type 0) : Type 0 where
  pub create_group : Text → Text → R → R
  pub add : Text → Fields → R → R
  -- group, consumer, streams, count: XREADGROUP of `>`
  pub read_group : Text → Text → List Text → ℤ → R → R
  pub xack : Text → Text → List Bytes → R → ℤ × R
  pub xdel : Text → List Bytes → R → R
  -- stream, group, consumer, idle, id
  pub xclaim : Text → Text → Text → ℤ → Bytes → R → List Entry × R
  pub trim : Text → ℤ → R → R
  pub xinfo_consumers : Text → Text → R → List Fields
  pub delconsumer : Text → Text → Text → R → R
  pub set_px : Text → Text → ℤ → R → R
  pub set_nx_px : Text → Text → ℤ → R → R
  pub expire : Text → ℤ → R → R
  pub exists : Text → R → Bool
  pub del : List Text → R → R
  pub pass : ℕ → R → R
  pub tonumber : Bytes → Option ℤ
  -- the milliseconds in an entry's id
  pub added_ms : Bytes → ℤ
  pub has : Text → Bytes → R → Bool
  pub fresh : Text → Text → Bytes → R → Bool
  pub holder : Text → Text → Bytes → R → Option Text
  pub left : Text → R → Option ℕ

-- The variables `name`, `pending` and `idle` of the loop of sweep_consumers.lua.
pub record Described : Type 0 where
  pub name : Option Text
  pub pending : Option ℤ
  pub idle : Option ℤ

abbrev pub nothing_described : Described
nothing_described = record { name = none; pending = none; idle = none }

abbrev pub is_empty : {A : Type 0} → List A → Bool
is_empty [] = true
is_empty (x ∷ xs) = false

module _ {R : Type 0} (redis : Streams R) where
  -- ack.lua
  unfoldable pub ack : Text → List Text → Text → List Bytes → R → ℤ × R
  ack stream keys group [] r = (pos 0, r)
  ack stream keys group (id ∷ ids) r =
      let (acked, r') = redis.xack stream group (id ∷ ids) r in
      let r'' = redis.xdel stream (id ∷ ids) r' in
      (acked, if is_empty keys then r'' else redis.del keys r'')

  -- reclaim.lua
  unfoldable pub reclaim : Text → Text → Text → Text → ℤ → Bytes → ℤ → R → List Entry × R
  reclaim stream key group consumer min_idle id ttl r =
      if redis.exists key r
      then ([], r)
      else (let (claimed, r') = redis.xclaim stream group consumer min_idle id r in
          if is_empty claimed then ([], r') else (claimed, redis.set_px key consumer ttl r'))

  -- The inner loop of sweep_consumers.lua.
  unfoldable pub describe : Fields → Described → Described
  describe [] d = d
  describe ((field, value) ∷ rest) d = describe rest (
      if same field (text "name")
      then record d { name = some value }
      else if same field (text "pending")
      then record d { pending = redis.tonumber value }
      else if same field (text "idle")
      then record d { idle = redis.tonumber value }
      else d)

  abbrev pub is_zero : Option ℤ → Bool
  is_zero none = false
  is_zero (some n) = leb_ℤ n (pos 0) && leb_ℤ (pos 0) n

  abbrev pub is_at_least : ℤ → Option ℤ → Bool
  is_at_least min_idle none = false
  is_at_least min_idle (some idle) = leb_ℤ min_idle idle

  -- Its outer loop, over what XINFO answered.
  unfoldable pub sweep_listed : Text → Text → ℤ → List Fields → ℤ → R → ℤ × R
  sweep_listed stream group min_idle [] deleted r = (deleted, r)
  sweep_listed stream group min_idle (consumer ∷ more) deleted r =
      let d = describe consumer nothing_described in
      elim d.name [
        | none ↦ sweep_listed stream group min_idle more deleted r
        | some name ↦ elim (is_zero d.pending && is_at_least min_idle d.idle) [
          | false ↦ sweep_listed stream group min_idle more deleted r
          | true ↦
              sweep_listed stream group min_idle more (deleted +ℤ pos 1)
                (redis.delconsumer stream group name r)
        ]
      ]

  -- sweep_consumers.lua
  unfoldable pub sweep_consumers : Text → Text → ℤ → R → ℤ × R
  sweep_consumers stream group min_idle r =
      sweep_listed stream group min_idle (redis.xinfo_consumers stream group r) (pos 0) r

  unfoldable pub set_all : List Text → Text → ℤ → R → R
  set_all [] consumer ttl r = r
  set_all (key ∷ keys) consumer ttl r = set_all keys consumer ttl (redis.set_px key consumer ttl r)

  unfoldable pub expire_all : List Text → ℤ → R → R
  expire_all [] ttl r = r
  expire_all (key ∷ keys) ttl r = expire_all keys ttl (redis.expire key ttl r)

  -- What a command of a transport does, and the entries that it claims. Commands that only read
  -- change nothing.
  unfoldable pub serve : Command → R → List Entry × R
  serve (xgroup_create stream group) r = ([], redis.create_group stream group r)
  serve (xadd stream fields) r = ([], redis.add stream fields r)
  serve (xreadgroup group consumer streams count block) r =
      ([], redis.read_group group consumer streams count r)
  serve (set_alive keys consumer ttl) r = ([], set_all keys consumer ttl r)
  serve (pexpire keys ttl) r = ([], expire_all keys ttl r)
  serve (delete keys) r = ([], redis.del keys r)
  serve (set_nx key value ttl) r = ([], redis.set_nx_px key value ttl r)
  serve (run_ack stream keys group ids) r = ([], (ack stream keys group ids r).1)
  serve (run_reclaim stream key group consumer min_idle id ttl) r =
      reclaim stream key group consumer min_idle id ttl r
  serve (run_sweep stream group min_idle) r = ([], (sweep_consumers stream group min_idle r).1)
  serve (xtrim stream limit) r = ([], redis.trim stream limit r)
  serve other r = ([], r)

-- A command of any worker, or milliseconds that pass.
pub data Turn : Type 0 where
  command : Command → Turn
  pass : ℕ → Turn

module _ {R : Type 0} (redis : Streams R) where
  abbrev pub answer : Turn → R → List Entry × R
  answer (command c) r = serve redis c r
  answer (pass n) r = ([], redis.pass n r)

  unfoldable pub after_all : List Turn → R → R
  after_all [] r = r
  after_all (turn ∷ turns) r = after_all turns (answer turn r).1
