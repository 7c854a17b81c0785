-- ===== src/Core/Transport.antt =====
-- The Redis Streams transport: src/smallage/core/transport.py.
pub mod Commands
pub mod Replies
pub mod Upkeep
pub mod Order
pub mod Reading
pub mod Parking
pub mod Setup
use litestar_rs.Prelude.{
  ℕ, zero, suc, ◌+◌, ◌*◌, ◌%◌, ◌==◌, Text, Bytes, text, Bool, true, false, not, ◌&&◌, ◌||◌, Option,
  some, none, List, [], ◌∷◌, ◌++◌, map, length, member, same, take, ltb, if◌then◌else◌,
}
use mathlib.Core.List.{reverse}
use litestar_rs.Prelude.Int.{ℤ, pos, ◌+ℤ◌, ◌-ℤ◌, ◌*ℤ◌, ltb_ℤ, leb_ℤ}
use litestar_rs.Prelude.Dict.{lookup, put}
use litestar_rs.Python.{Python, Exn, configuration_error, key_error, payload_too_large, value_error}
use litestar_rs.Effect.{
  Outcome, returned, raised, pure, throw, lift, asks, except, modify, ◌>>=◌, ◌>>◌,
}
use litestar_rs.Core.Envelope.{Envelope, Record, Pending, Fields, to_fields, or_raise}
use litestar_rs.Core.Keys.{validate, stream_keys, stream_for, alive_key, dedup_key, dlq_key}
use litestar_rs.Core.Worker.Handler.{floor_div}
use Commands.{
  Method, Held, Entry, Redis, ask, xgroup_create, xadd, xreadgroup, set_alive, pexpire, delete,
  set_nx, run_ack, xpending_range, time, run_reclaim, run_sweep, xpending, xtrim, xinfo_groups,
}

-- The fields that `__init__` sets.
pub record Transport : Type 0 where
  pub consumer : Text
  pub namespace : Text
  pub queues : List Text
  pub group : Text
  pub block_ms : ℤ
  pub shards : ℤ
  pub fairness_every : ℕ
  pub max_payload_bytes : ℤ
  pub streams_by_queue : List (Text × List Text)
  pub external_streams : List Text

abbrev pub max_detail_bytes : ℕ
max_detail_bytes = 8 * 1024

-- `self.streams`
unfoldable pub all_streams : List (Text × List Text) → List Text
all_streams [] = []
all_streams ((queue, streams) ∷ rest) = streams ++ all_streams rest

unfoldable pub records_of : Text → List Entry → List Record
records_of stream [] = []
records_of stream ((entry_id, fields) ∷ entries) =
    record { stream = stream; entry_id = entry_id; fields = fields } ∷ records_of stream entries

-- `_records_from_read`
unfoldable pub records_from_read : List (Text × List Entry) → List Record
unfolding records_of
records_from_read [] = []
records_from_read ((stream, entries) ∷ reply) = records_of stream entries ++ records_from_read reply

abbrev or_else : List Record → Method (List Record) → Method (List Record)
or_else [] rest = rest
or_else (entry ∷ records) rest = pure (entry ∷ records)

abbrev is_nil : {A : Type 0} → List A → Bool
is_nil [] = true
is_nil (x ∷ xs) = false

-- `int(id.split(b"-")[0])`
unfoldable pub before_dash : Bytes → Bytes
before_dash [] = []
before_dash (b ∷ bs) = let rest = before_dash bs in if b == b'-' then [] else b ∷ rest

module _ (py : Python) (redis : Redis) (self : Transport) where
  abbrev pub streams : List Text
  streams = all_streams self.streams_by_queue

  abbrev pub every_stream : List Text
  every_stream = streams ++ self.external_streams

  unfoldable pub ensure_group : List Text → Method (Unit {0})
  ensure_group [] = pure tt
  ensure_group (stream ∷ more) = do
    except (ask (xgroup_create stream self.group) redis.done)
        (λ e. if redis.is_busygroup e then pure tt else throw e)
    ensure_group more

  unfoldable pub enqueue : (Bytes → ℕ) → Envelope → Text → Method Bytes
  enqueue crc32 envelope queue =
      if ltb_ℤ self.max_payload_bytes (pos (length envelope.payload))
      then throw payload_too_large
      else (do
        name ← lift (validate queue)
        stream ← lift (stream_for py crc32 self.namespace name self.shards envelope.id)
        ask (xadd stream (to_fields py envelope)) redis.new_id)

  -- The order of a pass, when `passes` passes were made before it.
  unfoldable pub priority_order : ℕ → List Text
  priority_order passes =
      if not (self.fairness_every == 0) && suc passes % self.fairness_every == 0
      then reverse self.queues
      else self.queues

  unfoldable pub streams_of : Text → List Text
  streams_of queue = elim (lookup queue self.streams_by_queue) [
    | none ↦ []
    | some streams ↦ streams
  ]

  -- `_read`
  unfoldable pub read_streams : List Text → ℤ → Option ℤ → Method (List Record)
  read_streams names count block = do
    reply ← ask (xreadgroup self.group self.consumer names count block) redis.read
    pure (records_from_read reply)

  -- The non-blocking sweep, and then the blocking read of all.
  unfoldable pub sweep : ℤ → List Text → Method (List Record)
  sweep count [] = read_streams streams count (some self.block_ms)
  sweep count (queue ∷ more) = do
    records ← read_streams (streams_of queue) count none
    or_else records (sweep count more)

  unfoldable pub read_own : ℤ → Method (List Record)
  read_own count =
      if ltb 1 (length self.queues)
      then (do order ← asks (λ w. priority_order w.state); modify suc; sweep count order)
      else read_streams streams count (some self.block_ms)

  unfoldable pub read_entries : ℤ → Method (List Record)
  read_entries count =
      if leb_ℤ count (pos 0)
      then pure []
      else if is_nil streams
      then read_streams self.external_streams count (some self.block_ms)
      else if is_nil self.external_streams
      then read_own count
      else (do
        records ← read_streams self.external_streams count none
        or_else records (read_own count))

  unfoldable pub mark_alive : List Bytes → ℤ → Method (Unit {0})
  mark_alive [] ttl = pure tt
  mark_alive (entry_id ∷ more) ttl =
      ask (set_alive (map (alive_key self.namespace) (entry_id ∷ more)) self.consumer ttl)
        redis.done

  unfoldable pub refresh_alive : List Bytes → ℤ → Method (Unit {0})
  refresh_alive [] ttl = pure tt
  refresh_alive (entry_id ∷ more) ttl =
      ask (pexpire (map (alive_key self.namespace) (entry_id ∷ more)) ttl) redis.done

  unfoldable pub clear_alive : List Bytes → Method (Unit {0})
  clear_alive [] = pure tt
  clear_alive (entry_id ∷ more) =
      ask (delete (map (alive_key self.namespace) (entry_id ∷ more))) redis.done

  unfoldable pub claim_dedup : Text → Text → ℤ → Method Bool
  claim_dedup key owner ttl = ask (set_nx (dedup_key self.namespace key) owner ttl) redis.flag

  unfoldable pub ack : Text → List Bytes → Method ℤ
  ack stream [] = pure (pos 0)
  ack stream (entry_id ∷ more) =
      let ids = entry_id ∷ more in
      ask (run_ack stream (map (alive_key self.namespace) ids) self.group ids) redis.number
