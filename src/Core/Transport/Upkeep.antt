-- ===== src/Core/Transport/Upkeep.antt =====
-- The parts of src/smallage/core/transport.py that look after what is pending: `pending`,
-- `dead_letter`, `reclaim`, `sweep_consumers`, `trim`, `lag`, and the checks of `__init__`.
pub mod Trimming
use litestar_rs.Prelude.{
  ℕ, ◌*◌, Text, Bytes, text, Bool, true, false, not, ◌&&◌, ◌||◌, Option, some, none, List, [], ◌∷◌,
  ◌++◌, map, length, member, same, take, if◌then◌else◌,
}
use litestar_rs.Prelude.Int.{ℤ, pos, ◌+ℤ◌, ◌-ℤ◌, ◌*ℤ◌, ltb_ℤ, leb_ℤ}
use litestar_rs.Prelude.Dict.{put}
use litestar_rs.Python.{Python, value_error, unicode_decode_error}
use litestar_rs.Effect.{Outcome, returned, raised, pure, lift, ◌>>=◌, ◌>>◌}
use litestar_rs.Core.Envelope.{Record, Pending, Fields, or_raise}
use litestar_rs.Core.Keys.{alive_key, dlq_key}
use litestar_rs.Core.Worker.Handler.{floor_div}
use litestar_rs.Core.Transport.{Transport, max_detail_bytes, every_stream, streams, before_dash}
use litestar_rs.Core.Transport.Replies.{parse_xclaim_reply}
use litestar_rs.Core.Transport.Commands.{
  Method, Held, Redis, ask, xadd, xpending_range, time, run_reclaim, run_sweep, xpending, xtrim,
  xinfo_groups,
}

module _ (py : Python) (redis : Redis) (self : Transport) where
  -- The entries of one stream as `Pending`: the consumer's name is decoded.
  unfoldable pub pending_of : Text → List Held → Outcome (List Pending)
  pending_of stream [] = returned []
  pending_of stream (entry ∷ entries) =
      decode_held (py.decode entry.consumer) (pending_of stream entries)
    where
      decode_held : Option Text → Outcome (List Pending) → Outcome (List Pending)
      decode_held none rest = raised unicode_decode_error
      decode_held (some consumer) (returned rest) = returned (
          record {
            stream = stream;
            entry_id = entry.message_id;
            consumer = consumer;
            times_delivered = entry.times_delivered;
          }
          ∷ rest)
      decode_held (some consumer) other = other

  -- The loop of `pending`, with what was found so far.
  unfoldable pub pending_from : ℤ → ℤ → List Pending → List Text → Method (List Pending)
  pending_from count idle found [] = pure found
  pending_from count idle found (stream ∷ more) = do
    entries ← ask (xpending_range stream self.group (count -ℤ pos (length found)) idle) redis.held
    parsed ← lift (pending_of stream entries)
    let found' = found ++ parsed
    if leb_ℤ count (pos (length found')) then pure found' else pending_from count idle found' more

  unfoldable pub pending : ℤ → ℤ → Method (List Pending)
  pending count idle =
      if leb_ℤ count (pos 0)
      then pure []
      else pending_from count idle [] (every_stream py redis self)

  -- `seconds * 1000 + microseconds // 1000`
  unfoldable pub now_ms : Method ℤ
  now_ms = do
    (seconds, microseconds) ← ask time redis.time
    pure (seconds *ℤ pos 1000 +ℤ floor_div microseconds 1000)

  -- The fields of a dead letter: those of the entry, and what is known of its end.
  unfoldable pub dead_fields : Record → Text → Text → ℤ → ℤ → Fields
  dead_fields entry reason detail times_delivered at =
      put (text "dlq_at") (py.encode (py.str_int at)) (
        put (text "dlq_deliveries") (py.encode (py.str_int times_delivered)) (
          put (text "dlq_source") (py.encode entry.stream) (
            put (text "dlq_detail") (take max_detail_bytes (py.encode detail))
              (put (text "dlq_reason") (py.encode reason) entry.fields))))

  unfoldable pub dead_letter : Record → Text → Text → ℤ → Method Bytes
  dead_letter entry reason detail times_delivered = do
    at ← now_ms
    ask (xadd (dlq_key self.namespace) (dead_fields entry reason detail times_delivered at))
        redis.new_id

  unfoldable pub reclaim : Text → Bytes → ℤ → ℤ → Method (List Record)
  reclaim stream entry_id min_idle ttl = do
    reply ←
        ask
          (run_reclaim stream (alive_key self.namespace entry_id) self.group self.consumer min_idle
            entry_id ttl)
          redis.claimed
    lift (parse_xclaim_reply stream reply)

  unfoldable pub sweep_from : ℤ → ℤ → List Text → Method ℤ
  sweep_from min_idle deleted [] = pure deleted
  sweep_from min_idle deleted (stream ∷ more) = do
    n ← ask (run_sweep stream self.group min_idle) redis.number
    sweep_from min_idle (deleted +ℤ n) more

  unfoldable pub sweep_consumers : ℤ → Method ℤ
  unfolding sweep_from
  sweep_consumers min_idle = sweep_from min_idle (pos 0) (every_stream py redis self)

  -- `_entry_ms`
  unfoldable pub entry_ms : Bytes → Outcome ℤ
  entry_ms entry_id = or_raise value_error (py.int_bytes (before_dash entry_id))

  -- `min(a, b)`
  abbrev pub min_ℤ : ℤ → ℤ → ℤ
  min_ℤ a b = if ltb_ℤ b a then b else a

  unfoldable pub trim_limit : ℤ → Option Bytes → Outcome ℤ
  trim_limit floor none = returned floor
  trim_limit floor (some oldest) = elim (entry_ms oldest) [
    | returned ms ↦ returned (min_ℤ floor ms)
    | other ↦ other
  ]

  unfoldable pub trim_streams : ℤ → List Text → Method (Unit {0})
  trim_streams floor [] = pure tt
  trim_streams floor (stream ∷ more) = do
    oldest ← ask (xpending stream self.group) redis.oldest
    limit ← lift (trim_limit floor oldest)
    ask (xtrim stream limit) redis.done
    trim_streams floor more

  unfoldable pub trim : ℤ → Method (Unit {0})
  trim retention = do now ← now_ms; trim_streams (now -ℤ retention) (streams py redis self)

  -- The groups of one stream: `none` where the lag of this group is not known.
  unfoldable pub add_lags : ℤ → List (Bytes × Option ℤ) → Option ℤ
  add_lags total [] = some total
  add_lags total ((name, value) ∷ more) =
      if same name (py.encode self.group)
      then elim value [ none ↦ none | some n ↦ add_lags (total +ℤ n) more ]
      else add_lags total more

  unfoldable pub lag_from : ℤ → List Text → Method (Option ℤ)
  lag_from total [] = pure (some total)
  lag_from total (stream ∷ more) = do
    groups ← ask (xinfo_groups stream) redis.groups
    elim (add_lags total groups) [ none ↦ pure none | some total' ↦ lag_from total' more ]

  unfoldable pub lag : Method (Option ℤ)
  unfolding lag_from
  lag = lag_from (pos 0) (every_stream py redis self)
