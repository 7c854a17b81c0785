-- ===== src/Core/Keys.antt =====
-- The Redis key schema: src/smallage/core/keys.py. `zlib.crc32` is a parameter.
pub mod Schema
use litestar_rs.Prelude.{
  ℕ, zero, suc, ◌%◌, Text, Bytes, text, Bool, true, false, ◌||◌, Option, List, [], ◌∷◌, ◌++◌, map,
  length, get_elem?, has_char, if◌then◌else◌,
}
use litestar_rs.Prelude.Int.{ℤ, pos, ltb_ℤ, pos_part}
use litestar_rs.Python.{Python, configuration_error, key_error}
use litestar_rs.Effect.{Outcome, returned, raised}
use litestar_rs.Core.Envelope.{◌>>=◌, ◌>>◌, or_raise}

abbrev is_empty : Text → Bool
is_empty [] = true
is_empty (c ∷ s) = false

-- `_validate`, of which `validate_namespace` and `validate_queue` are the two uses
unfoldable pub validate : Text → Outcome Text
validate value =
    if is_empty value
    then raised configuration_error
    else if has_char b'{' value || has_char b'}' value || has_char b':' value
    then raised configuration_error
    else returned value

-- `range(n)` from a start
unfoldable pub range_from : ℕ → ℕ → List ℕ
range_from start zero = []
range_from start (suc n) = start ∷ range_from (suc start) n

-- `f"{{{namespace}}}:{rest}"`
unfoldable pub tagged : Text → Text → Text
tagged namespace rest = b'{' ∷ (namespace ++ (b'}' ∷ b':' ∷ rest))

module _ (py : Python) where
  unfoldable pub stream_key : Text → Text → ℕ → Text
  unfolding tagged
  stream_key namespace queue shard =
      tagged namespace (text "q:" ++ (queue ++ (b':' ∷ py.str_int (pos shard))))

  unfoldable pub stream_keys : Text → Text → ℤ → Outcome (List Text)
  stream_keys namespace queue shards =
      if ltb_ℤ shards (pos 1)
      then raised configuration_error
      else returned (map (stream_key namespace queue) (range_from 0 (pos_part shards)))

  unfoldable pub stream_for : (Bytes → ℕ) → Text → Text → ℤ → Text → Outcome Text
  stream_for crc32 namespace queue shards routing_key = do
    streams ← stream_keys namespace queue shards
    or_raise key_error (get_elem? streams (crc32 (py.encode routing_key) % length streams))

-- The id of an entry is ASCII, which decodes to itself.
unfoldable pub alive_key : Text → Bytes → Text
alive_key namespace entry_id = tagged namespace (text "alive:" ++ entry_id)

unfoldable pub dedup_key : Text → Text → Text
dedup_key namespace key = tagged namespace (text "dedup:" ++ key)

unfoldable pub sched_key : Text → Text
sched_key namespace = tagged namespace (text "sched")

unfoldable pub sched_job_key : Text → Text → Text
sched_job_key namespace scheduled_id = tagged namespace (text "sched:job:" ++ scheduled_id)

unfoldable pub leader_key : Text → Text
leader_key namespace = tagged namespace (text "leader")

unfoldable pub result_key : Text → Text → Text
result_key namespace job_id = tagged namespace (text "result:" ++ job_id)

unfoldable pub result_wait_key : Text → Text → Text
result_wait_key namespace job_id = tagged namespace (text "result:wait:" ++ job_id)

unfoldable pub dlq_key : Text → Text
dlq_key namespace = tagged namespace (text "dlq")
