-- ===== src/Tests/Transports.antt =====
-- The transport on a Redis whose every read finds an entry.
use mathlib.Core.List.{reverse}
use litestar_rs.Prelude.{some, none, false, ℕ, ◌+◌, ◌<◌, [], ◌∷◌, ◌≡◌, refl, text, arith}
use litestar_rs.Prelude.Int.{ℤ, pos}
use litestar_rs.Python.{plain, value_error}
use litestar_rs.Effect.{raised, ◌>>=◌, pure, lift, asks, modify, perform}
use litestar_rs.Core.Envelope.{from_fields}
use litestar_rs.Core.Transport.{
  Transport, read_entries, read_own, sweep, read_streams, records_from_read, records_of, streams_of,
  priority_order, all_streams,
}
use litestar_rs.Core.Transport.Order.{priority_order_fair}
use litestar_rs.Core.Transport.Reading.{delivered, delivered-read_entries}
use litestar_rs.Core.Transport.Parking.{from_fields-dead_fields}
use litestar_rs.Core.Transport.Replies.{parse_xclaim_reply, pairs_of}
use litestar_rs.Core.Transport.Upkeep.{dead_fields, trim}
use litestar_rs.Core.Transport.Upkeep.Trimming.{AllSparing, trim-AllSparing}
use litestar_rs.Core.Keys.{stream_key}
use litestar_rs.Core.Transport.Setup.{Options}
use litestar_rs.Tests.Samples.{transport, redis, entry}

priority_order_fair_example :
    (i : ℕ) × (i < transport.fairness_every)
    × (priority_order plain redis transport (4 + i) ≡ reverse transport.queues)
priority_order_fair_example = priority_order_fair plain redis transport 4 (omega arith)

delivered-read_entries_example :
    delivered plain redis transport
      (read_entries plain redis transport (pos 10) (record { state = 0; trace = [] })).1.trace
    ≡ record { stream = text "{lrs}:q:high:0"; entry_id = text "7-0"; fields = [] } ∷ []
unfolding read_entries read_own sweep read_streams records_from_read records_of streams_of
    priority_order all_streams ◌>>=◌ pure lift asks modify perform
delivered-read_entries_example = delivered-read_entries plain redis transport (pos 10) 0 _ refl

from_fields-dead_fields_example :
    from_fields plain (
      dead_fields plain redis transport entry (text "exhausted") (text "Traceback") (pos 1) (pos 9))
    ≡ from_fields plain entry.fields
from_fields-dead_fields_example =
    from_fields-dead_fields plain redis transport entry (text "exhausted") (text "Traceback")
      (pos 1) (pos 9)

trim-AllSparing_example :
    AllSparing plain redis transport
      (trim plain redis transport (pos 1000) (record { state = 0; trace = [] })).1.trace
trim-AllSparing_example = trim-AllSparing plain redis transport (pos 1000) 0

abbrev options : Options ℤ
options = record {
  is_one_client = false;
  reader_decodes = false;
  control_decodes = false;
  socket_timeout = some (pos 10);
  consumer = text "worker-1";
  namespace = text "lrs";
  queues = text "high" ∷ text "low" ∷ [];
  shards = pos 1;
  fairness_every = pos 3;
  external = text "orders" ∷ [];
  group = text "workers";
  block_ms = pos 5000;
  max_payload_bytes = pos 131072;
}

abbrev built : Transport
built = record transport {
  external_streams = text "orders" ∷ [];
  streams_by_queue =
      (text "high", stream_key plain (text "lrs") (text "high") 0 ∷ [])
      ∷ (text "low", stream_key plain (text "lrs") (text "low") 0 ∷ [])
      ∷ [];
}

-- An entry with a field and no value is refused.
odd_reply :
    parse_xclaim_reply (text "s") (some (text "7-0", text "v" ∷ []) ∷ none ∷ [])
    ≡ raised value_error
unfolding parse_xclaim_reply pairs_of
odd_reply = refl
