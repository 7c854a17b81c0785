-- ===== src/Tests/Wire.antt =====
-- The wire format and the history of a retry.
use litestar_rs.Prelude.{refl, ◌+◌, ◌-◌, ◌++◌, drop, take, ◌≡◌, has_char, arith, text, [], ◌∷◌}
use litestar_rs.Prelude.Int.{pos, pos_part}
use litestar_rs.Python.{plain, other}
use litestar_rs.Effect.{returned}
use litestar_rs.Core.Envelope.{from_fields, to_fields}
use litestar_rs.Core.Envelope.Roundtrip
use litestar_rs.Core.Retry.{record_failure, failure_line}
use litestar_rs.Core.Retry.History.{IsCompact, record_failure-IsCompact}
use litestar_rs.Tests.Samples.{job, policy}

from_fields-to_fields_example : from_fields plain (to_fields plain job) ≡ returned job
unfolding has_char
from_fields-to_fields_example = Roundtrip.from_fields-to_fields plain job (refl, tt) (λ e. cc)

record_failure-IsCompact_example :
    (record_failure plain policy (text "0: Error: boom" ∷ []) (pos 1) (other 0)
      ≡ drop (1 + 1 - pos_part policy.history_limit) (text "0: Error: boom" ∷ [])
        ++ take (pos_part policy.history_line_bytes) (failure_line plain (pos 1) (other 0)) ∷ [])
    × IsCompact policy (record_failure plain policy (text "0: Error: boom" ∷ []) (pos 1) (other 0))
unfolding has_char
record_failure-IsCompact_example =
    record_failure-IsCompact plain policy (text "0: Error: boom" ∷ []) (pos 1) (other 0)
      (omega arith) (omega arith)
      (record {
        few = omega arith;
        short = (omega arith, tt);
        solid = (omega arith, tt);
        clean = (refl, tt);
      })
