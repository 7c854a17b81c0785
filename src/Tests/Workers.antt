-- ===== src/Tests/Workers.antt =====
-- Entries run by a worker.
use litestar_rs.Prelude.{[], ◌≡◌, ◌+◌, inl, refl, same}
use litestar_rs.Python.{plain, other, value_error}
use litestar_rs.Effect.{returned, raised, cancelled, ◌>>=◌, try_except}
use litestar_rs.Prelude.Dict.{put, lookup, put_some}
use litestar_rs.Core.Envelope.{from_fields, to_fields, join_lines}
use litestar_rs.Core.Floats.{whole}
use litestar_rs.Core.Worker.Handler.{run_one, attempt_entry, run_broker}
use litestar_rs.Core.Worker.Handler.Acks.{AckSafe, run_one-AckSafe}
use litestar_rs.Core.Worker.Handler.Ends.{entered, run_one_raised, undecodable_left_pending}
use litestar_rs.Core.Worker.Handler.Retries.{AllDue, run_one-AllDue}
use litestar_rs.Tests.Samples.{config, calm, failing, garbled, torn, entry, start, begun}

run_one-AckSafe_example :
    AckSafe plain calm entry
      (run_one whole plain calm config entry (record { state = start; trace = [] })).1.trace
run_one-AckSafe_example = run_one-AckSafe whole plain calm config entry start

run_one-AllDue_example :
    AllDue whole plain failing config entry
      (run_one whole plain failing config entry (record { state = start; trace = [] })).1.trace
run_one-AllDue_example = run_one-AllDue whole plain failing config entry start

run_one_raised_example :
    ((attempt_entry whole plain torn config entry (entered whole plain torn config entry begun)).0
      ≡ cancelled)
    × (torn.done
          (attempt_entry whole plain torn config entry
            (entered whole plain torn config entry begun)).1.trace
        ≡ raised (other 0))
unfolding run_one try_except attempt_entry run_broker ◌>>=◌
run_one_raised_example = run_one_raised whole plain torn config entry begun (other 0) refl

undecodable_left_pending_example :
    ((run_one whole plain calm config garbled begun).0 ≡ returned tt)
    × ((run_one whole plain calm config garbled begun).1.trace ≡ begun.trace)
    × ((run_one whole plain calm config garbled begun).1.state.stats.failed
        ≡ begun.state.stats.failed + 1)
unfolding from_fields to_fields put ◌>>=◌ lookup put_some same join_lines
undecodable_left_pending_example =
    undecodable_left_pending whole plain calm config garbled begun value_error refl refl (inl refl)
