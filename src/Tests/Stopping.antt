-- ===== src/Tests/Stopping.antt =====
-- A worker that stops with a handler that outlasts the drain.
use litestar_rs.Prelude.{text, false, [], ◌∷◌}
use litestar_rs.Prelude.Int.{ℤ, pos}
use litestar_rs.Core.Floats.{whole}
use litestar_rs.Core.Worker.Shutdown.{Serving, begun, watch_signal, spawn, drain, leave}
use litestar_rs.Tests.Samples.{config}

-- One handler starts; a signal comes and the drain begins; its time runs out.
abbrev busy : Serving ℤ
busy = spawn whole config (text "1-0") (begun whole config (pos 0))

abbrev draining : Serving ℤ
draining = drain whole config (watch_signal whole config busy)

abbrev late : Serving ℤ
late = record draining { now = pos 100 }

abbrev stopped : Serving ℤ
stopped =
    leave whole config (record late { running = []; cut = text "1-0" ∷ []; reclaiming = false })

abbrev cut : Serving ℤ
cut = record late { running = []; cut = text "1-0" ∷ [] }
