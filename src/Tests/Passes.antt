-- ===== src/Tests/Passes.antt =====
-- Passes of the worker's loops.
use litestar_rs.Prelude.{[], refl, text, true}
use litestar_rs.Python.{plain}
use litestar_rs.Core.Retry.{over_delivered}
use litestar_rs.Core.Floats.{whole}
use litestar_rs.Core.Worker.Loops.{run, scheduler_loop, reclaim_candidate}
use litestar_rs.Core.Worker.Loops.Consuming.{AllProper, run-AllProper}
use litestar_rs.Core.Worker.Loops.Leading.{AllLed, EndsReleased, scheduler_loop-AllLed}
use litestar_rs.Core.Worker.Loops.Reclaiming.{OnlyBurials, reclaim_candidate-OnlyBurials}
use litestar_rs.Tests.Samples.{config, calm, recovering, crashed, start}

run-AllProper_example :
    AllProper config (run whole plain calm config 2 (record { state = start; trace = [] })).1.trace
run-AllProper_example = run-AllProper whole plain calm config 2 start

scheduler_loop-AllLed_example :
    AllLed calm
      (text "token")
      (scheduler_loop whole plain calm config
        (text "token")
        true
        2
        (record { state = start; trace = [] })).1.trace
    × EndsReleased whole plain calm config
        (text "token")
        (scheduler_loop whole plain calm config
          (text "token")
          true
          2
          (record { state = start; trace = [] })).1.trace
scheduler_loop-AllLed_example =
    scheduler_loop-AllLed whole plain calm config (text "token") true 2 start

reclaim_candidate-OnlyBurials_example :
    OnlyBurials
      (reclaim_candidate whole plain recovering config crashed
        (record { state = start; trace = [] })).1.trace
unfolding over_delivered
reclaim_candidate-OnlyBurials_example =
    reclaim_candidate-OnlyBurials whole plain recovering config crashed start refl
