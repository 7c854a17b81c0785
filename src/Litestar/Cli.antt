-- ===== src/Litestar/Cli.antt =====
-- What the command line makes of the configuration: src/smallage/litestar/cli.py.
pub mod Command
pub mod Overriding
pub mod Started
use litestar_rs.Prelude.{Text, Option, some, none, List, [], ◌∷◌}
use litestar_rs.Prelude.Int.{ℤ}
use litestar_rs.Effect.{Outcome, returned}
use litestar_rs.Core.Cron.{CronJob}
use litestar_rs.Core.Envelope.{◌>>=◌, ◌>>◌}
use litestar_rs.Core.Floats.{Floats}
use litestar_rs.Core.Results.{RedisResultStore}
use litestar_rs.Core.Scheduler.{RedisScheduler}
use litestar_rs.Core.Stats.{WorkerStats}
use litestar_rs.Core.Worker.Config.{WorkerConfig, check_config}
use litestar_rs.Litestar.Plugin.{
  QueueConfig, Connections, check_queue_config, scheduler_of, results_of,
}

pub record WorkerArguments (V : Type 0) : Type 0 where
  pub scheduler : RedisScheduler
  pub results : RedisResultStore
  pub brokers : List (Text × V)
  pub stats : WorkerStats
  pub cron : List CronJob

module _ {F V : Type 0} where
  unfoldable pub worker_arguments :
      Connections → WorkerStats → QueueConfig F V → Outcome (WorkerArguments V)
  worker_arguments plugin stats config = do
    scheduler ← scheduler_of plugin
    results ← results_of plugin
    returned (record {
      scheduler = scheduler;
      results = results;
      brokers = config.brokers;
      stats = stats;
      cron = config.cron;
    })

  -- `replace` makes a new object, which is checked again.
  unfoldable pub override_queues : List Text → QueueConfig F V → Outcome (QueueConfig F V)
  override_queues [] config = returned config
  override_queues (queue ∷ queues) config =
      check_queue_config (record config { queues = queue ∷ queues })

  unfoldable pub override_concurrency :
      Floats F → Option ℤ → QueueConfig F V → Outcome (QueueConfig F V)
  override_concurrency fl none config = returned config
  override_concurrency fl (some concurrency) config = do
    let worker : WorkerConfig F = record config.worker { concurrency = concurrency }
    check_config fl worker
    check_queue_config (record config { worker = worker })

  unfoldable pub override_consumer : Option Text → QueueConfig F V → Outcome (QueueConfig F V)
  override_consumer none config = returned config
  override_consumer (some consumer) config =
      check_queue_config (record config { consumer = some consumer })

  unfoldable pub with_overrides :
      Floats F → QueueConfig F V → List Text → Option ℤ → Option Text → Outcome (QueueConfig F V)
  with_overrides fl config queues concurrency consumer = do
    queued ← override_queues queues config
    sized ← override_concurrency fl concurrency queued
    override_consumer consumer sized
