-- ===== src/Litestar/Cli/Command.antt =====
-- The command that runs a worker: `plugin_of` and `run_workers` of src/smallage/litestar/cli.py.
use litestar_rs.Prelude.{Text, Option, none, List, [], ◌∷◌, if◌then◌else◌}
use litestar_rs.Prelude.Int.{ℤ}
use litestar_rs.Python.{Exn, other}
use litestar_rs.Effect.{
  Outcome, returned, raised, Event, Act, lift, asks, perform, modify, try_finally, ◌>>=◌, ◌>>◌,
}
use litestar_rs.Core.Floats.{Floats}
use litestar_rs.Core.Stats.{WorkerStats}
use litestar_rs.Core.Transport.{Transport}
use litestar_rs.Core.Worker.Config.{WorkerConfig}
use litestar_rs.Litestar.Plugin.{QueueConfig, Connections, transport_of}
use litestar_rs.Litestar.Cli.{WorkerArguments, worker_arguments, with_overrides}

-- A plugin of the application: the queue's, or another.
pub data AppPlugin : Type 0 where
  queue_plugin : AppPlugin
  other_plugin : AppPlugin

-- `click.ClickException`
abbrev pub click_exception : Exn
click_exception = other 3

-- `plugin_of`; there is one QueuePlugin, whose fields are the state of the command.
unfoldable pub plugin_of : List AppPlugin → Outcome (Unit {0})
plugin_of [] = raised click_exception
plugin_of (queue_plugin ∷ plugins) = returned tt
plugin_of (other_plugin ∷ plugins) = plugin_of plugins

-- What the command enters, runs and leaves.
pub data Starting (F V : Type 0) : Type 0 where
  enter_lifespan : Starting F V
  enter_connected : Option Text → Starting F V
  run_with_signals : Transport → List Text → WorkerConfig F → WorkerArguments V → Starting F V
  leave_opened : Starting F V

-- The fields of the plugin that the command reads and writes.
pub record Plugged (F V : Type 0) : Type 0 where
  pub config : QueueConfig F V
  pub connections : Connections

-- `opens` is what the entered context assigns to the plugin, and `handlers` what the registry gives.
pub record Shell (F V : Type 0) : Type 0 where
  pub done : List (Event (Starting F V)) → Outcome (Unit {0})
  pub opens : List (Event (Starting F V)) → Plugged F V → Plugged F V
  pub handlers : List Text

abbrev pub Command : Type 0 → Type 0 → Type 0
Command F V = Act (Plugged F V) (Starting F V) (Unit {0})

module _ {F V : Type 0} (fl : Floats F) (shell : Shell F V) (stats : WorkerStats) where
  -- `opened`
  abbrev pub opening : QueueConfig F V → Starting F V
  opening config = if config.run_app_lifespan then enter_lifespan else enter_connected none

  -- The block of `async with opened`.
  unfoldable pub serve_opened : QueueConfig F V → Command F V
  serve_opened config = do
    connections ← asks (λ w. w.state.connections)
    transport ← lift (transport_of connections)
    arguments ← lift (worker_arguments connections stats config)
    perform (run_with_signals transport shell.handlers config.worker arguments) shell.done
        (λ t s. s)

  -- `main`
  unfoldable pub main : QueueConfig F V → Command F V
  main config = do
    perform (opening config) shell.done shell.opens
    try_finally (serve_opened config) (perform leave_opened shell.done (λ t s. s))

  unfoldable pub run_workers : List AppPlugin → List Text → Option ℤ → Option Text → Command F V
  run_workers plugins queues concurrency consumer = do
    lift (plugin_of plugins)
    configured ← asks (λ w. w.state.config)
    config ← lift (with_overrides fl configured queues concurrency consumer)
    modify (λ s. record s { config = config })
    main config
