-- ===== src/Tests/Commands.antt =====
-- A command line that starts a worker.
use litestar_rs.Prelude.{Text, text, some, none, ◌≡◌, ◌⊎◌, List, [], ◌∷◌}
use litestar_rs.Prelude.Int.{ℤ, pos}
use litestar_rs.Effect.{returned, raised}
use litestar_rs.Python.{other}
use litestar_rs.Core.Floats.{whole}
use litestar_rs.Core.Stats.{no_stats}
use litestar_rs.Litestar.Plugin.{QueueConfig, disconnected}
use litestar_rs.Litestar.Cli.Overriding.{overridden, IsRefused}
use litestar_rs.Litestar.Cli.Command.{
  AppPlugin, queue_plugin, other_plugin, Plugged, Shell, run_workers,
}
use litestar_rs.Litestar.Cli.Started.{AreOthers, Started, run_workers-Started}
use litestar_rs.Tests.Samples.{transport}
use litestar_rs.Tests.Plugins.{queue_config}

abbrev plugged : Plugged ℤ Text
plugged = record { config = queue_config; connections = disconnected }

-- Everything opens; the worker fails.
abbrev shell : Shell ℤ Text
shell = record {
  done = λ t. elim t [ [] ↦ returned tt | event ∷ before ↦ raised (other 0) ];
  opens = λ t s. record s {
    connections = record {
      transport = some transport;
      scheduler = some (record { namespace = text "lrs"; shards = pos 1 });
      results = some (record { namespace = text "lrs"; default_ttl_ms = pos 1000 });
    };
  };
  handlers = text "mail" ∷ [];
}

abbrev plugins : List AppPlugin
plugins = other_plugin ∷ queue_plugin ∷ []

abbrev asked : QueueConfig ℤ Text
asked = overridden whole queue_config (text "mail" ∷ []) (some (pos 2)) none

run_workers-Started_example :
    ((AreOthers plugins ⊎ IsRefused whole queue_config (some (pos 2)))
      × ((run_workers whole shell no_stats plugins
            (text "mail" ∷ [])
            (some (pos 2))
            none
            (record { state = plugged; trace = [] })).1.trace
          ≡ []))
    ⊎ Started shell no_stats asked
        (shell.opens [] (record plugged { config = asked })).connections
        (run_workers whole shell no_stats plugins
          (text "mail" ∷ [])
          (some (pos 2))
          none
          (record { state = plugged; trace = [] })).1.trace
run_workers-Started_example =
    run_workers-Started whole shell no_stats plugins (text "mail" ∷ []) (some (pos 2)) none plugged
