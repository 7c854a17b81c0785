-- ===== src/Tests/Plugins.antt =====
-- An application that opens its queue, and a command line.
use litestar_rs.Prelude.{Text, text, true, false, some, none, refl, [], ◌∷◌, ◌≡◌}
use litestar_rs.Prelude.Int.{ℤ, pos}
use litestar_rs.Python.{plain, other}
use litestar_rs.Effect.{returned, raised}
use litestar_rs.Core.Floats.{whole}
use litestar_rs.Litestar.Registry.{no_traceparent}
use litestar_rs.Litestar.Plugin.{QueueConfig, Server, disconnected, connected, consumer_name}
use litestar_rs.Litestar.Plugin.Connected.{IsOver, connected-IsOver}
use litestar_rs.Litestar.Cli.{
  with_overrides, override_queues, override_concurrency, override_consumer,
}
use litestar_rs.Tests.Samples.{config}

abbrev pub queue_config : QueueConfig ℤ Text
queue_config = record {
  redis_url = text "redis://";
  namespace = text "lrs";
  queues = text "default" ∷ [];
  shards = pos 1;
  group = text "workers";
  consumer_prefix = text "worker";
  consumer = none;
  block_ms = pos 5000;
  worker = config;
  run_app_lifespan = true;
  cron = [];
  result_ttl_ms = pos 3600000;
  fairness_every = pos 10;
  max_payload_bytes = pos 131072;
  payloads = none;
  thread_limit = pos 20;
  offload_over_bytes = pos 131072;
  brokers = [];
  traceparent = no_traceparent;
}

-- Redis is reached, and the group cannot be made.
abbrev server : Server ℤ
server = record {
  client = λ t. returned (record { decodes = false; socket_timeout = some (pos 35000) });
  done = λ t. raised (other 0);
  digits = λ t. text "0a1b2c3d";
}

named_by_prefix : consumer_name queue_config none (text "0a1b2c3d") ≡ text "worker-0a1b2c3d"
unfolding consumer_name
named_by_prefix = refl

-- An empty name is passed through.
named_empty : consumer_name queue_config (some []) (text "0a1b2c3d") ≡ []
unfolding consumer_name
named_empty = refl

nothing_overridden : with_overrides whole queue_config [] none none ≡ returned queue_config
unfolding with_overrides override_queues override_concurrency override_consumer
nothing_overridden = refl

connected-IsOver_example :
    IsOver
      (connected whole plain server queue_config
        (some (text "w1"))
        (record { state = disconnected; trace = [] })).1
connected-IsOver_example = connected-IsOver whole plain server queue_config (some (text "w1"))
