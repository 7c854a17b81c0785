-- ===== src/Litestar/Plugin.antt =====
-- The plugin that opens the queue for an application: plugin.py and config.py of
-- src/smallage/litestar.
pub mod App
pub mod Connected
use litestar_rs.Prelude.{
  ℕ, Text, text, Bool, true, false, Option, some, none, List, [], ◌∷◌, ◌++◌, ◌≡◌, if◌then◌else◌,
}
use litestar_rs.Prelude.Int.{ℤ, pos}
use litestar_rs.Prelude.Dict.{first_some}
use litestar_rs.Python.{Python, configuration_error}
use litestar_rs.Effect.{
  Outcome, returned, raised, cancelled, Event, World, Act, pure, lift, asks, perform, modify,
  try_finally, ◌>>=◌, ◌>>◌,
}
use litestar_rs.Core.Cron.{CronJob}
use litestar_rs.Core.Envelope.{or_raise}
use litestar_rs.Core.Floats.{Floats}
use litestar_rs.Core.Results.{RedisResultStore}
use litestar_rs.Core.Scheduler.{RedisScheduler}
use litestar_rs.Core.Stats.{WorkerStats}
use litestar_rs.Core.Transport.{Transport}
use litestar_rs.Core.Transport.Setup.{Options}
use litestar_rs.Core.Worker.Config.{WorkerConfig, check_config}
use litestar_rs.Litestar.Di.{keys}
use litestar_rs.Litestar.Registry.{TraceparentSource}
use litestar_rs.Litestar.Registry.Calls.{Binding}

-- The fields but for `registry`, whose state is the TaskRegistry of Registry. `V` is the type of the
-- objects that the application hands in.
pub record QueueConfig (F V : Type 0) : Type 0 where
  pub redis_url : Text
  pub namespace : Text
  pub queues : List Text
  pub shards : ℤ
  pub group : Text
  pub consumer_prefix : Text
  pub consumer : Option Text
  pub block_ms : ℤ
  pub worker : WorkerConfig F
  pub run_app_lifespan : Bool
  pub cron : List CronJob
  pub result_ttl_ms : ℤ
  pub fairness_every : ℤ
  pub max_payload_bytes : ℤ
  pub payloads : Option V
  pub thread_limit : ℤ
  pub offload_over_bytes : ℤ
  pub brokers : List (Text × V)
  pub traceparent : TraceparentSource V

-- `connection_kwarg` of a client.
pub record Client (F : Type 0) : Type 0 where
  pub decodes : Bool
  pub socket_timeout : Option F

-- The fields of the plugin that `connected` assigns.
pub record Connections : Type 0 where
  pub transport : Option Transport
  pub scheduler : Option RedisScheduler
  pub results : Option RedisResultStore

abbrev pub disconnected : Connections
disconnected = record { transport = none; scheduler = none; results = none }

-- `run_block` is what stands between the two halves of `connected`, and sees the fields.
pub data Connecting (F : Type 0) : Type 0 where
  open_reader : Text → F → Connecting F
  open_control : Text → Connecting F
  ensure_group : Transport → Connecting F
  run_block : Connections → Connecting F
  close_reader : Connecting F
  close_control : Connecting F

abbrev pub Trace : Type 0 → Type 0
Trace F = List (Event (Connecting F))

pub record Server (F : Type 0) : Type 0 where
  pub client : Trace F → Outcome (Client F)
  pub done : Trace F → Outcome (Unit {0})
  -- the first eight digits of `uuid4().hex`
  pub digits : Trace F → Text

abbrev pub Opening : Type 0 → Type 0 → Type 0
Opening F A = Act Connections (Connecting F) A

-- `_consumer_name`
unfoldable pub consumer_name : {F V : Type 0} → QueueConfig F V → Option Text → Text → Text
consumer_name config override digits = elim (first_some override config.consumer) [
  | none ↦ config.consumer_prefix ++ text "-" ++ digits
  | some named ↦ named
]

-- `QueueConfig.__post_init__`
unfoldable pub check_queue_config : {F V : Type 0} → QueueConfig F V → Outcome (QueueConfig F V)
check_queue_config config = elim config.redis_url [
  | [] ↦ raised configuration_error
  | c ∷ rest ↦ returned config
]

-- `external`
unfoldable pub external : {F V : Type 0} → QueueConfig F V → List Text
external config = keys config.brokers

-- The property `transport`; the two others are like it.
unfoldable pub transport_of : Connections → Outcome Transport
transport_of connections = or_raise configuration_error connections.transport

unfoldable pub scheduler_of : Connections → Outcome RedisScheduler
scheduler_of connections = or_raise configuration_error connections.scheduler

unfoldable pub results_of : Connections → Outcome RedisResultStore
results_of connections = or_raise configuration_error connections.results

-- What `on_app_init` passes to `TaskRegistry.bind`, with the plugin itself as the enqueuer and as the
-- result store.
unfoldable pub binding_of : {F V : Type 0} → QueueConfig F V → V → Option V → Option V → Binding V
binding_of config plugin type_encoders type_decoders = record {
  enqueuer = plugin;
  type_encoders = type_encoders;
  type_decoders = type_decoders;
  traceparent = config.traceparent;
  results = some plugin;
  payloads = config.payloads;
  thread_limit = config.thread_limit;
  offload_over_bytes = config.offload_over_bytes;
}

module _ {F : Type 0} (server : Server F) where
  -- The end of the body of `try`: the group, and the block.
  unfoldable pub open_block : Transport → Opening F (Unit {0})
  open_block transport = do
    perform (ensure_group transport) server.done (λ t s. s)
    seen ← asks (λ w. w.state)
    perform (run_block seen) server.done (λ t s. s)

  unfoldable pub disconnect : Opening F (Unit {0})
  disconnect = do
    modify (λ s. disconnected)
    perform close_reader server.done (λ t s. s)
    perform close_control server.done (λ t s. s)

module _ {F V : Type 0} (fl : Floats F) (py : Python) (server : Server F)
    (config : QueueConfig F V) where
  -- `config.block_ms / 1000 + 30`
  abbrev pub reader_timeout : F
  reader_timeout =
      fl.add (fl.div (fl.of_int config.block_ms) (fl.of_int (pos 1000))) (fl.of_int (pos 30))

  abbrev pub options_of : Client F → Client F → Text → Options F
  options_of reader control consumer = record {
    is_one_client = false;
    reader_decodes = reader.decodes;
    control_decodes = control.decodes;
    socket_timeout = reader.socket_timeout;
    consumer = consumer;
    namespace = config.namespace;
    queues = config.queues;
    shards = config.shards;
    fairness_every = config.fairness_every;
    external = external config;
    group = config.group;
    block_ms = config.block_ms;
    max_payload_bytes = config.max_payload_bytes;
  }

  -- The body of `try`.
  unfoldable pub use_queue : Option Text → Client F → Client F → Opening F (Unit {0})
  use_queue consumer reader control = do
    name ← asks (λ w. consumer_name config consumer (server.digits w.trace))
    transport ← lift (litestar_rs.Core.Transport.Setup.init fl py (options_of reader control name))
    modify (λ s. record s { transport = some transport })
    scheduler ←
        lift (litestar_rs.Core.Scheduler.init control.decodes config.namespace config.shards)
    modify (λ s. record s { scheduler = some scheduler })
    results ←
        lift (litestar_rs.Core.Results.init control.decodes config.namespace config.result_ttl_ms)
    modify (λ s. record s { results = some results })
    open_block server transport

  unfoldable pub connected : Option Text → Opening F (Unit {0})
  connected consumer = do
    reader ← perform (open_reader config.redis_url reader_timeout) server.client (λ t s. s)
    control ← perform (open_control config.redis_url) server.client (λ t s. s)
    try_finally (use_queue consumer reader control) (disconnect server)
