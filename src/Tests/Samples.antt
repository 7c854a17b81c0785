-- ===== src/Tests/Samples.antt =====
-- The jobs, policies and environments that the tests run on.
use litestar_rs.Prelude.{Text, text, true, false, some, none, [], ◌∷◌}
use litestar_rs.Prelude.Int.{ℤ, pos}
use litestar_rs.Python.{plain, other}
use litestar_rs.Effect.{Outcome, returned, cancelled, raised, World}
use litestar_rs.Core.Envelope.{Envelope, Record, Pending, to_fields}
use litestar_rs.Core.Retry.{RetryPolicy}
use litestar_rs.Prelude.Dict.{put}
use litestar_rs.Core.Stats.{no_stats}
use litestar_rs.Core.Worker.Config.{WorkerConfig}
use litestar_rs.Core.Worker.Calls.{State, Call, Env, Trace}
use litestar_rs.Core.Transport.{Transport}
use litestar_rs.Core.Transport.Commands.{Redis}

abbrev pub job : Envelope
job = record {
  id = text "j1";
  task = text "charge";
  payload = text "{}";
  enqueued_at = pos 5;
  attempt = pos 0;
  payload_ref = none;
  traceparent = some (text "00-abc");
  tracestate = none;
  dedup = some (text "invoice-42");
  result_ttl_ms = some (pos 1000);
  history = text "0: Error: boom" ∷ [];
}

abbrev pub policy : RetryPolicy ℤ
policy = record {
  max_attempts = pos 3;
  max_deliveries = pos 5;
  initial_backoff_ms = pos 1000;
  max_backoff_ms = pos 300000;
  multiplier = pos 2;
  jitter = pos 0;
  unknown_task_timeout_ms = pos 21600000;
  unknown_task_backoff_ms = pos 30000;
  history_limit = pos 10;
  history_line_bytes = pos 200;
}

abbrev pub config : WorkerConfig ℤ
config = record {
  concurrency = pos 10;
  alive_ttl_ms = pos 30000;
  min_idle_ms = pos 60000;
  reclaim_interval_s = pos 5;
  trim_interval_s = pos 60;
  retention_ms = pos 86400000;
  consumer_idle_ms = pos 3600000;
  drain_timeout_s = pos 30;
  retry = policy;
  dedup_ttl_ms = pos 86400000;
  leader_ttl_ms = pos 15000;
  scheduler_interval_s = pos 1;
  promote_limit = pos 100;
  recovery_interval_s = pos 1;
}

abbrev pub stream : Text
stream = text "{lrs}:q:default:0"

abbrev pub entry : Record
entry = record { stream = stream; entry_id = text "7-0"; fields = to_fields plain job }

-- Everything succeeds and nothing else runs.
abbrev pub calm : Env ℤ
calm = record {
  consumer = text "worker-1";
  is_external = λ s. false;
  queue_of = λ s. some (text "default");
  has_task = λ t. true;
  has_broker = λ s. false;
  has_results = true;
  random = λ t. pos 0;
  is_stopped = λ t. false;
  others = λ t s. s;
  done = λ t. returned tt;
  read = λ t. returned [];
  claim_dedup = λ t. returned true;
  pending = λ t. returned [];
  reclaim = λ t. returned [];
  now_ms = λ t. returned (pos 100);
  hold_leadership = λ t. returned true;
  handle = λ t. returned none;
}

abbrev pub start : State
start = record {
  slots = record { ids = text "7-0" ∷ []; unhandled = []; recoverable = []; freed = false };
  stats = no_stats;
}

abbrev pub begun : World State (Call ℤ)
begun = record { state = start; trace = [] }

-- The task fails.
abbrev pub failing : Env ℤ
failing = record calm { handle = λ t. raised (other 0) }

-- The first call is cancelled, and the others fail.
abbrev fails_later : Trace ℤ → Outcome (Unit {0})
fails_later [] = cancelled
fails_later (event ∷ before) = raised (other 0)

-- The handler of a stream from outside is cancelled.
abbrev pub torn : Env ℤ
torn = record calm { has_broker = λ s. true; is_external = λ s. true; done = fails_later }

-- The number of attempts is not a number.
abbrev pub garbled : Record
garbled = record entry { fields = put (text "attempt") (text "one") (to_fields plain job) }

abbrev pub crashed : Pending
crashed = record {
  stream = stream;
  entry_id = text "9-0";
  consumer = text "worker-2";
  times_delivered = pos 6;
}

abbrev pub recovering : Env ℤ
recovering = record calm { reclaim = λ t. returned (record entry { entry_id = text "9-0" } ∷ []) }

abbrev pub transport : Transport
transport = record {
  consumer = text "worker-1";
  namespace = text "lrs";
  queues = text "high" ∷ text "low" ∷ [];
  group = text "workers";
  block_ms = pos 5000;
  shards = pos 1;
  fairness_every = 3;
  max_payload_bytes = pos 131072;
  streams_by_queue =
      (text "high", text "{lrs}:q:high:0" ∷ []) ∷ (text "low", text "{lrs}:q:low:0" ∷ []) ∷ [];
  external_streams = [];
}

-- Every read finds one entry of the first queue.
abbrev pub redis : Redis
redis = record {
  is_busygroup = λ e. true;
  done = λ t. returned tt;
  new_id = λ t. returned (text "8-0");
  read = λ t. returned ((text "{lrs}:q:high:0", (text "7-0", []) ∷ []) ∷ []);
  flag = λ t. returned true;
  number = λ t. returned (pos 1);
  held = λ t. returned [];
  time = λ t. returned (pos 5, pos 7000);
  oldest = λ t. returned none;
  groups = λ t. returned [];
  claimed = λ t. returned [];
}
