-- ===== src/Litestar/Registry/Calls.antt =====
-- What the tasks of a registry call and keep: the calls and the context variables of
-- src/smallage/litestar/registry.py and tracing.py, and the answers to the calls.
use litestar_rs.Prelude.{Text, Bytes, Option, List}
use litestar_rs.Prelude.Int.{ℤ}
use litestar_rs.Effect.{Outcome, Event}
use litestar_rs.Core.Envelope.{Envelope, TaskResult}
use litestar_rs.Litestar.Di.Resolving.{Use, Application}
use litestar_rs.Litestar.Registry.{Function, TaskRegistry, TraceparentSource}

-- How `_call` runs a function: on a thread of the limiter, awaited, or awaited within a time limit.
pub data Invocation (V : Type 0) : Type 0 where
  on_thread : V → Function V → List (Text × V) → Invocation V
  awaited : Function V → List (Text × V) → Invocation V
  awaited_within : V → Function V → List (Text × V) → Invocation V

pub data Call (V : Type 0) : Type 0 where
  put_payload : V → Text → Bytes → Call V
  get_payload : V → Text → Call V
  get_result : V → Text → Call V
  read_traceparent : V → Call V
  publish : V → Envelope → Text → Call V
  depend : Use (Invocation V) V → Call V

abbrev pub Calls : Type 0 → Type 0
Calls V = List (Event (Call V))

-- What is called answers, the clock and the ids that uuid4 makes.
pub record Env (V : Type 0) : Type 0 where
  pub stored : V → Text → Bytes → Calls V → Outcome Text
  pub fetched : V → Text → Calls V → Outcome Bytes
  pub result_of : V → Text → Calls V → Outcome (Option TaskResult)
  pub traceparent_of : V → Calls V → Outcome (Option Text)
  pub published : V → Envelope → Text → Calls V → Outcome Bytes
  pub application : Calls V → Application (Invocation V) V
  pub uuid : Calls V → Text
  pub now_ms : Calls V → ℤ

-- The registry, and the two context variables as the running coroutine sees them.
pub record Process (V T : Type 0) : Type 0 where
  pub registry : TaskRegistry V T
  pub current_enqueuer : Option V
  pub current_traceparent : Option Text

-- The arguments of `bind`.
pub record Binding (V : Type 0) : Type 0 where
  pub enqueuer : V
  pub type_encoders : Option V
  pub type_decoders : Option V
  pub traceparent : TraceparentSource V
  pub results : Option V
  pub payloads : Option V
  pub thread_limit : ℤ
  pub offload_over_bytes : ℤ
