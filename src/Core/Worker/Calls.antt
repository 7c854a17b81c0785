-- ===== src/Core/Worker/Calls.antt =====
-- What the worker calls: the protocols of src/smallage/core/protocols.py that it is given, the
-- application's handlers, and the clock. Each is an await, whose answer the environment chooses.
use litestar_rs.Prelude.{Text, Bytes, Bool, Option, List}
use litestar_rs.Prelude.Int.{ℤ}
use litestar_rs.Effect.{Outcome, Event, Act, perform}
use litestar_rs.Core.Envelope.{Envelope, Record, Pending, TaskResult}
use litestar_rs.Core.Stats.{WorkerStats}
use litestar_rs.Core.Worker.Config.{Slots}

-- What the coroutines of one worker share.
pub record State : Type 0 where
  pub slots : Slots
  pub stats : WorkerStats

pub data Call (F : Type 0) : Type 0 where
  -- StreamTransport
  ensure_group : Call F
  read : ℤ → Call F
  mark_alive refresh_alive : List Bytes → ℤ → Call F
  clear_alive : List Bytes → Call F
  claim_dedup : Text → Text → ℤ → Call F
  ack : Text → List Bytes → Call F
  pending : ℤ → ℤ → Call F
  dead_letter : Record → Text → Text → ℤ → Call F
  reclaim : Text → Bytes → ℤ → ℤ → Call F
  trim sweep_consumers : ℤ → Call F
  -- Scheduler
  now_ms : Call F
  schedule_at : Envelope → Text → ℤ → Text → Call F
  hold_leadership : Text → ℤ → Call F
  release_leadership : Text → Call F
  schedule_cron : Call F
  promote : ℤ → Call F
  -- TaskHandler, BrokerHandler, ResultStore, Sleeper, and the start of a handler
  handle : Envelope → Call F
  handle_broker : Record → Call F
  store : Text → TaskResult → ℤ → Call F
  sleep : F → Call F
  wait_for_slot : Call F
  spawn : Record → Call F

abbrev pub Trace : Type 0 → Type 0
Trace F = List (Event (Call F))

abbrev pub Coroutine : Type 0 → Type 0 → Type 0
Coroutine F A = Act State (Call F) A

pub record Env (F : Type 0) : Type 0 where
  -- plain attributes and methods of the transport; `none` is KeyError
  pub consumer : Text
  pub is_external : Text → Bool
  pub queue_of : Text → Option Text
  -- whether a task, a broker stream, a result store are there
  pub has_task : Text → Bool
  pub has_broker : Text → Bool
  pub has_results : Bool
  -- `random.random()` and `stop.is_set()`
  pub random : Trace F → F
  pub is_stopped : Trace F → Bool
  -- what the other coroutines of the worker do during an await
  pub others : Trace F → State → State
  pub done : Trace F → Outcome (Unit {0})
  pub read : Trace F → Outcome (List Record)
  pub claim_dedup : Trace F → Outcome Bool
  pub pending : Trace F → Outcome (List Pending)
  pub reclaim : Trace F → Outcome (List Record)
  pub now_ms : Trace F → Outcome ℤ
  pub hold_leadership : Trace F → Outcome Bool
  -- the value of a handler, where it is bytes
  pub handle : Trace F → Outcome (Option Bytes)

module _ {F : Type 0} (env : Env F) where
  -- `await f(...)`
  abbrev pub call : {A : Type 0} → Call F → (Trace F → Outcome A) → Coroutine F A
  call c answer = perform c answer env.others

  -- an await of which only the end matters
  abbrev pub run_call : Call F → Coroutine F (Unit {0})
  run_call c = call c env.done
