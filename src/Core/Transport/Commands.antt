-- ===== src/Core/Transport/Commands.antt =====
-- What src/smallage/core/transport.py asks of Redis: the commands, and the answers, which the
-- environment chooses from the commands before.
use litestar_rs.Prelude.{ℕ, Text, Bytes, Bool, Option, List}
use litestar_rs.Prelude.Int.{ℤ}
use litestar_rs.Python.{Exn}
use litestar_rs.Effect.{Outcome, Event, Act, perform}
use litestar_rs.Core.Envelope.{Fields}

pub data Command : Type 0 where
  xgroup_create : Text → Text → Command
  xadd : Text → Fields → Command
  -- group, consumer, streams, count, block
  xreadgroup : Text → Text → List Text → ℤ → Option ℤ → Command
  -- a pipeline of SET with PX, and one of PEXPIRE
  set_alive : List Text → Text → ℤ → Command
  pexpire : List Text → ℤ → Command
  delete : List Text → Command
  set_nx : Text → Text → ℤ → Command
  run_ack : Text → List Text → Text → List Bytes → Command
  -- stream, group, count, idle
  xpending_range : Text → Text → ℤ → ℤ → Command
  time : Command
  run_reclaim : Text → Text → Text → Text → ℤ → Bytes → ℤ → Command
  run_sweep : Text → Text → ℤ → Command
  xpending : Text → Text → Command
  xtrim : Text → ℤ → Command
  xinfo_groups : Text → Command

abbrev pub Trace : Type 0
Trace = List (Event Command)

-- The number of read passes, the only field that changes.
abbrev pub Passes : Type 0
Passes = ℕ

abbrev pub Method : Type 0 → Type 0
Method A = Act Passes Command A

-- An entry as Redis lists it in a read: its id and its fields.
abbrev pub Entry : Type 0
Entry = Bytes × Fields

-- An entry as a script passes it on: its id, and its fields and their values one after the other.
abbrev pub RawEntry : Type 0
RawEntry = Bytes × List Bytes

-- An entry as XPENDING lists it: its id, its consumer, its deliveries.
pub record Held : Type 0 where
  pub message_id : Bytes
  pub consumer : Bytes
  pub times_delivered : ℤ

pub record Redis : Type 0 where
  pub is_busygroup : Exn → Bool
  pub done : Trace → Outcome (Unit {0})
  pub new_id : Trace → Outcome Bytes
  pub read : Trace → Outcome (List (Text × List Entry))
  pub flag : Trace → Outcome Bool
  pub number : Trace → Outcome ℤ
  pub held : Trace → Outcome (List Held)
  -- seconds and microseconds
  pub time : Trace → Outcome (ℤ × ℤ)
  -- the first pending id of a group, where there is one
  pub oldest : Trace → Outcome (Option Bytes)
  -- the name and the lag of each group
  pub groups : Trace → Outcome (List (Bytes × Option ℤ))
  pub claimed : Trace → Outcome (List (Option RawEntry))

-- No other coroutine writes the fields of a transport: `read` is awaited by one loop only.
abbrev pub ask : {A : Type 0} → Command → (Trace → Outcome A) → Method A
ask c answer = perform c answer (λ t s. s)
