-- ===== src/Core/Worker/Handler.antt =====
-- One entry in the worker: `_run_one` of src/smallage/core/worker.py and what it calls.
pub mod Acks
pub mod Ends
pub mod Counter
pub mod Retries
use litestar_rs.Prelude.{
  ℕ, ◌+◌, ◌/◌, Text, Bytes, text, Bool, true, false, Option, some, none, List, [], ◌∷◌, ◌++◌,
  if◌then◌else◌,
}
use litestar_rs.Prelude.Int.{ℤ, pos, negsuc, ◌+ℤ◌, ◌-ℤ◌}
use litestar_rs.Python.{Python, Exn, malformed_envelope, key_error}
use litestar_rs.Effect.{
  Outcome, returned, raised, cancelled, World, pure, throw, lift, except, finally, modify, asks,
  try_except, ◌>>=◌, ◌>>◌,
}
use litestar_rs.Core.Envelope.{Envelope, Record, TaskResult, from_fields, or_raise}
use litestar_rs.Core.Floats.{Floats}
use litestar_rs.Core.Retry.{delay_ms, exhausted, unknown_task_expired, record_failure}
use litestar_rs.Core.Stats.{WorkerStats, bury}
use litestar_rs.Core.Worker.Config.{WorkerConfig, Slots, add, release}
use litestar_rs.Core.Worker.Calls.{
  State, Call, claim_dedup, ack, dead_letter, clear_alive, now_ms, schedule_at, handle,
  handle_broker, store, Coroutine, Env, call, run_call,
}

abbrev pub Step : Type 0 → Type 0
Step F = Coroutine F (Unit {0})

abbrev pub on_stats : (WorkerStats → WorkerStats) → State → State
on_stats f s = record s { stats = f s.stats }

abbrev pub on_slots : (Slots → Slots) → State → State
on_slots f s = record s { slots = f s.slots }

-- `n // d` for a positive `d`
unfoldable pub floor_div : ℤ → ℕ → ℤ
floor_div (pos n) d = pos (n / d)
floor_div (negsuc n) d = negsuc (n / d)

-- `_encoded`: only bytes travel as a result
unfoldable pub encoded : Option Bytes → Bytes
encoded none = []
encoded (some value) = value

module _ {F : Type 0} (fl : Floats F) (py : Python) (env : Env F) (cfg : WorkerConfig F) where
  unfoldable pub keep_result : Envelope → TaskResult → Step F
  keep_result envelope result = elim envelope.result_ttl_ms [
    | none ↦ pure tt
    | some ttl ↦ if env.has_results then run_call env (store envelope.id result ttl) else pure tt
  ]

  unfoldable pub ack_record : Record → Step F
  ack_record record_ = run_call env (ack record_.stream (record_.entry_id ∷ []))

  unfoldable pub may_run : Envelope → Coroutine F Bool
  may_run envelope = elim envelope.dedup [
    | none ↦ pure true
    | some key ↦ do
      won ← call env (claim_dedup key envelope.id cfg.dedup_ttl_ms) env.claim_dedup
      if won then pure true else do
        modify (on_stats (λ s. record s { skipped_duplicate = s.skipped_duplicate + 1 }))
        pure false
  ]

  unfoldable pub run_broker : Record → Step F
  unfolding ack_record
  run_broker entry =
      if env.has_broker entry.stream
      then (do
        handled ← except (run_call env (handle_broker entry) >> pure true) (λ _. pure false)
        if handled then ack_record entry else pure tt)
      else pure tt

  -- `_reschedule`: put the work back on the clock, then let go of the entry.
  unfoldable pub reschedule : Record → Envelope → ℤ → Text → Step F
  unfolding ack_record
  reschedule entry envelope delay scheduled_id = do
    now ← call env now_ms env.now_ms
    queue ← lift (or_raise key_error (env.queue_of entry.stream))
    run_call env (schedule_at envelope queue (now +ℤ delay) scheduled_id)
    ack_record entry

  -- `_dead_letter`: park it, then ack.
  unfoldable pub dead_letter_entry : Record → Text → Text → ℤ → Step F
  unfolding ack_record
  dead_letter_entry entry reason detail times_delivered = do
    run_call env (dead_letter entry reason detail times_delivered)
    modify (on_stats (bury reason))
    ack_record entry

  unfoldable pub hand_back_unknown : Record → Envelope → Step F
  hand_back_unknown entry envelope = do
    modify (on_stats (λ s. record s { unknown_task = s.unknown_task + 1 }))
    now ← call env now_ms env.now_ms
    let age_ms = now -ℤ envelope.enqueued_at
    if unknown_task_expired cfg.retry age_ms
        then dead_letter_entry entry (text "unknown_task") envelope.task (pos 1)
        else do
          modify (on_slots (λ s. record s { unhandled = add entry.entry_id s.unhandled }))
          reschedule entry envelope cfg.retry.unknown_task_backoff_ms
              (text "unknown:" ++ (envelope.id ++ (text ":" ++ py.str_int (floor_div age_ms 1000))))

  -- The job as it is tried again.
  unfoldable pub retried : Envelope → Exn → Envelope
  retried envelope exc = record envelope {
    attempt = envelope.attempt +ℤ pos 1;
    history = record_failure py cfg.retry envelope.history envelope.attempt exc;
  }

  -- `_retry_or_bury`, once the entry is decoded.
  unfoldable pub retry_job : Record → Exn → Envelope → Step F
  retry_job entry exc envelope =
      let attempt = envelope.attempt +ℤ pos 1 in
      if exhausted cfg.retry attempt
      then (do
        keep_result envelope (record {
          success = false;
          value = [];
          error = py.class_name exc ++ (text ": " ++ py.message exc);
        })
        dead_letter_entry entry (text "max_attempts") (py.format_exception exc) (pos 1))
      else (do
        draw ← asks (λ w. env.random w.trace)
        delay ← lift (delay_ms fl cfg.retry envelope.attempt draw)
        modify (on_stats (λ s. record s { retried = s.retried + 1 }))
        reschedule entry (retried envelope exc) delay
            (text "retry:" ++ (envelope.id ++ (text ":" ++ py.str_int attempt))))

  unfoldable pub retry_or_bury : Record → Exn → Step F
  retry_or_bury entry exc = lift (from_fields py entry.fields) >>= retry_job entry exc

  -- `_run_one` after the handler has returned.
  unfoldable pub finish : Record → Envelope → Option Bytes → Step F
  finish entry envelope value = do
    modify (on_stats (λ s. record s { handled = s.handled + 1 }))
    keep_result envelope (record { success = true; value = encoded value; error = [] })
    ack_record entry

  unfoldable pub run_allowed : Record → Envelope → Bool → Step F
  run_allowed entry envelope allowed =
      if allowed
      then call env (handle envelope) env.handle >>= finish entry envelope
      else ack_record entry

  -- `_run_one` once the entry is decoded.
  unfoldable pub run_task : Record → Envelope → Step F
  run_task entry envelope =
      if env.has_task envelope.task
      then may_run envelope >>= run_allowed entry envelope
      else hand_back_unknown entry envelope

  -- `except MalformedEnvelope`: any other exception goes on to the outer handler.
  unfoldable pub dispatch : Record → Outcome Envelope → Step F
  dispatch entry (returned envelope) = run_task entry envelope
  dispatch entry (raised (malformed_envelope m)) =
      dead_letter_entry entry (text "malformed") (py.format_exception (malformed_envelope m))
        (pos 1)
  dispatch entry (raised e) = throw e
  dispatch entry cancelled = lift cancelled

  -- The handler of `except Exception` in `_run_one`.
  unfoldable pub recover : Record → Exn → Step F
  recover entry exc = do
    modify (on_stats (λ s. record s { failed = s.failed + 1 }))
    if env.is_external entry.stream
        then pure tt
        else except (retry_or_bury entry exc) (λ _. pure tt)

  unfoldable pub attempt_entry : Record → Step F
  attempt_entry entry =
      if env.is_external entry.stream
      then run_broker entry
      else dispatch entry (from_fields py entry.fields)

  abbrev let_go : Bytes → State → State
  let_go entry_id s = record {
    slots = release entry_id s.slots;
    stats = record s.stats { in_flight = s.stats.in_flight -ℤ pos 1 };
  }

  unfoldable pub run_one : Record → Step F
  run_one entry = do
    modify (on_stats (λ s. record s { in_flight = s.in_flight +ℤ pos 1 }))
    finally
        (try_except (attempt_entry entry) (run_call env (clear_alive (entry.entry_id ∷ [])))
          (recover entry))
        (let_go entry.entry_id)
