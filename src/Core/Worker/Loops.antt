-- ===== src/Core/Worker/Loops.antt =====
-- The supervisor's loops, one pass each, of src/smallage/core/worker.py. A pass ends where the loop
-- begins its next round; `rounds` repeats a pass, until a cancellation or an exception ends it.
pub mod Consuming
pub mod Reclaiming
pub mod Leading
use litestar_rs.Prelude.{
  ℕ, zero, suc, ◌+◌, Text, Bytes, text, Bool, true, false, not, ◌&&◌, ◌||◌, Option, some, none,
  List, [], ◌∷◌, ◌++◌, map, length, member, discard, same, if◌then◌else◌,
}
use litestar_rs.Prelude.Int.{ℤ, pos, ltb_ℤ}
use litestar_rs.Python.{Python}
use litestar_rs.Effect.{
  Outcome, returned, raised, cancelled, World, pure, lift, asks, perform, except, try_finally,
  modify, ◌>>=◌, ◌>>◌,
}
use litestar_rs.Core.Envelope.{Record, Pending}
use litestar_rs.Core.Floats.{Floats}
use litestar_rs.Core.Retry.{over_delivered}
use litestar_rs.Core.Worker.Config.{
  WorkerConfig, Slots, credits, take, release_all, refresh_interval_s,
}
use litestar_rs.Core.Worker.Calls.{
  ensure_group, State, Call, read, mark_alive, refresh_alive, pending, reclaim, trim,
  sweep_consumers, hold_leadership, release_leadership, schedule_cron, promote, sleep,
  wait_for_slot, spawn, Coroutine, Env, call, run_call,
}
use litestar_rs.Core.Worker.Handler.{Step, on_slots, on_stats, dead_letter_entry}

abbrev ids_of : List Record → List Bytes
ids_of records = map (λ r. r.entry_id) records

module _ {F : Type 0} (fl : Floats F) (py : Python) (env : Env F) (cfg : WorkerConfig F) where
  -- `handlers.start_soon`: no await, so nothing runs meanwhile
  unfoldable pub start : Record → Step F
  start entry = perform (spawn entry) (λ t. returned tt) (λ t s. s)

  unfoldable pub start_all : List Record → Step F
  unfolding start
  start_all [] = pure tt
  start_all (entry ∷ records) = do start entry; start_all records

  -- A failure of the body, the ids to let go, or `none`.
  unfoldable pub take_on : List Record → Coroutine F (Option (List Bytes))
  take_on [] = pure none
  take_on (entry ∷ more) =
      let records = entry ∷ more in
      let entry_ids = ids_of records in
      except
        (do
          modify (on_slots (take entry_ids))
          run_call env (mark_alive entry_ids cfg.alive_ttl_ms)
          start_all records
          pure none)
        (λ _. pure (some entry_ids))

  -- The handler of `except Exception` in `_consume_loop`.
  unfoldable pub let_go_all : Option (List Bytes) → Step F
  let_go_all none = pure tt
  let_go_all (some entry_ids) = do
    modify (on_slots (release_all entry_ids))
    run_call env (sleep cfg.recovery_interval_s)

  unfoldable pub read_records : ℤ → Step F
  read_records free =
      except (call env (read free) env.read >>= take_on) (λ _. pure (some [])) >>= let_go_all

  -- `Slots.wait_for_slot`: the event is replaced where it was set
  unfoldable pub wait_slot : Step F
  wait_slot = do run_call env wait_for_slot; modify (on_slots (λ s. record s { freed = false }))

  abbrev free_slots : State → ℤ
  free_slots s = credits cfg.concurrency (pos (length s.slots.ids))

  -- One pass of `_consume_loop`.
  unfoldable pub consume_pass : Step F
  consume_pass = do
    free ← asks (λ w. free_slots w.state)
    if ltb_ℤ (pos 0) free then read_records free else wait_slot

  -- `while not stop.is_set():`, for at most the given number of passes
  unfoldable pub consume_loop : ℕ → Step F
  consume_loop zero = pure tt
  consume_loop (suc passes) =
      let rest = consume_loop passes in
      do
        stopped ← asks (λ w. env.is_stopped w.trace)
        if stopped then pure tt else consume_pass >> rest

  -- Bury every record that was taken from too many dead owners.
  unfoldable pub bury_all : Pending → List Record → Step F
  bury_all candidate [] = pure tt
  bury_all candidate (entry ∷ records) = do
    dead_letter_entry fl py env cfg entry (text "max_deliveries")
        (text "delivered " ++ (py.str_int candidate.times_delivered ++ text " times"))
        candidate.times_delivered
    bury_all candidate records

  unfoldable pub adopt : Pending → List Record → Step F
  adopt candidate [] = pure tt
  adopt candidate (entry ∷ more) =
      let records = entry ∷ more in
      if over_delivered cfg.retry candidate.times_delivered then bury_all candidate records else (do
        modify (on_slots (take (ids_of records)))
        modify (on_stats (λ s. record s { reclaimed = s.reclaimed + length records }))
        start_all records)

  -- Entries that a pass of `_reclaim_loop` must not touch: handed back here, running here, or just
  -- served to this consumer.
  unfoldable pub is_skipped : Pending → Slots → Bool
  is_skipped candidate s =
      member candidate.entry_id s.unhandled
      || member candidate.entry_id s.ids
      || same candidate.consumer env.consumer && not (member candidate.entry_id s.recoverable)

  unfoldable pub reclaim_candidate : Pending → Step F
  reclaim_candidate candidate = do
    skip ← asks (λ w. is_skipped candidate w.state.slots)
    if skip then pure tt else do
      modify (on_slots (λ s. record s { recoverable = discard candidate.entry_id s.recoverable }))
      records ←
          call env (reclaim candidate.stream candidate.entry_id cfg.min_idle_ms cfg.alive_ttl_ms)
            env.reclaim
      adopt candidate records

  unfoldable pub reclaim_all : List Pending → Step F
  reclaim_all [] = pure tt
  reclaim_all (candidate ∷ candidates) = do reclaim_candidate candidate; reclaim_all candidates

  -- `try: body; sleep(pause)`, and on an exception `sleep(recovery_interval_s)` in its place
  unfoldable pub guarded : Step F → F → Step F
  guarded body pause = do
    clean ← except (body >> pure true) (λ _. pure false)
    if clean then run_call env (sleep pause) else run_call env (sleep cfg.recovery_interval_s)

  -- One pass of `_reclaim_loop`.
  unfoldable pub reclaim_pass : Step F
  reclaim_pass =
      guarded
        (do
          free ← asks (λ w. free_slots w.state)
          candidates ← call env (pending free cfg.min_idle_ms) env.pending
          reclaim_all candidates)
        cfg.reclaim_interval_s

  -- One pass of `_heartbeat_loop`.
  unfoldable pub heartbeat_pass : Step F
  heartbeat_pass =
      guarded
        (do ids ← asks (λ w. w.state.slots.ids); run_call env (refresh_alive ids cfg.alive_ttl_ms))
        (refresh_interval_s fl cfg)

  -- One pass of `_scheduler_loop`; `has_cron` is the test `if cron`.
  unfoldable pub scheduler_pass : Text → Bool → Step F
  scheduler_pass token has_cron =
      guarded
        (do
          held ← call env (hold_leadership token cfg.leader_ttl_ms) env.hold_leadership
          if held
              then (do
                if has_cron then run_call env schedule_cron else pure tt
                run_call env (promote cfg.promote_limit))
              else pure tt)
        cfg.scheduler_interval_s

  -- One pass of `_trim_loop`.
  unfoldable pub trim_pass : Step F
  trim_pass =
      guarded
        (do
          run_call env (trim cfg.retention_ms)
          run_call env (sweep_consumers cfg.consumer_idle_ms))
        cfg.trim_interval_s

  unfoldable pub rounds : Step F → ℕ → Step F
  rounds pass zero = pure tt
  rounds pass (suc n) = pass >> rounds pass n

  -- `_scheduler_loop`, ended by a cancellation in an await or after `n` passes.
  unfoldable pub scheduler_loop : Text → Bool → ℕ → Step F
  scheduler_loop token has_cron n =
      try_finally (rounds (scheduler_pass token has_cron) n)
        (run_call env (release_leadership token))

  -- `_orphans_of_previous_run`
  unfoldable pub own_ids : List Pending → List Bytes
  own_ids [] = []
  own_ids (entry ∷ entries) =
      let rest = own_ids entries in
      if same entry.consumer env.consumer then entry.entry_id ∷ rest else rest

  unfoldable pub orphans_of_previous_run : Coroutine F (List Bytes)
  orphans_of_previous_run = do
    entries ← call env (pending cfg.concurrency (pos 0)) env.pending
    pure (own_ids entries)

  -- `run` up to its shutdown: what happens before anything is read, and then the consume loop. The
  -- other loops, which it starts, are the environment's other coroutines.
  unfoldable pub run : ℕ → Step F
  run passes = do
    run_call env ensure_group
    entry_ids ← orphans_of_previous_run
    modify (on_slots (λ s. record s { recoverable = entry_ids }))
    consume_loop passes
