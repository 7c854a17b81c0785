-- ===== src/Core/Worker/Handler/Counter.antt =====
-- The in-flight counter over the handling of one entry.
use litestar_rs.Prelude.{Option-cases, Text, Bool, [], ◌∷◌, ◌≡◌, refl, ◌∙◌, inl, inr, arith}
use litestar_rs.Prelude.Int.{ℤ, pos, ◌+ℤ◌, +ℤ_cancel}
use litestar_rs.Python.{Python, Exn, malformed_envelope}
use litestar_rs.Effect.{Outcome, returned, raised, cancelled, World, modify, ◌>>=◌, try_except}
use litestar_rs.Effect.Keeps.{
  Keeps, keeps_rules, Keeps-pure, Keeps-perform, Keeps-if, Keeps-throw, Keeps-lift,
  Keeps-try_except,
}
use litestar_rs.Core.Envelope.{Envelope, Record, TaskResult}
use litestar_rs.Core.Floats.{Floats}
use litestar_rs.Core.Stats.{bury}
use litestar_rs.Core.Worker.Config.{WorkerConfig}
use litestar_rs.Core.Worker.Calls.{State, Call, Trace, call, run_call, clear_alive, Env}
use litestar_rs.Core.Worker.Handler.Ends.{entered}
use litestar_rs.Core.Worker.Handler.{
  keep_result, ack_record, may_run, run_broker, finish, run_allowed, reschedule, dead_letter_entry,
  hand_back_unknown, retry_job, retry_or_bury, run_task, dispatch, recover, attempt_entry, run_one,
}

module _ {F : Type 0} (fl : Floats F) (py : Python) (env : Env F) (cfg : WorkerConfig F)
    (entry : Record)
    (apart : (t : Trace F) (s : State) → (env.others t s).stats.in_flight ≡ s.stats.in_flight) where
  abbrev Counted : ℤ → World State (Call F) → Type 0
  Counted n w = w.state.stats.in_flight ≡ n

  call-Counted :
      {A : Type 0} (n : ℤ) (c : Call F) (answer : Trace F → Outcome A)
      → Keeps (Counted n) (call env c answer)
  call-Counted n c answer = Keeps-perform _ _ _ (λ o w h. apart w.trace w.state ∙ h)

  modify-Counted :
      (n : ℤ) (f : State → State)
      → ((s : State) → (f s).stats.in_flight ≡ s.stats.in_flight)
      → Keeps (Counted n) (modify f)
  unfolding modify
  modify-Counted n f same_count = record { at = λ w h. same_count w.state ∙ h }

  dead_letter_entry-Counted :
      (n : ℤ) (reason detail : Text) (times : ℤ)
      → Keeps (Counted n) (dead_letter_entry fl py env cfg entry reason detail times)
  unfolding dead_letter_entry ack_record bury
  dead_letter_entry-Counted n reason detail times =
      search (keeps_rules, call-Counted, modify-Counted)

  reschedule-Counted :
      (n : ℤ) (job : Envelope) (delay : ℤ) (scheduled_id : Text)
      → Keeps (Counted n) (reschedule fl py env cfg entry job delay scheduled_id)
  unfolding reschedule ack_record
  reschedule-Counted n job delay scheduled_id =
      search (keeps_rules, call-Counted, modify-Counted) depth 8

  keep_result-Counted :
      (n : ℤ) (envelope : Envelope) (result : TaskResult)
      → Keeps (Counted n) (keep_result fl py env cfg envelope result)
  unfolding keep_result
  keep_result-Counted n envelope result = record {
    at = λ w h. elim (Option-cases envelope.result_ttl_ms) [
      | inl e ↦ rw e (unfold ◌>>=◌ in h)
      | inr (ttl, e) ↦ rw e (
          (Keeps-if {P = Counted n} env.has_results _ _ (call-Counted n _ _) (Keeps-pure tt)).at w
            h)
    ];
  }

  hand_back_unknown-Counted :
      (n : ℤ) (envelope : Envelope)
      → Keeps (Counted n) (hand_back_unknown fl py env cfg entry envelope)
  unfolding hand_back_unknown
  hand_back_unknown-Counted n envelope =
      search
        (keeps_rules, call-Counted, modify-Counted, dead_letter_entry-Counted, reschedule-Counted)
        depth 8

  retry_job-Counted :
      (n : ℤ) (exc : Exn) (envelope : Envelope)
      → Keeps (Counted n) (retry_job fl py env cfg entry exc envelope)
  unfolding retry_job
  retry_job-Counted n exc envelope =
      search
        (
          keeps_rules, call-Counted, modify-Counted, keep_result-Counted, dead_letter_entry-Counted,
          reschedule-Counted,
        )
        depth 8

  recover-Counted : (n : ℤ) (exc : Exn) → Keeps (Counted n) (recover fl py env cfg entry exc)
  unfolding recover retry_or_bury
  recover-Counted n exc =
      search (keeps_rules, call-Counted, modify-Counted, retry_job-Counted) depth 8

  may_run-Counted :
      (n : ℤ) (envelope : Envelope) → Keeps (Counted n) (may_run fl py env cfg envelope)
  unfolding may_run ◌>>=◌
  may_run-Counted n envelope = record { at = λ w h. ground (arith, apart w.trace w.state) }

  run_broker-Counted : (n : ℤ) → Keeps (Counted n) (run_broker fl py env cfg entry)
  unfolding run_broker ack_record
  run_broker-Counted n = search (keeps_rules, call-Counted) depth 8

  run_allowed-Counted :
      (n : ℤ) (envelope : Envelope) (allowed : Bool)
      → Keeps (Counted n) (run_allowed fl py env cfg entry envelope allowed)
  unfolding run_allowed finish ack_record
  run_allowed-Counted n envelope allowed =
      search (keeps_rules, call-Counted, keep_result-Counted) depth 8

  run_task-Counted :
      (n : ℤ) (envelope : Envelope) → Keeps (Counted n) (run_task fl py env cfg entry envelope)
  unfolding run_task
  run_task-Counted n envelope =
      search (keeps_rules, may_run-Counted, run_allowed-Counted, hand_back_unknown-Counted)

  dispatch-Counted :
      (n : ℤ) (decoded : Outcome Envelope)
      → Keeps (Counted n) (dispatch fl py env cfg entry decoded)
  unfolding dispatch
  dispatch-Counted n (returned envelope) = run_task-Counted n envelope
  dispatch-Counted n (raised (malformed_envelope m)) = dead_letter_entry-Counted n _ _ _
  dispatch-Counted n (raised exc) = Keeps-throw exc
  dispatch-Counted n cancelled = Keeps-lift cancelled

  handling-Counted :
      (n : ℤ)
      → Keeps (Counted n) (
          try_except
            (attempt_entry fl py env cfg entry)
            (run_call env (clear_alive (entry.entry_id ∷ [])))
            (recover fl py env cfg entry))
  unfolding attempt_entry
  handling-Counted n =
      Keeps-try_except _ _ _ (Keeps-if _ _ _ (run_broker-Counted n) (dispatch-Counted n _))
        (call-Counted n _ _) (recover-Counted n)

  -- If the other coroutines leave the in-flight counter alone, the handling of an entry leaves it
  -- where it was, on every path: success, failure, cancellation.
  pub in_flight-run_one :
      (w : World State (Call F))
      → (run_one fl py env cfg entry w).1.state.stats.in_flight ≡ w.state.stats.in_flight
  unfolding run_one ◌>>=◌
  in_flight-run_one w =
      let n = w.state.stats.in_flight +ℤ pos 1 in
      rw ((handling-Counted n).at (entered fl py env cfg entry w) refl)
        (+ℤ_cancel w.state.stats.in_flight (pos 1))
