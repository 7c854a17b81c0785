-- ===== src/Core/Worker/Handler/Retries.antt =====
-- What is put back on the clock: the job itself, or its next attempt within the policy's limit.
use litestar_rs.Prelude.{Text, Bool, false, [], ◌∷◌, ◌≡◌, refl, ◌⊎◌, inl, inr, arith, ◌+◌, ◌<◌}
use litestar_rs.Prelude.Int.{ℤ, pos, pos_part, neg_part, ◌+ℤ◌, ◌≤ℤ◌, int_laws}
use litestar_rs.Python.{Python, Exn, malformed_envelope}
use litestar_rs.Effect.{Outcome, returned, raised, cancelled, World, modify, ◌>>=◌}
use litestar_rs.Effect.Keeps.{
  Keeps, keeps_rules, Keeps-bind, Keeps-perform, Keeps-if, Keeps-if_cases, Keeps-throw, Keeps-lift,
  Keeps-bind_lift, Keeps-try_except, Keeps-finally,
}
use litestar_rs.Core.Envelope.{Envelope, Record, TaskResult, from_fields}
use litestar_rs.Core.Floats.{Floats}
use litestar_rs.Core.Retry.{exhausted, record_failure}
use litestar_rs.Core.Worker.Config.{WorkerConfig}
use litestar_rs.Core.Worker.Calls.{State, Call, Trace, schedule_at, call, Env}
use litestar_rs.Core.Worker.Handler.{
  keep_result, ack_record, may_run, run_broker, finish, run_allowed, reschedule, dead_letter_entry,
  hand_back_unknown, retried, retry_job, retry_or_bury, run_task, dispatch, recover, attempt_entry,
  run_one,
}

module _ {F : Type 0} (fl : Floats F) (py : Python) (env : Env F) (cfg : WorkerConfig F)
    (entry : Record) where
  -- The next attempt of a job that failed with `exc`, where the policy allows one more.
  pub record IsNextAttempt (envelope job : Envelope) : Type 0 where
    pub exc : Exn
    pub next : job ≡ record envelope {
      attempt = envelope.attempt +ℤ pos 1;
      history = record_failure py cfg.retry envelope.history envelope.attempt exc;
    }
    pub allowed : envelope.attempt +ℤ pos 1 +ℤ pos 1 ≤ℤ cfg.retry.max_attempts

  -- The entry decodes to `envelope`, and `job` is that job, unchanged because no handler here knows
  -- its task, or its next attempt.
  abbrev pub ComesFrom : Envelope → Envelope → Type 0
  ComesFrom envelope job =
      (from_fields py entry.fields ≡ returned envelope)
      × (((job ≡ envelope) × (env.has_task envelope.task ≡ false)) ⊎ IsNextAttempt envelope job)

  abbrev pub IsDue : Call F → Type 0
  IsDue (schedule_at job _ _ _) = (envelope : Envelope) × ComesFrom envelope job
  IsDue _ = Unit

  -- Every job that was put on the clock is due to be there.
  abbrev pub AllDue : Trace F → Type 0
  AllDue [] = Unit
  AllDue (event ∷ before) = IsDue event.call × AllDue before

  abbrev Due : World State (Call F) → Type 0
  Due w = AllDue w.trace

  call-Due :
      {A : Type 0} (c : Call F) (answer : Trace F → Outcome A)
      → IsDue c
      → Keeps Due (call env c answer)
  call-Due c answer due = Keeps-perform _ _ _ (λ o w h. (due, h))

  modify-Due : (f : State → State) → Keeps Due (modify f)
  unfolding modify
  modify-Due f = record { at = λ w h. h }

  dead_letter_entry-Due :
      (reason detail : Text) (times : ℤ)
      → Keeps Due (dead_letter_entry fl py env cfg entry reason detail times)
  unfolding dead_letter_entry ack_record ◌>>=◌
  dead_letter_entry-Due reason detail times = record { at = λ w h. ground arith }

  reschedule-Due :
      (job : Envelope) (delay : ℤ) (scheduled_id : Text)
      → ((envelope : Envelope) × ComesFrom envelope job)
      → Keeps Due (reschedule fl py env cfg entry job delay scheduled_id)
  unfolding reschedule ack_record ◌>>=◌
  reschedule-Due job delay scheduled_id due = record { at = λ w h. ground arith }

  keep_result-Due :
      (envelope : Envelope) (result : TaskResult)
      → Keeps Due (keep_result fl py env cfg envelope result)
  unfolding keep_result ◌>>=◌
  keep_result-Due envelope result = record { at = λ w h. ground arith }

  may_run-Due : (envelope : Envelope) → Keeps Due (may_run fl py env cfg envelope)
  unfolding may_run ◌>>=◌
  may_run-Due envelope = record { at = λ w h. ground arith }

  run_broker-Due : Keeps Due (run_broker fl py env cfg entry)
  unfolding run_broker ack_record ◌>>=◌
  run_broker-Due = record { at = λ w h. ground arith }

  hand_back_unknown-Due :
      (envelope : Envelope)
      → ((e : Envelope) × ComesFrom e envelope)
      → Keeps Due (hand_back_unknown fl py env cfg entry envelope)
  unfolding hand_back_unknown
  hand_back_unknown-Due envelope due =
      search (keeps_rules, modify-Due, call-Due, dead_letter_entry-Due, reschedule-Due) depth 8

  room_left :
      (attempt : ℤ)
      → exhausted cfg.retry attempt ≡ false
      → attempt +ℤ pos 1 ≤ℤ cfg.retry.max_attempts
  unfolding exhausted
  room_left attempt h =
      let below : pos_part attempt + neg_part cfg.retry.max_attempts
          < pos_part cfg.retry.max_attempts + neg_part attempt =
        ground (arith, h) in
      omega int_laws

  retried-due :
      (exc : Exn) (envelope : Envelope)
      → from_fields py entry.fields ≡ returned envelope
      → exhausted cfg.retry (envelope.attempt +ℤ pos 1) ≡ false
      → (e : Envelope) × ComesFrom e (retried fl py env cfg envelope exc)
  unfolding retried
  retried-due exc envelope decodes room =
      (envelope, (decodes, inr (record { exc = exc; next = refl; allowed = room_left _ room })))

  retry_job-Due :
      (exc : Exn) (envelope : Envelope)
      → from_fields py entry.fields ≡ returned envelope
      → Keeps Due (retry_job fl py env cfg entry exc envelope)
  unfolding retry_job
  retry_job-Due exc envelope decodes =
      Keeps-if_cases _ _ _ (λ _. search (keeps_rules, keep_result-Due, dead_letter_entry-Due))
        (λ room.
          let due : (e : Envelope) × ComesFrom e (retried fl py env cfg envelope exc) =
            retried-due exc envelope decodes room in
          search (keeps_rules, modify-Due, reschedule-Due) depth 8)

  retry_or_bury-Due : (exc : Exn) → Keeps Due (retry_or_bury fl py env cfg entry exc)
  unfolding retry_or_bury
  retry_or_bury-Due exc =
      Keeps-bind_lift (from_fields py entry.fields) (retry_job fl py env cfg entry exc)
        (retry_job-Due exc)

  recover-Due : (exc : Exn) → Keeps Due (recover fl py env cfg entry exc)
  unfolding recover
  recover-Due exc = search (keeps_rules, modify-Due, retry_or_bury-Due)

  run_allowed-Due :
      (envelope : Envelope) (allowed : Bool)
      → Keeps Due (run_allowed fl py env cfg entry envelope allowed)
  unfolding run_allowed finish ack_record
  run_allowed-Due envelope allowed =
      search (keeps_rules, modify-Due, call-Due, keep_result-Due) depth 8

  run_task-Due :
      (envelope : Envelope)
      → from_fields py entry.fields ≡ returned envelope
      → Keeps Due (run_task fl py env cfg entry envelope)
  unfolding run_task
  run_task-Due envelope decodes =
      Keeps-if_cases _ _ _ (λ _. search (keeps_rules, may_run-Due, run_allowed-Due))
        (λ unknown. hand_back_unknown-Due envelope (envelope, (decodes, inl (refl, unknown))))

  dispatch-Due :
      (decoded : Outcome Envelope)
      → from_fields py entry.fields ≡ decoded
      → Keeps Due (dispatch fl py env cfg entry decoded)
  unfolding dispatch
  dispatch-Due (returned envelope) e = run_task-Due envelope e
  dispatch-Due (raised (malformed_envelope m)) e = dead_letter_entry-Due _ _ _
  dispatch-Due (raised exc) e = Keeps-throw exc
  dispatch-Due cancelled e = Keeps-lift cancelled

  attempt_entry-Due : Keeps Due (attempt_entry fl py env cfg entry)
  unfolding attempt_entry
  attempt_entry-Due = Keeps-if _ _ _ run_broker-Due (dispatch-Due _ refl)

  -- Whatever is called answers, each job that the handling of an entry puts back on the clock is the
  -- entry's job unchanged, where no handler here knows its task, or its next attempt with one more
  -- line of history, where the policy's limit on attempts allows that attempt.
  pub run_one-AllDue :
      (s : State) → AllDue (run_one fl py env cfg entry (record { state = s; trace = [] })).1.trace
  unfolding run_one
  run_one-AllDue s =
      (Keeps-bind _ _ (modify-Due _) (λ _.
          Keeps-finally _ _ (Keeps-try_except _ _ _ attempt_entry-Due (call-Due _ _ tt) recover-Due)
            (λ w due. due))).at
        (record { state = s; trace = [] }) tt
