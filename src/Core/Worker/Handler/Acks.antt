-- ===== src/Core/Worker/Handler/Acks.antt =====
-- An entry is acknowledged only after something has been done with it, whatever the transport, the
-- scheduler, the handlers and the other coroutines do.
use litestar_rs.Prelude.{
  Text, Bytes, Bool, true, false, Option, some, [], ◌∷◌, ◌≡◌, refl, ◌⊎◌, inl, inr, ap, arith,
  Option-cases,
}
use litestar_rs.Prelude.Int.{ℤ}
use litestar_rs.Python.{Python, Exn, malformed_envelope}
use litestar_rs.Effect.{
  Outcome, returned, raised, cancelled, succeeded, World, perform, modify, status, ◌>>=◌,
}
use litestar_rs.Effect.Keeps.{
  Keeps, keeps_rules, Keeps-bind, Keeps-perform, Keeps-if, Keeps-lift, Keeps-throw, Keeps-finally,
  Keeps-try_except, Keeps-bind_lift, Gives, Keeps-bind-gives,
}
use litestar_rs.Core.Envelope.{Envelope, Record, TaskResult, from_fields}
use litestar_rs.Core.Floats.{Floats}
use litestar_rs.Core.Worker.Config.{WorkerConfig}
use litestar_rs.Core.Worker.Calls.{
  State, Call, call, run_call, clear_alive, now_ms, ack, dead_letter, schedule_at, handle,
  handle_broker, claim_dedup, Trace, Env,
}
use litestar_rs.Core.Worker.Handler.{
  keep_result, ack_record, may_run, run_broker, finish, run_allowed, reschedule, dead_letter_entry,
  hand_back_unknown, retried, retry_job, retry_or_bury, run_task, dispatch, recover, attempt_entry,
  run_one,
}

-- The same work: a retry changes the attempt and the history, and nothing else.
pub record IsSameJob (a b : Envelope) : Type 0 where
  pub id : a.id ≡ b.id
  pub task : a.task ≡ b.task
  pub payload : a.payload ≡ b.payload
  pub payload_ref : a.payload_ref ≡ b.payload_ref
  pub dedup : a.dedup ≡ b.dedup
  pub enqueued_at : a.enqueued_at ≡ b.enqueued_at

IsSameJob-refl : (a : Envelope) → IsSameJob a a
IsSameJob-refl a = record {
  id = refl;
  task = refl;
  payload = refl;
  payload_ref = refl;
  dedup = refl;
  enqueued_at = refl;
}

module _ {F : Type 0} (py : Python) (env : Env F) (entry : Record) where
  -- What the entry decodes to.
  abbrev pub Carries : Envelope → Type 0
  Carries envelope = from_fields py entry.fields ≡ returned envelope

  abbrev pub CarriesJob : Envelope → Type 0
  CarriesJob job = (envelope : Envelope) × Carries envelope × IsSameJob envelope job

  abbrev pub CarriesKey : Text → Type 0
  CarriesKey key = (envelope : Envelope) × Carries envelope × (envelope.dedup ≡ some key)

  -- A call, made after the calls of the trace, that does something with the entry: it is parked, its
  -- job is on the clock again or was handled, or the answer is that a duplicate ran.
  abbrev pub Disposal : Call F → Trace F → Type 0
  Disposal (dead_letter parked _ _ _) _ = parked ≡ entry
  Disposal (schedule_at job _ _ _) _ = CarriesJob job
  Disposal (handle envelope) _ = Carries envelope
  Disposal (handle_broker handled) _ = handled ≡ entry
  Disposal (claim_dedup key _ _) before = (env.claim_dedup before ≡ returned false) × CarriesKey key
  Disposal _ _ = ⊥

  -- The disposal has succeeded before the trace ends.
  abbrev pub IsDisposed : Trace F → Type 0
  IsDisposed [] = ⊥
  IsDisposed (event ∷ before) =
      ((event.status ≡ succeeded) × Disposal event.call before) ⊎ IsDisposed before

  abbrev pub IsBacked : Call F → Trace F → Type 0
  IsBacked (ack stream ids) before =
      (stream ≡ entry.stream) × (ids ≡ entry.entry_id ∷ []) × IsDisposed before
  IsBacked _ _ = Unit

  -- Every acknowledgement is of the entry, and comes after its disposal.
  abbrev pub AckSafe : Trace F → Type 0
  AckSafe [] = Unit
  AckSafe (event ∷ before) = IsBacked event.call before × AckSafe before

  abbrev Safe : World State (Call F) → Type 0
  Safe w = AckSafe w.trace

module _ {F : Type 0} (fl : Floats F) (py : Python) (env : Env F) (cfg : WorkerConfig F)
    (entry : Record) where
  reschedule-Safe :
      (job : Envelope) (delay : ℤ) (scheduled_id : Text)
      → CarriesJob py env entry job
      → Keeps (Safe py env entry) (reschedule fl py env cfg entry job delay scheduled_id)
  unfolding reschedule ◌>>=◌
  reschedule-Safe job delay scheduled_id carries = record { at = λ w safe. ground arith }

  dead_letter_entry-Safe :
      (reason detail : Text) (times : ℤ)
      → Keeps (Safe py env entry) (dead_letter_entry fl py env cfg entry reason detail times)
  unfolding dead_letter_entry ◌>>=◌
  dead_letter_entry-Safe reason detail times = record { at = λ w safe. ground arith }

  run_broker-Safe : Keeps (Safe py env entry) (run_broker fl py env cfg entry)
  unfolding run_broker ◌>>=◌
  run_broker-Safe = record { at = λ w safe. ground arith }

  keep_result-Safe :
      (envelope : Envelope) (result : TaskResult)
      → Keeps (Safe py env entry) (keep_result fl py env cfg envelope result)
  unfolding keep_result ◌>>=◌
  keep_result-Safe envelope result = record { at = λ w safe. ground arith }

  -- A change of the local state does not touch the trace.
  modify-Safe : (f : State → State) → Keeps (Safe py env entry) (modify f)
  unfolding modify
  modify-Safe f = record { at = λ w safe. safe }

  now_ms-Safe : Keeps (Safe py env entry) (call env now_ms env.now_ms)
  now_ms-Safe = Keeps-perform _ _ _ (λ o w safe. (tt, safe))

  hand_back_unknown-Safe :
      (envelope : Envelope)
      → Carries py env entry envelope
      → Keeps (Safe py env entry) (hand_back_unknown fl py env cfg entry envelope)
  unfolding hand_back_unknown
  hand_back_unknown-Safe envelope carries =
      let job : CarriesJob py env entry envelope = (envelope, carries, IsSameJob-refl envelope) in
      search (keeps_rules, modify-Safe, now_ms-Safe, dead_letter_entry-Safe, reschedule-Safe) depth
        8

  retried-IsSameJob :
      (envelope : Envelope) (exc : Exn) → IsSameJob envelope (retried fl py env cfg envelope exc)
  unfolding retried
  retried-IsSameJob envelope exc = record {
    id = refl;
    task = refl;
    payload = refl;
    payload_ref = refl;
    dedup = refl;
    enqueued_at = refl;
  }

  retry_job-Safe :
      (exc : Exn) (envelope : Envelope)
      → Carries py env entry envelope
      → Keeps (Safe py env entry) (retry_job fl py env cfg entry exc envelope)
  unfolding retry_job
  retry_job-Safe exc envelope carries =
      let job : CarriesJob py env entry (retried fl py env cfg envelope exc) =
        (envelope, carries, retried-IsSameJob envelope exc) in
      search (keeps_rules, modify-Safe, dead_letter_entry-Safe, reschedule-Safe, keep_result-Safe)
        depth 8

  retry_or_bury-Safe :
      (exc : Exn) → Keeps (Safe py env entry) (retry_or_bury fl py env cfg entry exc)
  unfolding retry_or_bury
  retry_or_bury-Safe exc =
      Keeps-bind_lift (from_fields py entry.fields) (retry_job fl py env cfg entry exc)
        (retry_job-Safe exc)

  -- Where a duplicate is found, the entry is disposed of.
  may_run-Gives :
      (envelope : Envelope)
      → Carries py env entry envelope
      → Gives
          (Safe py env entry)
          (may_run fl py env cfg envelope)
          (λ allowed w. allowed ≡ false → IsDisposed py env entry w.trace)
  unfolding may_run ◌>>=◌
  may_run-Gives envelope carries = record {
    at = λ w safe. ground arith;
    result = λ w allowed safe e refused. elim (Option-cases envelope.dedup) [
      | inl free ↦ ground arith
      | inr (key, keyed) ↦
          let found : CarriesKey py env entry key = (envelope, carries, keyed) in ground arith
    ];
  }

  handle-Gives :
      (envelope : Envelope)
      → Carries py env entry envelope
      → Gives
          (Safe py env entry)
          (call env (handle envelope) env.handle)
          (λ value w. IsDisposed py env entry w.trace)
  unfolding perform
  handle-Gives envelope carries = record {
    at = λ w safe. (tt, safe);
    result = λ w value safe e. inl (ap status e, carries);
  }

  abbrev Done : World State (Call F) → Type 0
  Done w = Safe py env entry w × IsDisposed py env entry w.trace

  keep_result-Done :
      (envelope : Envelope) (result : TaskResult)
      → Keeps Done (keep_result fl py env cfg envelope result)
  unfolding keep_result ◌>>=◌
  keep_result-Done envelope result = record { at = λ w safe. ground arith }

  modify-Done : (f : State → State) → Keeps Done (modify f)
  unfolding modify
  modify-Done f = record { at = λ w done. done }

  ack_record-Done : Keeps Done (ack_record fl py env cfg entry)
  unfolding ack_record perform
  ack_record-Done = record { at = λ w done. (((refl, refl, done.1), done.0), inr done.1) }

  finish-Done :
      (envelope : Envelope) (value : Option Bytes)
      → Keeps Done (finish fl py env cfg entry envelope value)
  unfolding finish
  finish-Done envelope value = search (keeps_rules, modify-Done, keep_result-Done, ack_record-Done)

  run_allowed-Safe :
      (envelope : Envelope) (allowed : Bool) (w : World State (Call F))
      → Carries py env entry envelope
      → Safe py env entry w
      → (allowed ≡ false → IsDisposed py env entry w.trace)
      → Safe py env entry (run_allowed fl py env cfg entry envelope allowed w).1
  unfolding run_allowed
  run_allowed-Safe envelope true w carries safe refused =
      (Keeps-bind-gives _ _ (handle-Gives envelope carries)
          (λ value v safe' handled. ((finish-Done envelope value).at v (safe', handled)).0)).at
        w safe
  run_allowed-Safe envelope false w carries safe refused =
      (ack_record-Done.at w (safe, refused refl)).0

  run_task-Safe :
      (envelope : Envelope)
      → Carries py env entry envelope
      → Keeps (Safe py env entry) (run_task fl py env cfg entry envelope)
  unfolding run_task
  run_task-Safe envelope carries =
      Keeps-if _ _ _
        (Keeps-bind-gives _ _ (may_run-Gives envelope carries)
          (λ allowed w safe refused. run_allowed-Safe envelope allowed w carries safe refused))
        (hand_back_unknown-Safe envelope carries)

  dispatch-Safe :
      (decoded : Outcome Envelope)
      → from_fields py entry.fields ≡ decoded
      → Keeps (Safe py env entry) (dispatch fl py env cfg entry decoded)
  unfolding dispatch
  dispatch-Safe (returned envelope) e = run_task-Safe envelope e
  dispatch-Safe (raised (malformed_envelope m)) e = dead_letter_entry-Safe _ _ _
  dispatch-Safe (raised exc) e = Keeps-throw exc
  dispatch-Safe cancelled e = Keeps-lift cancelled

  recover-Safe : (exc : Exn) → Keeps (Safe py env entry) (recover fl py env cfg entry exc)
  unfolding recover
  recover-Safe exc = search (keeps_rules, modify-Safe, retry_or_bury-Safe)

  attempt_entry-Safe : Keeps (Safe py env entry) (attempt_entry fl py env cfg entry)
  unfolding attempt_entry
  attempt_entry-Safe = Keeps-if _ _ _ run_broker-Safe (dispatch-Safe _ refl)

  clear_alive-Safe : Keeps (Safe py env entry) (run_call env (clear_alive (entry.entry_id ∷ [])))
  clear_alive-Safe = Keeps-perform _ _ _ (λ o w safe. (tt, safe))

  -- Whatever the transport, the scheduler, the handlers, the result store and the other coroutines
  -- do, an entry's handler acknowledges only that entry, and only after its job was handled, was put
  -- back on the clock, was parked in the dead letter queue, or turned out to be a duplicate.
  pub run_one-AckSafe :
      (s : State)
      → AckSafe py env entry
          (run_one fl py env cfg entry (record { state = s; trace = [] })).1.trace
  unfolding run_one
  run_one-AckSafe s =
      (Keeps-bind _ _ (modify-Safe _) (λ _.
          Keeps-finally _ _
            (Keeps-try_except _ _ _ attempt_entry-Safe clear_alive-Safe recover-Safe)
            (λ w safe. safe))).at
        (record { state = s; trace = [] }) tt
