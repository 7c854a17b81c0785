-- ===== src/Core/Scheduler/Occurrences.antt =====
-- The ids that `schedule_cron` reports are those of the jobs it wrote.
use mathlib.Core.List.{append-nil, append_assoc}
use litestar_rs.Prelude.{
  ℕ, Text, Bytes, Option, some, none, List, [], ◌∷◌, ◌++◌, ◌≡◌, arith, inl, inr,
}
use litestar_rs.Prelude.Int.{ℤ}
use litestar_rs.Python.{Python}
use litestar_rs.Effect.{
  Outcome, returned, raised, cancelled, Outcome-cases, status, World, lift, pure, ◌>>=◌,
}
use litestar_rs.Core.Cron.{CronJob, occurrence_id, occurrence_envelope}
use litestar_rs.Core.Envelope.{Envelope}
use litestar_rs.Core.Scheduler.{
  RedisScheduler, Job, Request, write_job, clock, Requests, Answers, schedule_at, schedule_from,
  schedule_cron, now_ms,
}

abbrev id_of : Request → List Text
id_of (write_job key fields set member score) = member ∷ []
id_of other = []

-- The ids of the jobs that were written, the first one first.
unfoldable pub written : Requests → List Text
written [] = []
written (event ∷ before) = written before ++ id_of event.call

module _ (py : Python) (crc32 : Bytes → ℕ) (next_fire_ms : CronJob → ℤ → Outcome (Option ℤ))
    (answers : Answers) (self : RedisScheduler) where
  abbrev add_next : CronJob → Outcome (Option ℤ) → List Text → List Text
  add_next job (returned (some fire_ms)) ids = occurrence_id py job fire_ms ∷ ids
  add_next job other ids = ids

  -- The ids of the next occurrences of the jobs that have one.
  unfoldable pub next_ids : ℤ → List CronJob → List Text
  next_ids now [] = []
  next_ids now (job ∷ jobs) = add_next job (next_fire_ms job now) (next_ids now jobs)

  schedule_at-written :
      (envelope : Envelope) (queue : Text) (when_ms : ℤ) (c : ℕ) (id result : Text)
      (w : World (Unit {0}) Request)
      → (schedule_at py crc32 next_fire_ms answers self envelope queue when_ms (some (c ∷ id)) w).0
        ≡ returned result
      → written
          (schedule_at py crc32 next_fire_ms answers self envelope queue when_ms
            (some (c ∷ id))
            w).1.trace
        ≡ written w.trace ++ (c ∷ id) ∷ []
  unfolding schedule_at written ◌>>=◌
  schedule_at-written envelope queue when_ms c id result w e = ground arith

  -- One job of the loop, before the rest.
  turn :
      (id : Text) (expected : List Text) (m : Job Text) (rest : Job (List Text))
      (w : World (Unit {0}) Request) (ids : List Text)
      → ((result : Text)
          → (m w).0 ≡ returned result
          → written (m w).1.trace ≡ written w.trace ++ id ∷ [])
      → ((v : World (Unit {0}) Request) (found : List Text)
          → (rest v).0 ≡ returned found
          → (written (rest v).1.trace ≡ written v.trace ++ found) × (found ≡ expected))
      → ((m >>= λ _. rest >>= λ found. pure (id ∷ found)) w).0 ≡ returned ids
      → (written ((m >>= λ _. rest >>= λ found. pure (id ∷ found)) w).1.trace
          ≡ written w.trace ++ ids)
        × (ids ≡ id ∷ expected)
  unfolding ◌>>=◌
  turn id expected m rest w ids hm hr e = elim (Outcome-cases (m w).0) [
    | inl (inl (r, q)) ↦ elim (Outcome-cases (rest (m w).1).0) [
      | inl (inl (found, p)) ↦
          let (one, same_ids) = hr (m w).1 found p in
          let first = hm r q in
          let all : ids ≡ id ∷ found = ground arith in
          (ground (arith, one, first, append_assoc (written w.trace) (id ∷ []) found), cc)
      | inl (inr (x, p)) ↦ ground arith
      | inr p ↦ ground arith
    ]
    | inl (inr (x, q)) ↦ ground arith
    | inr q ↦ ground arith
  ]

  schedule_from-written :
      (now : ℤ) (jobs : List CronJob) (w : World (Unit {0}) Request) (ids : List Text)
      → (schedule_from py crc32 next_fire_ms answers self now jobs w).0 ≡ returned ids
      → (written (schedule_from py crc32 next_fire_ms answers self now jobs w).1.trace
          ≡ written w.trace ++ ids)
        × (ids ≡ next_ids now jobs)
  unfolding schedule_from next_ids ◌>>=◌ occurrence_envelope occurrence_id
  schedule_from-written now [] w ids e = ground (arith, append-nil (written w.trace))
  schedule_from-written now (job ∷ jobs) w ids e =
      go (schedule_from-written now jobs) (next_fire_ms job now) e
    where
      rest : Job (List Text)
      rest = schedule_from py crc32 next_fire_ms answers self now jobs

      write : ℤ → Job Text
      write fire_ms =
          schedule_at py crc32 next_fire_ms answers self (occurrence_envelope py job fire_ms)
            job.queue fire_ms (some (occurrence_id py job fire_ms))

      pass : Option ℤ → Job (List Text)
      pass none = rest
      pass (some fire_ms) =
          write fire_ms >>= λ _. rest >>= λ ids. pure (occurrence_id py job fire_ms ∷ ids)

      go :
          ((v : World (Unit {0}) Request) (found : List Text)
            → (rest v).0 ≡ returned found
            → (written (rest v).1.trace ≡ written v.trace ++ found) × (found ≡ next_ids now jobs))
          → (o : Outcome (Option ℤ)) → ((lift o >>= pass) w).0 ≡ returned ids
          → (written ((lift o >>= pass) w).1.trace ≡ written w.trace ++ ids)
            × (ids ≡ add_next job o (next_ids now jobs))
      go later (returned none) h = later w ids h
      go later (returned (some fire_ms)) h =
          turn (occurrence_id py job fire_ms) (next_ids now jobs) (write fire_ms) rest w ids
            (λ r.
              schedule_at-written (occurrence_envelope py job fire_ms) job.queue fire_ms _ _ r w)
            later h
      go later (raised x) h = ground arith
      go later cancelled h = ground arith

  -- If `schedule_cron` returns, then it has written one job with each id that it reports, in that
  -- order and no other, and these are the ids of the next occurrences, after the time that Redis
  -- gave, of the jobs that have one: a second leader that reads the same time writes the same ids.
  pub schedule_cron-written :
      (jobs : List CronJob) (ids : List Text) (now : ℤ)
      → (now_ms py crc32 next_fire_ms answers self (record { state = tt; trace = [] })).0
        ≡ returned now
      → (schedule_cron py crc32 next_fire_ms answers self jobs
          (record { state = tt; trace = [] })).0
        ≡ returned ids
      → (written
            (schedule_cron py crc32 next_fire_ms answers self jobs
              (record { state = tt; trace = [] })).1.trace
          ≡ ids)
        × (ids ≡ next_ids now jobs)
  unfolding schedule_cron written now_ms ◌>>=◌
  schedule_cron-written jobs ids now clocked e = ground (
    arith,
    schedule_from-written now jobs
        (record {
          state = tt;
          trace = record { call = clock; status = status (answers.time []) } ∷ [];
        })
        ids,
  )
