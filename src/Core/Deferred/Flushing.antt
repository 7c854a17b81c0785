-- ===== src/Core/Deferred/Flushing.antt =====
-- What a flush publishes, and what it leaves in the buffer.
use mathlib.Core.List.{append_assoc}
use litestar_rs.Prelude.{
  Text, Bytes, List, [], ◌∷◌, ◌++◌, ◌≡◌, ◌≢◌, ◌∙◌, refl, arith, ◌⊎◌, inl, inr,
}
use litestar_rs.Python.{Python}
use litestar_rs.Effect.{
  Outcome, returned, raised, cancelled, Outcome-cases, World, Act, status, continue, pure, ◌>>=◌,
  perform,
}
use litestar_rs.Effect.Keeps.{Keeps, Keeps-pure, Keeps-perform, Keeps-bind}
use litestar_rs.Core.Envelope.{Envelope}
use litestar_rs.Core.Deferred.{Buffer, Publish, publish, Published, Target, publish_all, flush}

abbrev job_of : Publish → Envelope × Text
job_of (publish envelope queue) = (envelope, queue)

-- The jobs that were handed to the target, the first one first.
unfoldable pub jobs : Published → Buffer
jobs [] = []
jobs (event ∷ before) = jobs before ++ job_of event.call ∷ []

module _ (m : Act Buffer Publish (List Bytes)) (id : Bytes) (v : World Buffer Publish) where
  abbrev with_id : Act Buffer Publish (List Bytes)
  with_id = m >>= λ ids. pure (id ∷ ids)

  world-with_id : (with_id v).1 ≡ (m v).1
  unfolding ◌>>=◌
  world-with_id = ground arith

  with_id-fails :
      ((ids : List Bytes) → (m v).0 ≢ returned ids)
      → (ids : List Bytes) → (with_id v).0 ≢ returned ids
  unfolding ◌>>=◌
  with_id-fails failed ids = elim (Outcome-cases (m v).0) [
    | inl (inl (found, q)) ↦ absurd (failed found q)
    | inl (inr (x, q)) ↦ ground arith
    | inr q ↦ ground arith
  ]

module _ (py : Python) (target : Target) where
  -- What was handed over, what was not, and when the rest is empty.
  publish_all-split :
      (buffered : Buffer) (w : World Buffer Publish)
      → (unsent : Buffer) × (jobs (publish_all py target buffered w).1.trace ++ unsent
          ≡ jobs w.trace ++ buffered)
        × ((unsent ≡ [])
            ⊎ ((ids : List Bytes) → (publish_all py target buffered w).0 ≢ returned ids))
  unfolding publish_all jobs ◌>>=◌ perform
  publish_all-split [] w = ([], refl, inl refl)
  publish_all-split (job ∷ buffered) w = go (publish_all-split buffered) (target.new_id w.trace)
    where
      next : Outcome Bytes → World Buffer Publish
      next o = record {
        state = target.others w.trace w.state;
        trace = record { call = publish job.0 job.1; status = status o } ∷ w.trace;
      }

      publish_rest : Bytes → Act Buffer Publish (List Bytes)
      publish_rest id = publish_all py target buffered >>= λ ids. pure (id ∷ ids)

      go :
          ((v : World Buffer Publish)
            → (unsent : Buffer) × (jobs (publish_all py target buffered v).1.trace ++ unsent
                ≡ jobs v.trace ++ buffered)
              × ((unsent ≡ [])
                  ⊎ ((ids : List Bytes) → (publish_all py target buffered v).0 ≢ returned ids)))
          → (o : Outcome Bytes)
          → (unsent : Buffer) × (jobs (continue o publish_rest (next o)).1.trace ++ unsent
              ≡ jobs w.trace ++ job ∷ buffered)
            × ((unsent ≡ [])
                ⊎ ((ids : List Bytes) → (continue o publish_rest (next o)).0 ≢ returned ids))
      go later (returned id) =
          let (unsent, split, sent) = later (next (returned id)) in
          (
            unsent,
            rw (world-with_id (publish_all py target buffered) id (next (returned id)))
                (split ∙ append_assoc (jobs w.trace) (job ∷ []) buffered),
            elim sent [
              | inl all ↦ inl all
              | inr failed ↦
                  inr
                    (with_id-fails (publish_all py target buffered) id (next (returned id)) failed)
            ],
          )
      go later (raised x) =
          (buffered, append_assoc (jobs w.trace) (job ∷ []) buffered, inr (λ ids. ground arith))
      go later cancelled =
          (buffered, append_assoc (jobs w.trace) (job ∷ []) buffered, inr (λ ids. ground arith))

  -- However a flush ends, it has handed the target a first part of what was buffered, each job once
  -- and the oldest first; all of it, unless the flush failed.
  pub flush-split :
      (buffered : Buffer)
      → (unsent : Buffer) × (jobs
              (flush py target (record { state = buffered; trace = [] })).1.trace
            ++ unsent
          ≡ buffered)
        × ((unsent ≡ [])
            ⊎ ((ids : List Bytes)
                → (flush py target (record { state = buffered; trace = [] })).0 ≢ returned ids))
  unfolding flush jobs ◌>>=◌
  flush-split buffered = publish_all-split buffered (record { state = []; trace = [] })

  -- If the other coroutines leave the buffer alone, a flush leaves it empty, whether it failed or
  -- not: no job that the flush took is there to be published again.
  pub state-flush :
      ((t : Published) (b : Buffer) → target.others t b ≡ b)
      → (buffered : Buffer)
      → (flush py target (record { state = buffered; trace = [] })).1.state ≡ []
  unfolding flush publish_all ◌>>=◌
  state-flush quiet buffered = (keeps buffered).at (record { state = []; trace = [] }) refl
    where
      keeps : (b : Buffer) → Keeps (λ w. w.state ≡ []) (publish_all py target b)
      keeps [] = Keeps-pure []
      keeps (job ∷ b) =
          Keeps-bind _ _ (Keeps-perform _ _ _ (λ o w h. quiet w.trace w.state ∙ h))
            (λ id. Keeps-bind _ _ (keeps b) (λ ids. Keeps-pure (id ∷ ids)))
