-- ===== src/Core/Scheduler.antt =====
-- The scheduler on Redis: src/smallage/core/scheduler.py, and of src/smallage/core/scripts/promote.lua
-- what one pass makes of the hash of a job.
pub mod Lease
pub mod Promotion
pub mod Occurrences
use litestar_rs.Prelude.{
  ℕ, Text, Bytes, text, Bool, true, false, Option, some, none, List, [], ◌∷◌, ◌++◌, same,
  if◌then◌else◌,
}
use litestar_rs.Prelude.Int.{ℤ, pos, ◌+ℤ◌, ◌*ℤ◌, ltb_ℤ}
use litestar_rs.Prelude.Dict.{put}
use litestar_rs.Python.{Python, configuration_error}
use litestar_rs.Effect.{
  Outcome, Event, Act, returned, raised, cancelled, perform, pure, lift, ◌>>=◌, ◌>>◌,
}
use litestar_rs.Core.Cron.{CronJob, occurrence_envelope}
use litestar_rs.Core.Envelope.{Envelope, Fields, to_fields}
use litestar_rs.Core.Keys.{leader_key, sched_job_key, sched_key, stream_for, validate}
use litestar_rs.Core.Worker.Handler.{floor_div}

pub record RedisScheduler : Type 0 where
  pub namespace : Text
  pub shards : ℤ

-- `__init__`, with what `connection_kwarg` reads off the client
unfoldable pub init : Bool → Text → ℤ → Outcome RedisScheduler
init decodes namespace shards =
    if decodes
    then raised configuration_error
    else if ltb_ℤ shards (pos 1)
    then raised configuration_error
    else elim (validate namespace) [
      | returned name ↦ returned (record { namespace = name; shards = shards })
      | raised e ↦ raised e
      | cancelled ↦ cancelled
    ]

abbrev pub stream_field : Bytes
stream_field = text "_stream"

-- What it asks of Redis. `write_job` is the pipeline of HSET and ZADD, which Redis runs as one
-- transaction.
pub data Request : Type 0 where
  clock : Request
  -- key, fields, set, member, score
  write_job : Text → Fields → Text → Text → ℤ → Request
  run_promote : Text → ℤ → Text → Request
  zcard : Text → Request
  -- SET with NX and PX
  take_lease : Text → Text → ℤ → Request
  run_renew : Text → Text → ℤ → Request
  run_release : Text → Text → Request

abbrev pub Requests : Type 0
Requests = List (Event Request)

-- The answers, chosen from the requests before.
pub record Answers : Type 0 where
  pub time : Requests → Outcome (ℤ × ℤ)
  pub done : Requests → Outcome (Unit {0})
  pub number : Requests → Outcome ℤ
  pub flag : Requests → Outcome Bool
  pub ids : Requests → Outcome (List Bytes)

-- A scheduler has no field that changes.
abbrev pub Job : Type 0 → Type 0
Job A = Act (Unit {0}) Request A

abbrev pub request : {A : Type 0} → Request → (Requests → Outcome A) → Job A
request c answer = perform c answer (λ t s. s)

-- `scheduled_id or envelope.id`
abbrev pub id_or : Option Text → Text → Text
id_or none default = default
id_or (some []) default = default
id_or (some (c ∷ s)) default = c ∷ s

-- `fields` of `schedule_at`
unfoldable pub scheduled_fields : Python → Envelope → Text → Fields
scheduled_fields py envelope stream = put stream_field (py.encode stream) (to_fields py envelope)

module _ (py : Python) (crc32 : Bytes → ℕ) (next_fire_ms : CronJob → ℤ → Outcome (Option ℤ))
    (answers : Answers) (self : RedisScheduler) where
  unfoldable pub now_ms : Job ℤ
  now_ms = do
    (seconds, microseconds) ← request clock answers.time
    pure (seconds *ℤ pos 1000 +ℤ floor_div microseconds 1000)

  unfoldable pub schedule_at : Envelope → Text → ℤ → Option Text → Job Text
  schedule_at envelope queue when_ms scheduled_id = do
    let job_id = id_or scheduled_id envelope.id
    name ← lift (validate queue)
    stream ← lift (stream_for py crc32 self.namespace name self.shards envelope.id)
    request
        (write_job (sched_job_key self.namespace job_id) (scheduled_fields py envelope stream)
          (sched_key self.namespace) job_id when_ms)
        answers.done
    pure job_id

  unfoldable pub schedule_in : Envelope → Text → ℤ → Job Text
  schedule_in envelope queue delay_ms = do
    now ← now_ms
    schedule_at envelope queue (now +ℤ delay_ms) none

  -- The loop of `schedule_cron`, from an instant.
  unfoldable pub schedule_from : ℤ → List CronJob → Job (List Text)
  schedule_from now [] = pure []
  schedule_from now (job ∷ jobs) =
      let rest = schedule_from now jobs in
      lift (next_fire_ms job now) >>= λ next. elim next [
        | none ↦ rest
        | some fire_ms ↦ do
          schedule_at (occurrence_envelope py job fire_ms) job.queue fire_ms
              (some (occurrence_envelope py job fire_ms).id)
          ids ← rest
          pure ((occurrence_envelope py job fire_ms).id ∷ ids)
      ]

  unfoldable pub schedule_cron : List CronJob → Job (List Text)
  schedule_cron jobs = do now ← now_ms; schedule_from now jobs

  unfoldable pub promote : ℤ → Job (List Bytes)
  promote limit =
      request (run_promote (sched_key self.namespace) limit (sched_job_key self.namespace []))
        answers.ids

  unfoldable pub pending : Job ℤ
  pending = request (zcard (sched_key self.namespace)) answers.number

  unfoldable pub hold_leadership : Text → ℤ → Job Bool
  hold_leadership token ttl_ms = do
    taken ← request (take_lease (leader_key self.namespace) token ttl_ms) answers.flag
    if taken
        then pure true
        else request (run_renew (leader_key self.namespace) token ttl_ms) answers.flag

  unfoldable pub release_leadership : Text → Job Bool
  release_leadership token = request (run_release (leader_key self.namespace) token) answers.flag

-- The loop over `flat` in promote.lua: the stream to add to, and the fields of the new entry.
unfoldable pub promoted : Fields → Option Bytes × Fields
promoted [] = (none, [])
promoted ((name, value) ∷ flat) =
    let (stream, fields) = promoted flat in
    if same name stream_field
    then (elim stream [ none ↦ some value | some later ↦ some later ], fields)
    else (stream, (name, value) ∷ fields)
