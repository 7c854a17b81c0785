-- ===== src/Tests/Scheduling.antt =====
-- Jobs that are put on the clock, and jobs that wait for a commit.
use litestar_rs.Prelude.{
  true, Option, has_char, Bytes, length, text, some, [], ◌∷◌, ◌++◌, ◌≡◌, ◌≢◌, ◌⊎◌, refl, List,
}
use litestar_rs.Prelude.Int.{ℤ, pos, ◌+ℤ◌, ◌*ℤ◌}
use litestar_rs.Python.{plain}
use litestar_rs.Effect.{Outcome, returned, ◌>>=◌}
use litestar_rs.Core.Cron.{CronJob, occurrence_id, occurrence_envelope}
use litestar_rs.Core.Deferred.{Buffer, Target, flush}
use litestar_rs.Core.Deferred.Flushing.{jobs, flush-split}
use litestar_rs.Core.Keys.{validate, stream_for, stream_keys, range_from}
use litestar_rs.Core.Scheduler.{
  RedisScheduler, Answers, schedule_cron, schedule_from, schedule_at, now_ms,
}
use litestar_rs.Core.Scheduler.Occurrences.{written, next_ids, schedule_cron-written}
use litestar_rs.Core.Worker.Handler.{floor_div}
use litestar_rs.Tests.Samples.{job}

abbrev answers : Answers
answers = record {
  time = λ t. returned (pos 5, pos 7000);
  done = λ t. returned tt;
  number = λ t. returned (pos 0);
  flag = λ t. returned true;
  ids = λ t. returned [];
}

abbrev scheduler : RedisScheduler
scheduler = record { namespace = text "lrs"; shards = pos 1 }

abbrev nightly : CronJob
nightly = record {
  name = text "nightly";
  expression = text "0 3 * * *";
  task = text "report";
  payload = [];
  queue = text "default";
  timezone = text "UTC";
}

abbrev fires : CronJob → ℤ → Outcome (Option ℤ)
fires _ _ = returned (some (pos 9000))

schedule_cron-written_example :
    (written
        (schedule_cron plain length fires answers scheduler
          (nightly ∷ [])
          (record { state = tt; trace = [] })).1.trace
      ≡ occurrence_id plain nightly (pos 9000) ∷ [])
    × (occurrence_id plain nightly (pos 9000) ∷ []
        ≡ next_ids plain length fires answers scheduler (pos 5007) (nightly ∷ []))
unfolding schedule_cron schedule_from schedule_at now_ms validate has_char stream_for stream_keys
    floor_div ◌*ℤ◌ ◌+ℤ◌ range_from occurrence_envelope occurrence_id ◌>>=◌
schedule_cron-written_example =
    schedule_cron-written plain length fires answers scheduler (nightly ∷ [])
      (occurrence_id plain nightly (pos 9000) ∷ []) (pos 5007) refl refl

abbrev target : Target
target = record { new_id = λ t. returned (text "8-0"); others = λ t b. b }

flush-split_example :
    (unsent : Buffer) × (jobs
          (flush plain target (record { state = (job, text "default") ∷ []; trace = [] })).1.trace
        ++ unsent
      ≡ (job, text "default") ∷ [])
    × ((unsent ≡ [])
        ⊎ ((ids : List Bytes)
            → (flush plain target (record { state = (job, text "default") ∷ []; trace = [] })).0
              ≢ returned ids))
flush-split_example = flush-split plain target ((job, text "default") ∷ [])
