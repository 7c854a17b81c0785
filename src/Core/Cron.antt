-- ===== src/Core/Cron.antt =====
-- Cron jobs and their occurrences: src/smallage/core/cron.py. Time zones and the search for the next
-- instant are calls of `zoneinfo` and `cronsim`, which are parameters.
pub mod Searching
use litestar_rs.Prelude.{
  Text, Bytes, text, Bool, true, false, ◌||◌, not, Option, none, some, [], ◌∷◌, ◌++◌, has_char,
}
use litestar_rs.Prelude.Int.{ℤ, pos}
use litestar_rs.Python.{Python, overflow_error}
use litestar_rs.Effect.{Outcome, returned, raised, cancelled}
use litestar_rs.Core.Envelope.{Envelope, or_raise, ◌>>◌, ◌>>=◌}
use litestar_rs.Core.Floats.{Floats}
use litestar_rs.Core.Retry.{refuse}

pub record CronJob : Type 0 where
  pub name : Text
  pub expression : Text
  pub task : Text
  pub payload : Bytes
  pub queue : Text
  pub timezone : Text

abbrev is_empty : Text → Bool
is_empty [] = true
is_empty (c ∷ s) = false

-- `CronJob.__post_init__`: `zone_known` and `expression_valid` are what `ZoneInfo` and `CronSim` say.
unfoldable pub check_job : (Text → Bool) → (Text → Bool) → CronJob → Outcome (Unit {0})
check_job zone_known expression_valid job = do
  refuse (is_empty job.name || has_char b':' job.name)
  refuse (not (zone_known job.timezone))
  refuse (not (expression_valid job.expression))

-- `zoneinfo`, `datetime` and `cronsim`, with `Z` the type of zones, `M` of moments in a zone and `S`
-- of searches.
pub record Calendar (F Z M S : Type 0) : Type 0 where
  pub zone_info : Text → Outcome Z
  pub fromtimestamp : F → Z → Outcome M
  pub timestamp : M → F
  pub cron_sim : Text → M → Outcome S
  -- `none` is StopIteration
  pub next : S → Option M

module _ {F Z M S : Type 0} (fl : Floats F) (calendar : Calendar F Z M S) where
  -- `int(occurrence.timestamp() * 1000)`
  abbrev pub fire_ms_of : M → Outcome ℤ
  fire_ms_of occurrence =
      or_raise overflow_error
        (fl.to_int (fl.mul (calendar.timestamp occurrence) (fl.of_int (pos 1000))))

  unfoldable pub next_fire_ms : CronJob → ℤ → Outcome (Option ℤ)
  next_fire_ms job after_ms = do
    zone ← calendar.zone_info job.timezone
    after ← calendar.fromtimestamp (fl.div (fl.of_int after_ms) (fl.of_int (pos 1000))) zone
    sim ← calendar.cron_sim job.expression after
    elim (calendar.next sim) [
      | none ↦ returned none
      | some occurrence ↦ do fire_ms ← fire_ms_of occurrence; returned (some fire_ms)
    ]

-- `f"cron:{job.name}:{fire_ms}"`
unfoldable pub occurrence_id : Python → CronJob → ℤ → Text
occurrence_id py job fire_ms = text "cron:" ++ (job.name ++ (text ":" ++ py.str_int fire_ms))

unfoldable pub occurrence_envelope : Python → CronJob → ℤ → Envelope
occurrence_envelope py job fire_ms = record {
  id = occurrence_id py job fire_ms;
  task = job.task;
  payload = job.payload;
  enqueued_at = fire_ms;
  attempt = pos 0;
  payload_ref = none;
  traceparent = none;
  tracestate = none;
  dedup = none;
  result_ttl_ms = none;
  history = [];
}
