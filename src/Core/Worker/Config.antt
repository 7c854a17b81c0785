-- ===== src/Core/Worker/Config.antt =====
-- `WorkerConfig`, `credits` and `Slots` of src/smallage/core/worker.py.
use litestar_rs.Prelude.{Bytes, Bool, true, List, [], ◌∷◌, member, discard, if◌then◌else◌}
use litestar_rs.Prelude.Int.{ℤ, pos, ◌-ℤ◌, leb_ℤ, ltb_ℤ}
use litestar_rs.Effect.{Outcome}
use litestar_rs.Core.Envelope.{◌>>◌}
use litestar_rs.Core.Floats.{Floats}
use litestar_rs.Core.Retry.{RetryPolicy, refuse}

pub record WorkerConfig (F : Type 0) : Type 0 where
  pub concurrency : ℤ
  pub alive_ttl_ms : ℤ
  pub min_idle_ms : ℤ
  pub reclaim_interval_s : F
  pub trim_interval_s : F
  pub retention_ms : ℤ
  pub consumer_idle_ms : ℤ
  pub drain_timeout_s : F
  pub retry : RetryPolicy F
  pub dedup_ttl_ms : ℤ
  pub leader_ttl_ms : ℤ
  pub scheduler_interval_s : F
  pub promote_limit : ℤ
  pub recovery_interval_s : F

module _ {F : Type 0} (fl : Floats F) where
  open fl use {of_int, mul, div, le, lt}

  -- `WorkerConfig.__post_init__`
  unfoldable pub check_config : WorkerConfig F → Outcome (Unit {0})
  check_config cfg = do
    refuse (ltb_ℤ cfg.concurrency (pos 1))
    refuse (leb_ℤ cfg.alive_ttl_ms (pos 0))
    refuse (lt cfg.drain_timeout_s (of_int (pos 0)))
    refuse (le (of_int cfg.leader_ttl_ms) (mul cfg.scheduler_interval_s (of_int (pos 1000))))

  unfoldable pub refresh_interval_s : WorkerConfig F → F
  refresh_interval_s cfg = div (div (of_int cfg.alive_ttl_ms) (of_int (pos 3))) (of_int (pos 1000))

-- Free slots, never negative.
unfoldable pub credits : ℤ → ℤ → ℤ
credits concurrency in_flight =
    let free = concurrency -ℤ in_flight in if ltb_ℤ (pos 0) free then free else pos 0

-- Each set is a list that holds an element once.
pub record Slots : Type 0 where
  pub ids : List Bytes
  pub unhandled : List Bytes
  pub recoverable : List Bytes
  pub freed : Bool

-- `set.add` and `set.update`
unfoldable pub add : Bytes → List Bytes → List Bytes
add x xs = if member x xs then xs else x ∷ xs

unfoldable pub add_all : List Bytes → List Bytes → List Bytes
unfolding add
add_all [] xs = xs
add_all (y ∷ ys) xs = add_all ys (add y xs)

unfoldable pub take : List Bytes → Slots → Slots
unfolding add_all
take entry_ids s = record s { ids = add_all entry_ids s.ids }

unfoldable pub release : Bytes → Slots → Slots
release entry_id s = record s { ids = discard entry_id s.ids; freed = true }

-- `for entry_id in entry_ids: slots.release(entry_id)`
unfoldable pub release_all : List Bytes → Slots → Slots
unfolding release
release_all [] s = s
release_all (entry_id ∷ entry_ids) s = release_all entry_ids (release entry_id s)
