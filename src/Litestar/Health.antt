-- ===== src/Litestar/Health.antt =====
-- The answer of a health probe: src/smallage/litestar/health.py.
use litestar_rs.Prelude.{ℕ, Text, Bool, true, false, Option, some, none, List, [], ◌∷◌}
use litestar_rs.Prelude.Int.{ℤ}
use litestar_rs.Python.{Python}
use litestar_rs.Effect.{World, pure, ◌>>=◌}
use litestar_rs.Effect.Keeps.{Keeps, Keeps-pure, Keeps-bind, Keeps-perform}
use litestar_rs.Core.Stats.{WorkerStats, no_stats}
use litestar_rs.Core.Transport.{Transport}
use litestar_rs.Core.Transport.Commands.{Command, xinfo_groups, Trace, Passes, Method, Redis}
use litestar_rs.Core.Transport.Upkeep.{lag, lag_from, add_lags}

-- `WorkerStats.snapshot`: the counters without those by reason.
pub record Snapshot : Type 0 where
  pub handled : ℕ
  pub failed : ℕ
  pub retried : ℕ
  pub buried : ℕ
  pub unknown_task : ℕ
  pub reclaimed : ℕ
  pub skipped_duplicate : ℕ
  pub in_flight : ℤ

unfoldable pub snapshot : WorkerStats → Snapshot
snapshot s = record {
  handled = s.handled;
  failed = s.failed;
  retried = s.retried;
  buried = s.buried;
  unknown_task = s.unknown_task;
  reclaimed = s.reclaimed;
  skipped_duplicate = s.skipped_duplicate;
  in_flight = s.in_flight;
}

pub record QueueHealth : Type 0 where
  pub namespace : Text
  pub group : Text
  pub queues : List Text
  pub lag_ : Option ℤ
  pub stats : Snapshot
  pub healthy : Bool

abbrev is_some : {A : Type 0} → Option A → Bool
is_some none = false
is_some (some a) = true

-- `stats or WorkerStats()`
abbrev or_none : Option WorkerStats → WorkerStats
or_none none = no_stats
or_none (some s) = s

module _ (py : Python) (redis : Redis) (self : Transport) where
  unfoldable pub queue_health : Option WorkerStats → Method QueueHealth
  queue_health stats = do
    depth ← lag py redis self
    pure (record {
      namespace = self.namespace;
      group = self.group;
      queues = self.queues;
      lag_ = depth;
      stats = snapshot (or_none stats);
      healthy = is_some depth;
    })

  abbrev IsLook : Command → Type 0
  IsLook (xinfo_groups stream) = Unit
  IsLook _ = ⊥

  -- Every command asks for the groups of a stream.
  abbrev pub OnlyLooks : Trace → Type 0
  OnlyLooks [] = Unit
  OnlyLooks (event ∷ before) = IsLook event.call × OnlyLooks before

  abbrev Looks : World Passes Command → Type 0
  Looks w = OnlyLooks w.trace

  next-Looks :
      (total : Option ℤ) (more : ℤ → Method (Option ℤ))
      → ((n : ℤ) → Keeps Looks (more n))
      → Keeps {A = Option ℤ} Looks
          (elim total as (λ t. Method (Option ℤ)) [ none ↦ pure none | some n ↦ more n ])
  next-Looks none more k = Keeps-pure none
  next-Looks (some n) more k = k n

  lag_from-Looks :
      (total : ℤ) (names : List Text) → Keeps Looks (lag_from py redis self total names)
  unfolding lag_from
  lag_from-Looks total [] = Keeps-pure (some total)
  lag_from-Looks total (stream ∷ more) =
      Keeps-bind _ _ (Keeps-perform _ _ _ (λ o w h. (tt, h)))
        (λ groups. next-Looks (add_lags py redis self total groups) _ (λ n. lag_from-Looks n more))

  -- A probe changes nothing in Redis: whatever Redis answers, it only asks for the groups of streams.
  pub queue_health-OnlyLooks :
      (stats : Option WorkerStats) (passes : Passes)
      → OnlyLooks (queue_health stats (record { state = passes; trace = [] })).1.trace
  unfolding queue_health lag
  queue_health-OnlyLooks stats passes =
      (Keeps-bind _ _ (lag_from-Looks _ _) (λ depth. Keeps-pure _)).at
        (record { state = passes; trace = [] }) tt
