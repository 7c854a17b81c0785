-- ===== src/Core/Stats.antt =====
-- What a worker has done: the counters of src/smallage/core/stats.py.
use litestar_rs.Prelude.{ℕ, ◌+◌, Text, some, none, List, [], ◌∷◌, ◌≡◌, refl, arith}
use litestar_rs.Prelude.Int.{ℤ, pos}
use litestar_rs.Prelude.Dict.{lookup, put}

pub record WorkerStats : Type 0 where
  pub handled : ℕ
  pub failed : ℕ
  pub retried : ℕ
  pub buried : ℕ
  pub unknown_task : ℕ
  pub reclaimed : ℕ
  pub skipped_duplicate : ℕ
  -- the only counter that goes down
  pub in_flight : ℤ
  pub buried_by_reason : List (Text × ℕ)

abbrev pub no_stats : WorkerStats
no_stats = record {
  handled = 0;
  failed = 0;
  retried = 0;
  buried = 0;
  unknown_task = 0;
  reclaimed = 0;
  skipped_duplicate = 0;
  in_flight = pos 0;
  buried_by_reason = [];
}

-- `counts.get(reason, 0)`
abbrev pub count_of : Text → List (Text × ℕ) → ℕ
count_of reason counts = elim (lookup reason counts) [ none ↦ 0 | some n ↦ n ]

unfoldable pub bury : Text → WorkerStats → WorkerStats
bury reason s = record s {
  buried = s.buried + 1;
  buried_by_reason = put reason (count_of reason s.buried_by_reason + 1) s.buried_by_reason;
}

unfoldable pub total : List (Text × ℕ) → ℕ
total [] = 0
total ((reason, n) ∷ counts) = n + total counts

total-put :
    (reason : Text) (counts : List (Text × ℕ))
    → total (put reason (count_of reason counts + 1) counts) ≡ total counts + 1
unfolding total put lookup
total-put reason [] = refl
total-put reason ((other, n) ∷ counts) = ground (arith, total-put reason counts)

-- The count of burials is the sum of the counts by reason.
abbrev pub IsCounted : WorkerStats → Type 0
IsCounted s = total s.buried_by_reason ≡ s.buried

-- Burying keeps the count of burials equal to the sum of the counts by reason.
pub bury-IsCounted : (reason : Text) (s : WorkerStats) → IsCounted s → IsCounted (bury reason s)
unfolding bury
bury-IsCounted reason s h = omega (arith, total-put reason s.buried_by_reason)
