-- ===== src/Core/Retry.antt =====
-- Retry thresholds and backoff: src/smallage/core/retry.py.
pub mod History
use litestar_rs.Prelude.{
  ℕ, ◌+◌, ◌-◌, ◌/◌, Text, text, Bool, true, false, ◌&&◌, not, Option, some, none, List, [], ◌∷◌,
  ◌++◌, map, ◌==◌, length, take, drop, if◌then◌else◌,
}
use litestar_rs.Prelude.Int.{ℤ, pos, negsuc, ◌-ℤ◌, leb_ℤ, ltb_ℤ}
use litestar_rs.Python.{Python, Exn, configuration_error, overflow_error, value_error}
use litestar_rs.Effect.{Outcome, returned, raised}
use litestar_rs.Core.Envelope.{◌>>=◌, ◌>>◌, or_raise}
use litestar_rs.Core.Floats.{Floats}

pub record RetryPolicy (F : Type 0) : Type 0 where
  pub max_attempts : ℤ
  pub max_deliveries : ℤ
  pub initial_backoff_ms : ℤ
  pub max_backoff_ms : ℤ
  pub multiplier : F
  pub jitter : F
  pub unknown_task_timeout_ms : ℤ
  pub unknown_task_backoff_ms : ℤ
  pub history_limit : ℤ
  pub history_line_bytes : ℤ

-- `if bad: raise ConfigurationError(...)`
abbrev pub refuse : Bool → Outcome (Unit {0})
refuse true = raised configuration_error
refuse false = returned tt

-- `xs[:n]`: from a negative `n`, all but that many at the end
unfoldable pub slice_to : {A : Type 0} → ℤ → List A → List A
slice_to (pos n) xs = take n xs
slice_to (negsuc n) xs = take (length xs - (n + 1)) xs

-- `xs[n:]`: from a negative `n`, that many at the end
unfoldable pub slice_from : {A : Type 0} → ℤ → List A → List A
slice_from (pos n) xs = drop n xs
slice_from (negsuc n) xs = drop (length xs - (n + 1)) xs

-- `s.replace("\n", " ")`
unfoldable pub replace_newlines : Text → Text
replace_newlines s = map (λ c. if c == 10 then 32 else c) s

-- `f"{attempt}: {type(error).__name__}: {error}".replace("\n", " ")`
unfoldable pub failure_line : Python → ℤ → Exn → Text
unfolding replace_newlines
failure_line py attempt error =
    replace_newlines (
      py.str_int attempt ++ (text ": " ++ (py.class_name error ++ (text ": " ++ py.message error))))

module _ {F : Type 0} (fl : Floats F) where
  open fl use {of_int, add, sub, mul, pow, to_int, le, lt}

  -- `min(a, b)` and `max(0, n)`
  abbrev float_min : F → F → F
  float_min a b = if lt b a then b else a

  -- `RetryPolicy.__post_init__`
  unfoldable pub check_policy : RetryPolicy F → Outcome (Unit {0})
  check_policy p = do
    refuse (ltb_ℤ p.max_attempts (pos 0))
    refuse (ltb_ℤ p.max_deliveries (pos 1))
    refuse (ltb_ℤ p.initial_backoff_ms (pos 1))
    refuse (ltb_ℤ p.max_backoff_ms p.initial_backoff_ms)
    refuse (lt p.multiplier (of_int (pos 1)))
    refuse (not (le (of_int (pos 0)) p.jitter && le p.jitter (of_int (pos 1))))
    refuse (ltb_ℤ p.unknown_task_timeout_ms (pos 0))

  unfoldable pub delay_ms : RetryPolicy F → ℤ → F → Outcome ℤ
  delay_ms p attempt rand = do
    power ← or_raise overflow_error (pow p.multiplier attempt)
    let base = float_min (mul (of_int p.initial_backoff_ms) power) (of_int p.max_backoff_ms)
    let spread = mul (mul base p.jitter) (sub (mul (of_int (pos 2)) rand) (of_int (pos 1)))
    n ← or_raise value_error (to_int (add base spread))
    returned (if ltb_ℤ (pos 0) n then n else pos 0)

module _ {F : Type 0} where
  unfoldable pub exhausted : RetryPolicy F → ℤ → Bool
  exhausted p attempt = leb_ℤ p.max_attempts attempt

  unfoldable pub over_delivered : RetryPolicy F → ℤ → Bool
  over_delivered p times_delivered = ltb_ℤ p.max_deliveries times_delivered

  unfoldable pub unknown_task_expired : RetryPolicy F → ℤ → Bool
  unknown_task_expired p age_ms = ltb_ℤ p.unknown_task_timeout_ms age_ms

  unfoldable pub record_failure : Python → RetryPolicy F → List Text → ℤ → Exn → List Text
  unfolding slice_from slice_to
  record_failure py p history attempt error =
      slice_from (pos 0 -ℤ p.history_limit)
        (history ++ (slice_to p.history_line_bytes (failure_line py attempt error) ∷ []))
