-- ===== src/Tests/Calendars.antt =====
-- A calendar that knows one zone and one expression: every second.
use litestar_rs.Prelude.{ℕ, ◌+◌, ◌*◌, ◌/◌, ◌-◌, leb, ltb, text, some, none, ◌≡◌, refl, ap, arith}
use mathlib.Core.Path.{subst}
use litestar_rs.Prelude.Int.{ℤ, pos, pos_part, ◌≤ℤ◌, ◌*ℤ◌}
use litestar_rs.Effect.{Outcome, returned}
use litestar_rs.Core.Floats.{Floats}
use litestar_rs.Core.Cron.{CronJob, Calendar, next_fire_ms}
use litestar_rs.Core.Cron.Searching.{IsBefore, IsCalendar, IsWholeSecond, next_fire_ms-stable}

-- Floats with three digits after the point, as their thousandths.
abbrev thousandths : Floats ℕ
thousandths = record {
  of_int = λ n. pos_part n * 1000;
  add = ◌+◌;
  sub = ◌-◌;
  mul = λ a b. a * b / 1000;
  div = λ a b. a * 1000 / b;
  pow = λ a n. none;
  to_int = λ a. some (pos (a / 1000));
  le = leb;
  lt = ltb;
}

-- Moments are whole milliseconds.
abbrev seconds : Calendar ℕ (Unit {0}) ℕ ℕ
seconds = record {
  zone_info = λ name. returned tt;
  fromtimestamp = λ stamp zone. returned stamp;
  timestamp = λ m. m;
  cron_sim = λ expression after. returned after;
  next = λ after. some ((after / 1000 + 1) * 1000);
}

abbrev Fires : ℤ → Type 0
Fires n = (k : ℕ) × (n ≡ pos (k * 1000))

abbrev hourly : CronJob
hourly = record {
  name = text "report";
  expression = text "0 * * * *";
  task = text "report";
  payload = text "{}";
  queue = text "default";
  timezone = text "UTC";
}

returned_same : (a b : ℕ) → ◌≡◌ {A = Outcome ℕ} (returned a) (returned b) → a ≡ b
returned_same a b e = cc

found :
    (after occurrence sim : ℕ)
    → ◌≡◌ {A = Outcome ℕ} (returned after) (returned sim)
    → some ((sim / 1000 + 1) * 1000) ≡ some occurrence
    → Fires (pos occurrence) × IsBefore (pos after) (pos occurrence)
found after occurrence sim e there =
    let started = returned_same after sim e in
    let here : (sim / 1000 + 1) * 1000 ≡ occurrence = ground arith in
    ((sim / 1000 + 1, rw here refl), omega arith)

least :
    (after occurrence sim : ℕ) (n : ℤ)
    → ◌≡◌ {A = Outcome ℕ} (returned after) (returned sim)
    → some ((sim / 1000 + 1) * 1000) ≡ some occurrence
    → Fires n
    → IsBefore (pos after) n
    → pos occurrence ≤ℤ n
least after occurrence sim n e there (k, fires) h =
    let started = returned_same after sim e in
    let here : (sim / 1000 + 1) * 1000 ≡ occurrence = ground arith in
    let ahead : IsBefore (pos after) (pos (k * 1000)) = subst (IsBefore (pos after)) fires h in
    rw fires (omega arith)

asked : next_fire_ms thousandths seconds hourly (pos 1100) ≡ returned (some (pos 2000))
unfolding next_fire_ms
asked = refl

times : (k : ℕ) → pos k *ℤ pos 1000 ≡ pos (k * 1000)
unfolding ◌*ℤ◌
times k = ground arith

exact_product : (k : ℕ) → k * 1000 * 1000000 / 1000 ≡ k * 1000 * 1000
exact_product k = omega arith

exact_quotient : (k : ℕ) → k * 1000 * 1000 / 1000 ≡ k * 1000
exact_quotient k = omega arith

on_time :
    (sim occurrence : ℕ)
    → some ((sim / 1000 + 1) * 1000) ≡ some occurrence
    → IsWholeSecond thousandths seconds (λ m. pos m) occurrence
on_time sim occurrence there = record {
  second = pos (sim / 1000 + 1);
  milliseconds = rw (times (sim / 1000 + 1)) (ground arith);
  stamped = ground arith;
  exact = rw (times (sim / 1000 + 1)) (exact_product (sim / 1000 + 1));
  whole = rw (times (sim / 1000 + 1)) (ap (λ n. some (pos n)) (exact_quotient (sim / 1000 + 1)));
}

laws : IsCalendar thousandths seconds hourly (λ m. pos m) Fires tt
laws = record {
  known = refl;
  accepted = λ after. (after, refl);
  later = λ after occurrence sim e there. found after occurrence sim e there;
  first = λ after occurrence sim n e there fires h. least after occurrence sim n e there fires h;
  never = λ after sim n e stop fires. cc;
  at_seconds = λ sim occurrence there. on_time sim occurrence there;
}

next_fire_ms-stable_example :
    next_fire_ms thousandths seconds hourly (pos 1500) ≡ returned (some (pos 2000))
next_fire_ms-stable_example =
    next_fire_ms-stable thousandths seconds hourly (λ m. pos m) Fires tt laws (pos 1100) (pos 1500)
      (pos 2000) 1100 1500 (refl, refl) (refl, refl) asked (omega arith) (omega arith)
