-- ===== src/Core/Cron/Searching.antt =====
-- The next occurrence of a cron job, asked for at different moments.
use litestar_rs.Prelude.{
  ◌<◌, ◌+◌, Option, Option-cases, none, some, ◌≡◌, inl, inr, refl, sym, ap, ◌∙◌, arith,
}
use mathlib.Core.Path.{subst}
use litestar_rs.Prelude.Int.{ℤ, pos, pos_part, neg_part, ◌≤ℤ◌, ◌*ℤ◌, eq_of_parts}
use litestar_rs.Effect.{returned}
use litestar_rs.Core.Floats.{Floats}
use litestar_rs.Core.Cron.{CronJob, Calendar, fire_ms_of, next_fire_ms}

abbrev pub IsBefore : ℤ → ℤ → Type 0
IsBefore a b = pos_part a + neg_part b < pos_part b + neg_part a

result-some : (result : Option ℤ) (n : ℤ) → returned result ≡ returned (some n) → result ≡ some n
result-some result n e = cc

module _ {F Z M S : Type 0} (fl : Floats F) (calendar : Calendar F Z M S) where
  -- A moment at a whole second, whose timestamp a float holds, and its milliseconds too.
  pub record IsWholeSecond (ms : M → ℤ) (moment : M) : Type 0 where
    pub second : ℤ
    pub milliseconds : ms moment ≡ second *ℤ pos 1000
    pub stamped : calendar.timestamp moment ≡ fl.of_int second
    pub exact : fl.mul (fl.of_int second) (fl.of_int (pos 1000)) ≡ fl.of_int (second *ℤ pos 1000)
    pub whole : fl.to_int (fl.of_int (second *ℤ pos 1000)) ≡ some (second *ℤ pos 1000)

  fire_ms_of-ms :
      (ms : M → ℤ) (moment : M)
      → IsWholeSecond ms moment
      → fire_ms_of fl calendar moment ≡ returned (ms moment)
  fire_ms_of-ms ms moment w = rw (w.stamped, w.exact, w.whole, w.milliseconds) refl

module _ {F Z M S : Type 0} (fl : Floats F) (calendar : Calendar F Z M S) (job : CronJob) where
  -- What the libraries document, for the zone and the expression of one job that was accepted. `ms`
  -- is the millisecond of a moment, and `Fires` are those at which the expression has an occurrence.
  pub record IsCalendar (ms : M → ℤ) (Fires : ℤ → Type 0) (zone : Z) : Type 0 where
    pub known : calendar.zone_info job.timezone ≡ returned zone
    pub accepted : (after : M) → (sim : S) × (calendar.cron_sim job.expression after ≡ returned sim)
    -- An occurrence is the first after the moment that the search began at.
    pub later :
        (after occurrence : M) (sim : S)
        → calendar.cron_sim job.expression after ≡ returned sim
        → calendar.next sim ≡ some occurrence
        → Fires (ms occurrence) × IsBefore (ms after) (ms occurrence)
    pub first :
        (after occurrence : M) (sim : S) (fire_ms : ℤ)
        → calendar.cron_sim job.expression after ≡ returned sim
        → calendar.next sim ≡ some occurrence
        → Fires fire_ms
        → IsBefore (ms after) fire_ms
        → ms occurrence ≤ℤ fire_ms
    pub never :
        (after : M) (sim : S) (fire_ms : ℤ)
        → calendar.cron_sim job.expression after ≡ returned sim
        → calendar.next sim ≡ none
        → Fires fire_ms
        → fire_ms ≤ℤ ms after
    -- Occurrences are at whole seconds.
    pub at_seconds :
        (sim : S) (occurrence : M)
        → calendar.next sim ≡ some occurrence
        → IsWholeSecond fl calendar ms occurrence

  -- A moment that `datetime` gives for a number of milliseconds.
  abbrev pub IsAt : (M → ℤ) → Z → ℤ → M → Type 0
  IsAt ms zone n m =
      (calendar.fromtimestamp (fl.div (fl.of_int n) (fl.of_int (pos 1000))) zone ≡ returned m)
      × (ms m ≡ n)

  module _ (ms : M → ℤ) (Fires : ℤ → Type 0) (zone : Z) (laws : IsCalendar ms Fires zone) where
    -- What is found from a moment.
    abbrev Found : ℤ → M → Option ℤ → Type 0
    Found n after none =
        (sim : S) × (calendar.cron_sim job.expression after ≡ returned sim)
        × (calendar.next sim ≡ none)
    Found n after (some fire_ms) =
        (sim : S) × (calendar.cron_sim job.expression after ≡ returned sim)
        × (occurrence : M) × (calendar.next sim ≡ some occurrence)
        × (ms occurrence ≡ fire_ms)

    found :
        (n : ℤ) (after : M)
        → IsAt ms zone n after
        → (result : Option ℤ) × (next_fire_ms fl calendar job n ≡ returned result)
          × Found n after result
    unfolding next_fire_ms
    found n after at =
        let (sim, accepted) = laws.accepted after in
        elim (Option-cases (calendar.next sim)) [
          | inl stop ↦ (
            none,
            rw (laws.known, next_fire_ms)
                (rw (at.0, next_fire_ms)
                  (rw (accepted, next_fire_ms) (rw (stop, next_fire_ms) refl))),
            (sim, accepted, stop),
          )
          | inr (occurrence, there) ↦ (
            some (ms occurrence),
            rw (laws.known, next_fire_ms)
                (rw (at.0, next_fire_ms)
                  (rw (accepted, next_fire_ms)
                    (rw (there, next_fire_ms)
                      (rw
                        (
                          fire_ms_of-ms fl calendar ms occurrence
                              (laws.at_seconds sim occurrence there),
                          next_fire_ms,
                        )
                        refl)))),
            (sim, accepted, occurrence, there, refl),
          )
        ]

    -- Two searches with the same occurrence between them and nothing before it agree.
    agree :
        (n later_n fire_ms : ℤ) (after later_after : M) (result : Option ℤ)
        → ms after ≡ n
        → ms later_after ≡ later_n
        → n ≤ℤ later_n
        → IsBefore later_n fire_ms
        → Found n after (some fire_ms)
        → Found later_n later_after result
        → result ≡ some fire_ms
    agree n later_n fire_ms after later_after none here there le before (sim, accepted, o, next, at)
          (sim', accepted', stop) =
        let fires = (laws.later after o sim accepted next).0 in
        let missed : fire_ms ≤ℤ later_n =
          rw (← there) (rw (← at) (laws.never later_after sim' (ms o) accepted' stop fires)) in
        absurd (omega arith)
    agree n later_n fire_ms after later_after (some other) here there le before
          (sim, accepted, o, next, at) (sim', accepted', o', next', at') =
        let (fires, ahead) = laws.later after o sim accepted next in
        let (fires', ahead') = laws.later later_after o' sim' accepted' next' in
        let ahead_of : IsBefore (ms later_after) (ms o) = rw (there, at) before in
        let order : ms after ≤ℤ ms later_after = rw (here, there) le in
        let behind : IsBefore (ms after) (ms o') = omega arith in
        let one = laws.first later_after o' sim' (ms o) accepted' next' fires ahead_of in
        let two = laws.first after o sim (ms o') accepted next fires' behind in
        ap some (sym at' ∙ (eq_of_parts (ms o') (ms o) (omega arith) ∙ at))

    -- Whoever asks for the next occurrence of a cron job is given the same one until it has come,
    -- however often and from whichever worker it is asked for, under what the libraries for dates
    -- and cron expressions document: the first occurrence strictly after the moment asked about.
    pub next_fire_ms-stable :
        (n later_n fire_ms : ℤ) (after later_after : M)
        → IsAt ms zone n after
        → IsAt ms zone later_n later_after
        → next_fire_ms fl calendar job n ≡ returned (some fire_ms)
        → n ≤ℤ later_n
        → IsBefore later_n fire_ms
        → next_fire_ms fl calendar job later_n ≡ returned (some fire_ms)
    next_fire_ms-stable n later_n fire_ms after later_after at at' fired le before =
        let (result, e, search) = found n after at in
        let (result', e', search') = found later_n later_after at' in
        let known : result ≡ some fire_ms = result-some result fire_ms (sym e ∙ fired) in
        e'
        ∙ ap returned (
            agree n later_n fire_ms after later_after result' at.1 at'.1 le before
              (subst (Found n after) known search) search')
