-- ===== src/Core/Worker/Loops/Reclaiming.antt =====
-- Which entries `_reclaim_loop` takes over, and what it does with those that killed their owners.
use litestar_rs.Prelude.{
  Text, Bytes, Bool-cases, true, false, List, [], ◌∷◌, ◌≡◌, ◌⊎◌, inl, inr, arith, ◌≢◌, member,
  discard, same_iff,
}
use litestar_rs.Prelude.Int.{ℤ}
use litestar_rs.Python.{Python}
use litestar_rs.Effect.{returned, succeeded, World, modify, ◌>>=◌}
use litestar_rs.Effect.Keeps.{Keeps, Keeps-pure, Keeps-bind, Keeps-perform, Keeps-asks, Keeps-if}
use litestar_rs.Core.Envelope.{Record, Pending}
use litestar_rs.Core.Floats.{Floats}
use litestar_rs.Core.Retry.{over_delivered}
use litestar_rs.Core.Worker.Config.{WorkerConfig}
use litestar_rs.Core.Worker.Calls.{State, Call, ack, dead_letter, spawn, reclaim, Trace, call, Env}
use litestar_rs.Core.Worker.Handler.{dead_letter_entry, ack_record, on_slots}
use litestar_rs.Core.Worker.Loops.{bury_all, adopt, is_skipped, reclaim_candidate}

module _ {F : Type 0} where
  abbrev Parks : Text → List Bytes → Call F → Type 0
  Parks stream ids (dead_letter parked _ _ _) =
      (parked.stream ≡ stream) × (parked.entry_id ∷ [] ≡ ids)
  Parks stream ids _ = ⊥

  -- The record of that stream and id was written to the dead letter queue before the trace ends.
  abbrev pub IsParked : Text → List Bytes → Trace F → Type 0
  IsParked stream ids [] = ⊥
  IsParked stream ids (event ∷ before) =
      ((event.status ≡ succeeded) × Parks stream ids event.call) ⊎ IsParked stream ids before

  abbrev pub IsBurial : Call F → Trace F → Type 0
  IsBurial (ack stream ids) before = IsParked stream ids before
  IsBurial (spawn _) before = ⊥
  IsBurial _ before = Unit

  -- Nothing was let run, and every acknowledgement came after its record was parked.
  abbrev pub OnlyBurials : Trace F → Type 0
  OnlyBurials [] = Unit
  OnlyBurials (event ∷ before) = IsBurial event.call before × OnlyBurials before

  abbrev Buried : World State (Call F) → Type 0
  Buried w = OnlyBurials w.trace

module _ {F : Type 0} (fl : Floats F) (py : Python) (env : Env F) (cfg : WorkerConfig F) where
  modify-Buried : (f : State → State) → Keeps (Buried {F = F}) (modify f)
  unfolding modify
  modify-Buried f = record { at = λ w h. h }

  dead_letter_entry-Buried :
      (entry : Record) (reason detail : Text) (times : ℤ)
      → Keeps Buried (dead_letter_entry fl py env cfg entry reason detail times)
  unfolding dead_letter_entry ack_record ◌>>=◌
  dead_letter_entry-Buried entry reason detail times = record { at = λ w h. ground arith }

  bury_all-Buried :
      (candidate : Pending) (records : List Record)
      → Keeps Buried (bury_all fl py env cfg candidate records)
  unfolding bury_all
  bury_all-Buried candidate [] = Keeps-pure tt
  bury_all-Buried candidate (entry ∷ records) =
      Keeps-bind _ _ (dead_letter_entry-Buried entry _ _ _) (λ _. bury_all-Buried candidate records)

  adopt-Buried :
      (candidate : Pending) (records : List Record)
      → over_delivered cfg.retry candidate.times_delivered ≡ true
      → Keeps Buried (adopt fl py env cfg candidate records)
  unfolding adopt
  adopt-Buried candidate [] over = Keeps-pure tt
  adopt-Buried candidate (entry ∷ more) over = rw over (bury_all-Buried candidate (entry ∷ more))

  reclaim-Buried :
      (candidate : Pending)
      → over_delivered cfg.retry candidate.times_delivered ≡ true
      → Keeps Buried (reclaim_candidate fl py env cfg candidate)
  unfolding reclaim_candidate
  reclaim-Buried candidate over = Keeps-bind _ _ (Keeps-asks _) (λ skip.
      Keeps-if skip _ _ (Keeps-pure tt) (
        Keeps-bind _ _ (modify-Buried _) (λ _.
          Keeps-bind _ _ (Keeps-perform _ _ _ (λ o w h. (tt, h)))
            (λ records. adopt-Buried candidate records over))))

  -- A candidate that was delivered more often than the policy allows is never let run, whatever is
  -- reclaimed for it: each of its records is acknowledged only after it was parked.
  pub reclaim_candidate-OnlyBurials :
      (candidate : Pending) (s : State)
      → over_delivered cfg.retry candidate.times_delivered ≡ true
      → OnlyBurials
          (reclaim_candidate fl py env cfg candidate (record { state = s; trace = [] })).1.trace
  reclaim_candidate-OnlyBurials candidate s over =
      (reclaim-Buried candidate over).at (record { state = s; trace = [] }) tt

  -- Where a candidate is taken over from.
  abbrev pub let_over : Pending → World State (Call F) → World State (Call F)
  let_over candidate w = record w {
    state =
        on_slots (λ s. record s { recoverable = discard candidate.entry_id s.recoverable }) w.state;
  }

  -- A candidate that was handed back here, that is in flight here, or that is this consumer's own
  -- and not left over from an earlier run is passed over, with no call and no change of state. Any
  -- other is first taken off the entries left over, and then reclaimed.
  pub reclaim_candidate_cases :
      (candidate : Pending) (w : World State (Call F))
      → (((member candidate.entry_id w.state.slots.unhandled ≡ true)
            ⊎ (member candidate.entry_id w.state.slots.ids ≡ true)
            ⊎ (candidate.consumer ≡ env.consumer)
              × (member candidate.entry_id w.state.slots.recoverable ≡ false))
          × (reclaim_candidate fl py env cfg candidate w ≡ (returned tt, w)))
        ⊎ ((member candidate.entry_id w.state.slots.unhandled ≡ false)
            × (member candidate.entry_id w.state.slots.ids ≡ false)
            × ((candidate.consumer ≢ env.consumer)
                ⊎ (member candidate.entry_id w.state.slots.recoverable ≡ true))
            × (reclaim_candidate fl py env cfg candidate w
                ≡ (call env
                        (reclaim candidate.stream candidate.entry_id cfg.min_idle_ms
                          cfg.alive_ttl_ms)
                        env.reclaim
                      >>= adopt fl py env cfg candidate)
                    (let_over candidate w)))
  unfolding reclaim_candidate is_skipped ◌>>=◌
  reclaim_candidate_cases candidate w =
      elim (Bool-cases (is_skipped fl py env cfg candidate w.state.slots)) [
        | inl skipped ↦ inl (ground (arith, same_iff candidate.consumer env.consumer), ground arith)
        | inr fresh ↦ inr (
          ground arith,
          ground arith,
          ground (arith, same_iff candidate.consumer env.consumer),
          ground arith,
        )
      ]
