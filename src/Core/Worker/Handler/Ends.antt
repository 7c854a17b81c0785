-- ===== src/Core/Worker/Handler/Ends.antt =====
-- How the handling of an entry ends, on every path out of `_run_one`.
use litestar_rs.Prelude.{
  true, false, [], ◌∷◌, ◌≡◌, ◌≢◌, refl, ◌⊎◌, inl, inr, ◌+◌, arith, member, same_refl,
  member-discard,
}
use litestar_rs.Prelude.Int.{pos, ◌+ℤ◌}
use litestar_rs.Python.{Python, Exn, value_error, unicode_decode_error}
use litestar_rs.Effect.{
  Outcome-cases, returned, raised, cancelled, status, World, ◌>>=◌, try_except,
}
use litestar_rs.Core.Envelope.{Record, from_fields}
use litestar_rs.Core.Floats.{Floats}
use litestar_rs.Core.Worker.Config.{WorkerConfig, release}
use litestar_rs.Core.Worker.Calls.{State, Call, Trace, clear_alive, Env}
use litestar_rs.Core.Worker.Handler.{
  retry_or_bury, dispatch, recover, attempt_entry, run_one, on_stats,
}

module _ {F : Type 0} (fl : Floats F) (py : Python) (env : Env F) (cfg : WorkerConfig F)
    (entry : Record) where
  -- The world in which the entry is first looked at.
  abbrev pub entered : World State (Call F) → World State (Call F)
  entered w = record w {
    state = on_stats (λ s. record s { in_flight = s.in_flight +ℤ pos 1 }) w.state;
  }

  abbrev pub handed_over : Trace F → Trace F
  handed_over before =
      record { call = clear_alive (entry.entry_id ∷ []); status = status (env.done before) }
      ∷ before

  recover-ne-raised :
      (exc e : Exn) (w : World State (Call F)) → (recover fl py env cfg entry exc w).0 ≢ raised e
  unfolding recover ◌>>=◌
  recover-ne-raised exc e w = ground arith

  module _ (w : World State (Call F)) where
    -- A handler that is cancelled before it has failed drops the liveness key of its entry as its
    -- last call, and does not return normally.
    pub run_one_cancelled :
        (attempt_entry fl py env cfg entry (entered w)).0 ≡ cancelled
        → ((run_one fl py env cfg entry w).1.trace
            ≡ handed_over (attempt_entry fl py env cfg entry (entered w)).1.trace)
          × ((run_one fl py env cfg entry w).0 ≢ returned tt)
    unfolding run_one try_except
    run_one_cancelled h = ground arith

    -- An exception leaves the handling of an entry only where a handler was cancelled and dropping
    -- the liveness key failed: no failure of a task, of the transport or of the scheduler does.
    pub run_one_raised :
        (e : Exn)
        → (run_one fl py env cfg entry w).0 ≡ raised e
        → ((attempt_entry fl py env cfg entry (entered w)).0 ≡ cancelled)
          × (env.done (attempt_entry fl py env cfg entry (entered w)).1.trace ≡ raised e)
    unfolding run_one try_except
    run_one_raised e h = elim (Outcome-cases (attempt_entry fl py env cfg entry (entered w)).0) [
      | inl (inl (a, q)) ↦ ground arith
      | inl (inr (x, q)) ↦
          ground (arith, recover-ne-raised x e (attempt_entry fl py env cfg entry (entered w)).1)
      | inr q ↦ ground arith
    ]

    -- Values that do not decode, in an entry with every required field and the right version, make
    -- no call at all: the entry is neither parked nor acknowledged, though no retry can decode it.
    pub undecodable_left_pending :
        (exc : Exn)
        → env.is_external entry.stream ≡ false
        → from_fields py entry.fields ≡ raised exc
        → (exc ≡ value_error) ⊎ (exc ≡ unicode_decode_error)
        → ((run_one fl py env cfg entry w).0 ≡ returned tt)
          × ((run_one fl py env cfg entry w).1.trace ≡ w.trace)
          × ((run_one fl py env cfg entry w).1.state.stats.failed ≡ w.state.stats.failed + 1)
    unfolding run_one try_except attempt_entry dispatch recover retry_or_bury
    undecodable_left_pending exc own bad kind = ground arith

    -- However the handling ends, and whatever the other coroutines did meanwhile, the entry is no
    -- longer in flight and a waiting consumer is woken.
    pub run_one_releases :
        (member entry.entry_id (run_one fl py env cfg entry w).1.state.slots.ids ≡ false)
        × ((run_one fl py env cfg entry w).1.state.slots.freed ≡ true)
    unfolding run_one release ◌>>=◌
    run_one_releases = (simp (member-discard, same_refl), refl)
