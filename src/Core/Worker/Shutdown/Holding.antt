-- ===== src/Core/Worker/Shutdown/Holding.antt =====
-- What holds at every moment of a worker, whichever of its steps comes next.
use litestar_rs.Prelude.{
  Bytes, true, false, none, List, [], ◌∷◌, ◌++◌, ◌≡◌, ◌⊎◌, inl, inr, refl, arith,
}
use litestar_rs.Core.Floats.{Floats}
use litestar_rs.Core.Worker.Config.{WorkerConfig}
use litestar_rs.Core.Worker.Shutdown.{
  Serving, begun, watch_signal, end_block, spawn, drain, leave, IsAborted, IsCutOff, Step, Reach,
}

module _ {F : Type 0} (fl : Floats F) (cfg : WorkerConfig F) where
  -- The order that `run` and `_watch_signals` keep at every moment.
  pub record Holds (s : Serving F) : Type 0 where
    -- The heartbeat goes on until the worker returns, unless all was cut off.
    pub watched : (s.supervising ≡ true) ⊎ (IsAborted fl cfg s ⊎ (s.over ≡ true))
    -- A handler was cut off only with all else, or past the deadline.
    pub spared : (s.cut ≡ []) ⊎ IsCutOff fl cfg s
    -- A deadline is set only with the end of the consume loop.
    pub unset : (s.deadline ≡ none) ⊎ (s.consuming ≡ false)
    -- The worker returned with nothing left that runs or that could start a handler.
    pub finished :
        (s.over ≡ false)
        ⊎ ((s.running ≡ [])
            × (s.consuming ≡ false)
            × (s.reclaiming ≡ false)
            × (s.supervising ≡ false))

  -- What IEEE arithmetic guarantees of the comparison.
  abbrev pub IsTransitive : Type 0
  IsTransitive = (a b c : F) → fl.le a b ≡ true → fl.le b c ≡ true → fl.le a c ≡ true

  -- A cut that was due stays due as time goes by.
  IsCutOff-elapse :
      (s : Serving F) (now : F)
      → IsTransitive
      → fl.le s.now now ≡ true
      → IsCutOff fl cfg s
      → IsCutOff fl cfg (record s { now = now })
  IsCutOff-elapse s now trans later (inl cancelled) = inl cancelled
  IsCutOff-elapse s now trans later (inr (d, set, past)) =
      inr (d, set, trans d s.now now past later)

  spared-elapse :
      (s : Serving F) (now : F)
      → IsTransitive
      → fl.le s.now now ≡ true
      → (s.cut ≡ []) ⊎ IsCutOff fl cfg s
      → (s.cut ≡ []) ⊎ IsCutOff fl cfg (record s { now = now })
  spared-elapse s now trans later (inl none_cut) = inl none_cut
  spared-elapse s now trans later (inr due) = inr (IsCutOff-elapse s now trans later due)

  spared-drain :
      (s : Serving F)
      → Holds s
      → s.consuming ≡ true
      → (s.cut ≡ []) ⊎ IsCutOff fl cfg s
      → (s.cut ≡ []) ⊎ IsCutOff fl cfg (drain fl cfg s)
  unfolding drain
  spared-drain s o busy (inl none_cut) = inl none_cut
  spared-drain s o busy (inr (inl cancelled)) = inr (inl cancelled)
  spared-drain s o busy (inr (inr (d, set, past))) = absurd (ground arith)

  spared-signal :
      (s : Serving F)
      → (s.cut ≡ []) ⊎ IsCutOff fl cfg s
      → ((watch_signal fl cfg s).cut ≡ []) ⊎ IsCutOff fl cfg (watch_signal fl cfg s)
  unfolding watch_signal
  spared-signal s h = ground arith

  done-less :
      (s : Serving F) (before after : List Bytes) (entry_id : Bytes)
      → s.running ≡ before ++ entry_id ∷ after
      → (s.over ≡ false)
        ⊎ ((s.running ≡ [])
            × (s.consuming ≡ false)
            × (s.reclaiming ≡ false)
            × (s.supervising ≡ false))
      → (s.over ≡ false)
        ⊎ ((before ++ after ≡ [])
            × (s.consuming ≡ false)
            × (s.reclaiming ≡ false)
            × (s.supervising ≡ false))
  done-less s before after entry_id there (inl going) = inl going
  done-less s [] after entry_id there (inr (nothing, still, still_too, quiet)) =
      absurd (ground arith)
  done-less s (x ∷ before) after entry_id there (inr (nothing, still, still_too, quiet)) =
      absurd (ground arith)

  pub Step-Holds : {s t : Serving F} → IsTransitive → Step fl cfg s t → Holds s → Holds t
  unfolding watch_signal end_block spawn drain leave
  Step-Holds trans (Step.elapse s now later) o = record {
    watched = o.watched;
    spared = spared-elapse s now trans later o.spared;
    unset = o.unset;
    finished = o.finished;
  }
  Step-Holds trans (Step.signalled s) o = record {
    watched = ground arith;
    spared = spared-signal s o.spared;
    unset = ground arith;
    finished = ground arith;
  }
  Step-Holds trans (Step.block_ended s) o = record {
    watched = o.watched;
    spared = o.spared;
    unset = ground arith;
    finished = o.finished;
  }
  Step-Holds trans (Step.consumed s entry_id busy) o = record {
    watched = ground arith;
    spared = ground arith;
    unset = o.unset;
    finished = ground arith;
  }
  Step-Holds trans (Step.reclaimed s entry_id busy) o = record {
    watched = ground arith;
    spared = ground arith;
    unset = o.unset;
    finished = ground arith;
  }
  Step-Holds trans (Step.ended s before after entry_id there) o = record {
    watched = ground arith;
    spared = ground arith;
    unset = o.unset;
    finished = done-less s before after entry_id there o.finished;
  }
  Step-Holds trans (Step.cut_off s before after entry_id there due) o = record {
    watched = ground arith;
    spared = inr due;
    unset = o.unset;
    finished = done-less s before after entry_id there o.finished;
  }
  Step-Holds trans (Step.drained s busy stop) o = record {
    watched = ground arith;
    spared = spared-drain s o busy o.spared;
    unset = inr refl;
    finished = ground arith;
  }
  Step-Holds trans (Step.reclaim_ended s due) o = record {
    watched = o.watched;
    spared = o.spared;
    unset = o.unset;
    finished = ground arith;
  }
  Step-Holds trans (Step.left s still still_too gone) o = record {
    watched = ground arith;
    spared = ground arith;
    unset = o.unset;
    finished = ground arith;
  }
  Step-Holds trans (Step.failed s) o = record {
    watched = ground arith;
    spared = ground arith;
    unset = o.unset;
    finished = ground arith;
  }
  Step-Holds trans (Step.loops_cut s aborted) o = record {
    watched = ground arith;
    spared = ground arith;
    unset = ground arith;
    finished = ground arith;
  }
  Step-Holds trans (Step.supervisors_cut s aborted) o = record {
    watched = ground arith;
    spared = ground arith;
    unset = o.unset;
    finished = ground arith;
  }

  pub Reach-Holds : {s t : Serving F} → IsTransitive → Reach fl cfg s t → Holds s → Holds t
  Reach-Holds trans Reach.here o = o
  Reach-Holds trans (Reach.next reached step) o =
      Step-Holds trans step (Reach-Holds trans reached o)

  pub begun-Holds : (now : F) → Holds (begun fl cfg now)
  begun-Holds now = record {
    watched = inl refl;
    spared = inl refl;
    unset = inl refl;
    finished = inl refl;
  }
