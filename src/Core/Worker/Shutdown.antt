-- ===== src/Core/Worker/Shutdown.antt =====
-- How a worker stops: of src/smallage/core/worker.py the task groups of `run`, `run_with_signals` and
-- `_watch_signals`. What anyio's task groups and scopes do is written out as the steps in which the
-- tasks of one worker can be interleaved: a group's block is left when its tasks have ended, and a
-- task in a scope that is cancelled or past its deadline may be cut off.
pub mod Holding
pub mod Draining
use litestar_rs.Prelude.{
  Bytes, Bool, true, false, Option, some, none, List, [], ◌∷◌, ◌++◌, ◌≡◌, ◌⊎◌, if◌then◌else◌,
}
use litestar_rs.Core.Floats.{Floats}
use litestar_rs.Core.Worker.Config.{WorkerConfig}

-- The tasks of a worker and the scopes that they run in. `running` has the entries of the group
-- `handlers`, and `cut` those whose handlers were cancelled before they had ended.
pub record Serving (F : Type 0) : Type 0 where
  pub consuming : Bool
  pub reclaiming : Bool
  -- whether the scope `reclaiming` is cancelled, which its loop finds at its next checkpoint
  pub reclaim_cancelled : Bool
  pub supervising : Bool
  pub running : List Bytes
  pub cut : List Bytes
  -- the deadline of the scope of `handlers`
  pub deadline : Option F
  -- the event `stop`, and whether the scope of `run_with_signals` is cancelled
  pub stop : Bool
  pub cancelled : Bool
  -- whether the groups were ended by an exception of a task, or from outside
  pub aborted : Bool
  -- `anyio.current_time()`
  pub now : F
  pub over : Bool

module _ {F : Type 0} (fl : Floats F) (cfg : WorkerConfig F) where
  -- Where `run` begins to consume.
  abbrev pub begun : F → Serving F
  begun now = record {
    consuming = true;
    reclaiming = true;
    reclaim_cancelled = false;
    supervising = true;
    running = [];
    cut = [];
    deadline = none;
    stop = false;
    cancelled = false;
    aborted = false;
    now = now;
    over = false;
  }

  -- The loop of `_watch_signals`, for one signal.
  unfoldable pub watch_signal : Serving F → Serving F
  watch_signal s = if s.stop then record s { cancelled = true } else record s { stop = true }

  -- `stop.set()` at the end of the block of `worker_running`, of src/smallage/core/testing.py.
  unfoldable pub end_block : Serving F → Serving F
  end_block s = record s { stop = true }

  -- `spawn` of `run`
  unfoldable pub spawn : Bytes → Serving F → Serving F
  spawn entry_id s = record s { running = entry_id ∷ s.running }

  -- What `run` does when its consume loop has ended.
  unfoldable pub drain : Serving F → Serving F
  drain s = record s {
    consuming = false;
    reclaim_cancelled = true;
    deadline = some (fl.add s.now cfg.drain_timeout_s);
  }

  -- What `run` does when the handlers have ended.
  unfoldable pub leave : Serving F → Serving F
  leave s = record s { supervising = false; over = true }

  -- Everything is cut off.
  abbrev pub IsAborted : Serving F → Type 0
  IsAborted s = (s.cancelled ≡ true) ⊎ (s.aborted ≡ true)

  -- The scope of the handlers is cancelled, or past its deadline.
  abbrev pub IsCutOff : Serving F → Type 0
  IsCutOff s = IsAborted s ⊎ ((d : F) × (s.deadline ≡ some d) × (fl.le d s.now ≡ true))

  pub data Step : Serving F → Serving F → Type 0 where
    elapse : (s : Serving F) (now : F) → fl.le s.now now ≡ true → Step s (record s { now = now })
    signalled : (s : Serving F) → Step s (watch_signal s)
    block_ended : (s : Serving F) → Step s (end_block s)
    consumed : (s : Serving F) (entry_id : Bytes) → s.consuming ≡ true → Step s (spawn entry_id s)
    reclaimed : (s : Serving F) (entry_id : Bytes) → s.reclaiming ≡ true → Step s (spawn entry_id s)
    ended :
        (s : Serving F) (before after : List Bytes) (entry_id : Bytes)
        → s.running ≡ before ++ entry_id ∷ after
        → Step s (record s { running = before ++ after })
    cut_off :
        (s : Serving F) (before after : List Bytes) (entry_id : Bytes)
        → s.running ≡ before ++ entry_id ∷ after
        → IsCutOff s
        → Step s (record s { running = before ++ after; cut = entry_id ∷ s.cut })
    drained : (s : Serving F) → s.consuming ≡ true → s.stop ≡ true → Step s (drain s)
    reclaim_ended :
        (s : Serving F) → s.reclaim_cancelled ≡ true → Step s (record s { reclaiming = false })
    left :
        (s : Serving F)
        → s.consuming ≡ false
        → s.reclaiming ≡ false
        → s.running ≡ []
        → Step s (leave s)
    failed : (s : Serving F) → Step s (record s { aborted = true })
    -- The loops are cut off with all else.
    loops_cut :
        (s : Serving F) → IsAborted s → Step s (record s { consuming = false; reclaiming = false })
    supervisors_cut : (s : Serving F) → IsAborted s → Step s (record s { supervising = false })

  pub data Reach (s : Serving F) : Serving F → Type 0 where
    here : Reach s s
    next : {t u : Serving F} → Reach s t → Step t u → Reach s u
