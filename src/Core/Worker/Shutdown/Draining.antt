-- ===== src/Core/Worker/Shutdown/Draining.antt =====
-- What holds while a worker serves, drains and stops.
use litestar_rs.Prelude.{true, false, some, [], ◌≡◌, ◌⊎◌}
use litestar_rs.Core.Floats.{Floats}
use litestar_rs.Core.Worker.Config.{WorkerConfig}
use litestar_rs.Core.Worker.Shutdown.{Serving, IsAborted}

module _ {F : Type 0} (fl : Floats F) (cfg : WorkerConfig F) where
  -- What a drain settles for good.
  abbrev IsDraining : F → Serving F → Type 0
  IsDraining deadline s =
      (s.deadline ≡ some deadline) × (s.consuming ≡ false) × (s.reclaim_cancelled ≡ true)

  -- A drain that begins at `s`, as seen then and at a later moment `t`.
  pub record IsOrderly (s t : Serving F) : Type 0 where
    -- Until then no handler was cut off and the heartbeat went on, unless all was cut off.
    pub spared_before : (s.cut ≡ []) ⊎ IsAborted fl cfg s
    pub watched_before : (s.supervising ≡ true) ⊎ IsAborted fl cfg s
    -- The deadline counts from then, and does not move.
    pub deadline : t.deadline ≡ some (fl.add s.now cfg.drain_timeout_s)
    -- Handlers are cut off only past it, or with all else.
    pub spared :
        (t.cut ≡ [])
        ⊎ (IsAborted fl cfg t ⊎ (fl.le (fl.add s.now cfg.drain_timeout_s) t.now ≡ true))
    -- Nothing is read any more, and the reclaim loop stays cancelled.
    pub closed : (t.consuming ≡ false) × (t.reclaim_cancelled ≡ true)
    -- The heartbeat goes on until the worker returns.
    pub watched : (t.supervising ≡ true) ⊎ (IsAborted fl cfg t ⊎ (t.over ≡ true))
    -- Then no task is left.
    pub done :
        (t.over ≡ false)
        ⊎ ((t.running ≡ [])
            × (t.consuming ≡ false)
            × (t.reclaiming ≡ false)
            × (t.supervising ≡ false))
