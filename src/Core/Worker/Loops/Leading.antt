-- ===== src/Core/Worker/Loops/Leading.antt =====
-- What `_scheduler_loop` does with the lease.
use litestar_rs.Prelude.{ℕ, zero, suc, Text, Bool, true, [], ◌∷◌, ◌≡◌, refl, arith}
use litestar_rs.Python.{Python}
use litestar_rs.Effect.{returned, succeeded, World, perform, ◌>>=◌}
use litestar_rs.Effect.Keeps.{world-try_finally, Keeps, Keeps-pure, Keeps-bind, Keeps-perform}
use litestar_rs.Core.Floats.{Floats}
use litestar_rs.Core.Worker.Config.{WorkerConfig}
use litestar_rs.Core.Worker.Calls.{
  State, Call, hold_leadership, schedule_cron, promote, sleep, release_leadership, Trace, run_call,
  Env,
}
use litestar_rs.Core.Worker.Loops.{guarded, scheduler_pass, rounds, scheduler_loop}

module _ {F : Type 0} (env : Env F) (token : Text) where
  -- A call that leaves this worker leading, after the calls of the trace.
  abbrev Leads : Call F → Trace F → Type 0 → Type 0
  Leads (hold_leadership held _) before still =
      (held ≡ token) × (env.hold_leadership before ≡ returned true)
  Leads schedule_cron before still = still
  Leads _ before still = ⊥

  -- The last calls of the trace won or kept the lease under the token, with nothing since but cron
  -- occurrences that were scheduled, and no failure.
  abbrev pub IsLeading : Trace F → Type 0
  IsLeading [] = ⊥
  IsLeading (event ∷ before) =
      (event.status ≡ succeeded) × Leads event.call before (IsLeading before)

  abbrev pub IsLed : Call F → Trace F → Type 0
  IsLed (promote _) before = IsLeading before
  IsLed schedule_cron before = IsLeading before
  IsLed _ before = Unit

  abbrev pub AllLed : Trace F → Type 0
  AllLed [] = Unit
  AllLed (event ∷ before) = IsLed event.call before × AllLed before

  abbrev Led : World State (Call F) → Type 0
  Led w = AllLed w.trace

module _ {F : Type 0} (fl : Floats F) (py : Python) (env : Env F) (cfg : WorkerConfig F)
    (token : Text) where
  sleep-Led : (pause : F) → Keeps (Led env token) (run_call env (sleep pause))
  sleep-Led pause = Keeps-perform _ _ _ (λ o w h. (tt, h))

  scheduler_pass-Led :
      (has_cron : Bool) → Keeps (Led env token) (scheduler_pass fl py env cfg token has_cron)
  unfolding scheduler_pass guarded ◌>>=◌
  scheduler_pass-Led has_cron = record { at = λ w h. ground arith }

  rounds-Led :
      (has_cron : Bool) (n : ℕ)
      → Keeps (Led env token) (rounds fl py env cfg (scheduler_pass fl py env cfg token has_cron) n)
  unfolding rounds
  rounds-Led has_cron zero = Keeps-pure tt
  rounds-Led has_cron (suc n) =
      Keeps-bind _ _ (scheduler_pass-Led has_cron) (λ _. rounds-Led has_cron n)

  -- The last call gave the lease up.
  abbrev pub EndsReleased : Trace F → Type 0
  EndsReleased [] = ⊥
  EndsReleased (event ∷ before) = event.call ≡ release_leadership token

  -- However many passes the scheduler loop makes before it is cut off, and whatever the scheduler
  -- answers, due jobs are promoted and cron occurrences scheduled only in a pass that has just won or
  -- kept the lease under this worker's own token: no pause and no failed call stands between. The
  -- last call gives the lease up under that token.
  pub scheduler_loop-AllLed :
      (has_cron : Bool) (n : ℕ) (s : State)
      → AllLed env token
          (scheduler_loop fl py env cfg token has_cron n (record { state = s; trace = [] })).1.trace
        × EndsReleased
            (scheduler_loop fl py env cfg token has_cron n
              (record { state = s; trace = [] })).1.trace
  unfolding scheduler_loop perform
  scheduler_loop-AllLed has_cron n s =
      let body = rounds fl py env cfg (scheduler_pass fl py env cfg token has_cron) n in
      let release = run_call env (release_leadership token) in
      let start : World State (Call F) = record { state = s; trace = [] } in
      rw (world-try_finally body release start) ((tt, (rounds-Led has_cron n).at start tt), refl)
