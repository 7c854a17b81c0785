-- ===== src/Litestar/Cli/Started.antt =====
-- What the command that runs a worker opens, runs and leaves.
use litestar_rs.Prelude.{
  Text, true, false, Bool-cases, Option, Option-cases, none, some, List, [], ◌∷◌, ◌≡◌, ◌≢◌, ◌⊎◌,
  inl, inr, refl, sym,
}
use mathlib.Core.Path.{subst}
use litestar_rs.Prelude.Int.{ℤ}
use litestar_rs.Effect.{
  Outcome-cases, returned, raised, Status, succeeded, failed, stopped, status, Event, World,
  perform, ◌>>=◌,
}
use litestar_rs.Effect.Keeps.{world-try_finally}
use litestar_rs.Core.Floats.{Floats}
use litestar_rs.Core.Stats.{WorkerStats}
use litestar_rs.Litestar.Plugin.{QueueConfig, Connections, transport_of, scheduler_of, results_of}
use litestar_rs.Litestar.Cli.{worker_arguments, with_overrides}
use litestar_rs.Litestar.Cli.Command.{
  AppPlugin, queue_plugin, other_plugin, click_exception, plugin_of, Starting, enter_lifespan,
  enter_connected, run_with_signals, leave_opened, Plugged, Shell, opening, serve_opened, main,
  run_workers,
}
use litestar_rs.Litestar.Cli.Overriding.{overridden, IsRefused, not_returned, with_overrides-cases}

abbrev pub AreOthers : List AppPlugin → Type 0
AreOthers [] = Unit
AreOthers (queue_plugin ∷ plugins) = ⊥
AreOthers (other_plugin ∷ plugins) = AreOthers plugins

plugin_of-cases :
    (plugins : List AppPlugin)
    → (plugin_of plugins ≡ returned tt)
      ⊎ (AreOthers plugins × (plugin_of plugins ≡ raised click_exception))
unfolding plugin_of
plugin_of-cases [] = inr (tt, refl)
plugin_of-cases (queue_plugin ∷ plugins) = inl refl
plugin_of-cases (other_plugin ∷ plugins) = plugin_of-cases plugins

-- What is missing of what the plugin must be connected to.
abbrev pub Misses : Connections → Type 0
Misses c = (c.transport ≡ none) ⊎ ((c.scheduler ≡ none) ⊎ (c.results ≡ none))

module _ {F V : Type 0} (shell : Shell F V) (stats : WorkerStats) where
  -- The lifespan of the application where the configuration says so, and its own connections if not.
  abbrev pub IsOpening : QueueConfig F V → Starting F V → Type 0
  IsOpening config enter_lifespan = config.run_app_lifespan ≡ true
  IsOpening config (enter_connected consumer) =
      (config.run_app_lifespan ≡ false) × (consumer ≡ none)
  IsOpening config _ = ⊥

  -- The worker, with each setting of the configuration and with what the plugin is connected to.
  abbrev pub IsRun : QueueConfig F V → Connections → Starting F V → Type 0
  IsRun config c (run_with_signals transport handlers worker arguments) =
      (c.transport ≡ some transport)
      × (c.scheduler ≡ some arguments.scheduler)
      × (c.results ≡ some arguments.results)
      × (handlers ≡ shell.handlers)
      × (worker ≡ config.worker)
      × (arguments.brokers ≡ config.brokers)
      × (arguments.cron ≡ config.cron)
      × (arguments.stats ≡ stats)
  IsRun config c _ = ⊥

  -- What was called, the newest first, where the plugin is connected to `c` once opened: the opening,
  -- which failed; the opening and the leaving, where something is missing; or the opening, one
  -- worker and the leaving.
  pub data Started (config : QueueConfig F V) (c : Connections)
      : List (Event (Starting F V)) → Type 0 where
    not_opened :
        (opened : Starting F V) (s : Status)
        → IsOpening config opened
        → s ≢ succeeded
        → Started config c (record { call = opened; status = s } ∷ [])
    not_run :
        (opened : Starting F V) (s : Status)
        → IsOpening config opened
        → Misses c
        → Started config c (
            record { call = leave_opened; status = s }
            ∷ record { call = opened; status = succeeded }
            ∷ [])
    was_run :
        (opened run : Starting F V) (ran s : Status)
        → IsOpening config opened
        → IsRun config c run
        → Started config c (
            record { call = leave_opened; status = s }
            ∷ record { call = run; status = ran }
            ∷ record { call = opened; status = succeeded }
            ∷ [])

module _ {F V : Type 0} (fl : Floats F) (shell : Shell F V) (stats : WorkerStats) where
  opening-IsOpening :
      (config : QueueConfig F V) → IsOpening shell stats config (opening fl shell stats config)
  opening-IsOpening config = elim (Bool-cases config.run_app_lifespan) [
    | inl e ↦ rw e refl
    | inr e ↦ rw e (refl, refl)
  ]

  -- What the block adds to the calls before it.
  abbrev Serves :
      QueueConfig F V
      → Connections
      → List (Event (Starting F V))
      → List (Event (Starting F V))
      → Type 0
  Serves config c before after =
      (Misses c × (after ≡ before))
      ⊎ ((run : Starting F V) × (ran : Status) × IsRun shell stats config c run
          × (after ≡ record { call = run; status = ran } ∷ before))

  serve_opened-Serves :
      (config : QueueConfig F V) (w : World (Plugged F V) (Starting F V))
      → Serves config w.state.connections w.trace (serve_opened fl shell stats config w).1.trace
  unfolding serve_opened transport_of scheduler_of results_of worker_arguments ◌>>=◌
  serve_opened-Serves config w =
      let c = w.state.connections in
      elim (Option-cases c.transport) [
        | inl e ↦ inl (inl e, rw e refl)
        | inr (transport, e) ↦ elim (Option-cases c.scheduler) [
          | inl f ↦ inl (inr (inl f), rw e (rw f refl))
          | inr (scheduler, f) ↦ elim (Option-cases c.results) [
            | inl g ↦ inl (inr (inr g), rw e (rw f (rw g refl)))
            | inr (results, g) ↦
                let run : Starting F V =
                  run_with_signals transport shell.handlers config.worker (record {
                    scheduler = scheduler;
                    results = results;
                    brokers = config.brokers;
                    stats = stats;
                    cron = config.cron;
                  }) in
                inr (
                  run,
                  status (shell.done w.trace),
                  (e, f, g, refl, refl, refl, refl, refl),
                  rw e (rw f (rw g refl)),
                )
          ]
        ]
      ]

  -- The leaving, after whatever the block did.
  left-Started :
      (config : QueueConfig F V) (c : Connections) (opened : Starting F V)
      (after : List (Event (Starting F V))) (s : Status)
      → IsOpening shell stats config opened
      → Serves config c (record { call = opened; status = succeeded } ∷ []) after
      → Started shell stats config c (record { call = leave_opened; status = s } ∷ after)
  left-Started config c opened after s how (inl (missing, nothing)) =
      rw nothing (not_run opened s how missing)
  left-Started config c opened after s how (inr (run, ran, right, e)) =
      rw e (was_run opened run ran s how right)

  not_opened-failed : failed ≢ succeeded
  not_opened-failed e = cc

  not_opened-stopped : stopped ≢ succeeded
  not_opened-stopped e = cc

  main-Started :
      (config : QueueConfig F V) (s : Plugged F V)
      → Started shell stats config
          (shell.opens [] s).connections
          (main fl shell stats config (record { state = s; trace = [] })).1.trace
  unfolding main ◌>>=◌
  main-Started config s =
      let how = opening-IsOpening config in
      elim (Outcome-cases (shell.done [])) [
        | inl (inr (exn, e)) ↦ rw (e, main) (not_opened _ failed how not_opened-failed)
        | inr e ↦ rw (e, main) (not_opened _ stopped how not_opened-stopped)
        | inl (inl (a, e)) ↦
            let opened : World (Plugged F V) (Starting F V) = record {
              state = shell.opens [] s;
              trace = record { call = opening fl shell stats config; status = succeeded } ∷ [];
            } in
            let served = serve_opened fl shell stats config in
            let leave = perform leave_opened shell.done (λ t s. s) in
            rw (e, main)
              (subst (λ w. Started shell stats config (shell.opens [] s).connections w.trace)
                (sym (world-try_finally served leave opened))
                (left-Started config (shell.opens [] s).connections (opening fl shell stats config)
                  (served opened).1.trace (status (shell.done (served opened).1.trace)) how
                  (serve_opened-Serves config opened)))
      ]

  -- The command that runs a worker opens nothing where no plugin of the application is the queue's,
  -- or the overrides are refused, which they are only without a URL or where the concurrency does
  -- not fit the worker's settings. Otherwise it gives the plugin the configuration with the fields
  -- that the command line overrides, and opens the queue once: through the lifespan of the
  -- application, or by itself, as the configuration says. Once that has succeeded, it runs one
  -- worker with the settings of that configuration and with what the plugin is then connected to,
  -- unless the transport, the scheduler or the result store is missing, and leaves what it opened
  -- however the worker ends.
  pub run_workers-Started :
      (plugins : List AppPlugin) (queues : List Text) (concurrency : Option ℤ)
      (consumer : Option Text) (s : Plugged F V)
      → ((AreOthers plugins ⊎ IsRefused fl s.config concurrency)
          × ((run_workers fl shell stats plugins queues concurrency consumer
                (record { state = s; trace = [] })).1.trace
              ≡ []))
        ⊎ Started shell stats
            (overridden fl s.config queues concurrency consumer)
            (shell.opens [] (record s {
              config = overridden fl s.config queues concurrency consumer;
            })).connections
            (run_workers fl shell stats plugins queues concurrency consumer
              (record { state = s; trace = [] })).1.trace
  unfolding run_workers ◌>>=◌
  run_workers-Started plugins queues concurrency consumer s = elim (plugin_of-cases plugins) [
    | inr (why, e) ↦ inl (inl why, rw e refl)
    | inl e ↦ elim (with_overrides-cases fl s.config queues concurrency consumer) [
      | inl f ↦
          let config = overridden fl s.config queues concurrency consumer in
          inr (rw e (rw f (main-Started config (record s { config = config }))))
      | inr (why, stops) ↦
          elim (Outcome-cases (with_overrides fl s.config queues concurrency consumer)) [
            | inl (inl (config, f)) ↦ absurd (not_returned _ config stops f)
            | inl (inr (exn, f)) ↦ inl (inr why, rw e (rw f refl))
            | inr f ↦ inl (inr why, rw e (rw f refl))
          ]
    ]
  ]
