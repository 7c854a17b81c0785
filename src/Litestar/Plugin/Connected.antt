-- ===== src/Litestar/Plugin/Connected.antt =====
-- What `connected` of src/smallage/litestar/plugin.py opens and closes.
use litestar_rs.Prelude.{Text, Option, some, [], ◌∷◌, ◌≡◌, ◌≢◌, ◌⊎◌, inl, inr, refl, ap, ◌∙◌, All}
use litestar_rs.Python.{Python}
use litestar_rs.Effect.{
  Outcome-cases, Status, status, succeeded, World, Act, modify, continue, try_finally, ◌>>=◌,
}
use litestar_rs.Effect.Keeps.{
  Keeps, world-try_finally, Keeps-asks, Keeps-lift, Keeps-modify, Keeps-perform, Keeps-bind,
  Keeps-bind_lift, Keeps-bind-gives, Gives-asks,
}
use litestar_rs.Core.Floats.{Floats}
use litestar_rs.Core.Results.{RedisResultStore}
use litestar_rs.Core.Scheduler.{RedisScheduler}
use litestar_rs.Core.Transport.{Transport}
use litestar_rs.Core.Transport.Setup.{IsReady, init-IsReady}
use litestar_rs.Litestar.Plugin.{
  QueueConfig, Client, Connections, disconnected, Connecting, open_reader, open_control, run_block,
  close_reader, close_control, Trace, Server, options_of, reader_timeout, open_block, use_queue,
  disconnect, connected,
}

-- A ready transport, a scheduler and a result store.
abbrev pub IsConnected : Connections → Type 0
IsConnected s =
    ((t : Transport) × (s.transport ≡ some t) × IsReady t)
    × ((c : RedisScheduler) × (s.scheduler ≡ some c))
    × ((r : RedisResultStore) × (s.results ≡ some r))

module _ {F : Type 0} where
  abbrev pub Serves : Connecting F → Type 0
  Serves (run_block seen) = IsConnected seen
  Serves other = Unit

  abbrev pub AllServed : Trace F → Type 0
  AllServed t = All (λ event. Serves event.call) t

  abbrev IsOpening : Connecting F → Type 0
  IsOpening (open_reader url timeout) = Unit
  IsOpening (open_control url) = Unit
  IsOpening other = ⊥

  -- Both clients were closed last, or the reader failed to close.
  abbrev pub IsClosed : Trace F → Type 0
  IsClosed t =
      ((before : Trace F) × (s : Status) × (t
          ≡ record { call = close_control; status = s }
            ∷ record { call = close_reader; status = succeeded }
            ∷ before))
      ⊎ ((before : Trace F) × (s : Status) × (s ≢ succeeded)
          × (t ≡ record { call = close_reader; status = s } ∷ before))

module _ {F : Type 0} where
  -- The block was run only while the queue was open, which it no longer is.
  abbrev pub IsOver : World Connections (Connecting F) → Type 0
  IsOver w =
      AllServed w.trace
      × (w.state ≡ disconnected)
      × (All (λ event. IsOpening event.call) w.trace ⊎ IsClosed w.trace)

module _ {S C A : Type 0} {P P' : World S C → Type 0} where
  -- What is assigned may be relied on from there.
  Keeps-modify_then :
      (f : S → S) (m : Act S C A)
      → ((w : World S C) → P w → P' (record w { state = f w.state }))
      → Keeps P' m
      → ((w : World S C) → P' w → P w)
      → Keeps P (modify f >>= λ _. m)
  unfolding ◌>>=◌
  Keeps-modify_then f m gains km weakens = record {
    at = λ w h. weakens _ (km.at (record w { state = f w.state }) (gains w h));
  }

module _ {F : Type 0} where
  abbrev AllServedBy : World Connections (Connecting F) → Type 0
  AllServedBy w = AllServed w.trace

  abbrev HasTransport : Transport → World Connections (Connecting F) → Type 0
  HasTransport t w = AllServed w.trace × (w.state.transport ≡ some t)

  abbrev HasScheduler : Transport → RedisScheduler → World Connections (Connecting F) → Type 0
  HasScheduler t c w =
      AllServed w.trace × (w.state.transport ≡ some t) × (w.state.scheduler ≡ some c)

  abbrev HasAll :
      Transport → RedisScheduler → RedisResultStore → World Connections (Connecting F) → Type 0
  HasAll t c r w =
      AllServed w.trace
      × (w.state.transport ≡ some t)
      × (w.state.scheduler ≡ some c)
      × (w.state.results ≡ some r)

module _ {F : Type 0} (server : Server F) where
  disconnect-IsClosed :
      (w : World Connections (Connecting F))
      → ((disconnect server w).1.state ≡ disconnected) × IsClosed (disconnect server w).1.trace
  unfolding disconnect ◌>>=◌
  disconnect-IsClosed w = elim (Outcome-cases (server.done w.trace)) [
    | inl (inl (_, closed)) ↦ rw closed (refl, inl (_, _, refl))
    | inl (inr (x, fails)) ↦ rw fails (refl, inr (_, _, (λ e. cc), refl))
    | inr stops ↦ rw stops (refl, inr (_, _, (λ e. cc), refl))
  ]

  block-HasAll :
      (t : Transport) (c : RedisScheduler) (r : RedisResultStore)
      → IsReady t
      → Keeps (HasAll t c r) (open_block server t)
  unfolding open_block
  block-HasAll t c r ready =
      Keeps-bind _ _
        (Keeps-perform {P = HasAll t c r} _ _ _ (λ o w (h, ht, hc, hr). ((tt, h), ht, hc, hr)))
        (λ _. Keeps-bind-gives _ _ (Gives-asks (λ w. w.state)) (λ seen w (h, ht, hc, hr) now.
          (Keeps-perform {P = HasAll t c r} (run_block seen) server.done _ (λ o v (k, kt, kc, kr). (
            (
              (
                (t, ap (λ s. s.transport) now ∙ ht, ready),
                (c, ap (λ s. s.scheduler) now ∙ hc),
                (r, ap (λ s. s.results) now ∙ hr),
              ),
              k,
            ),
            kt,
            kc,
            kr,
          ))).at
            w (h, ht, hc, hr)))

  disconnect-AllServed : Keeps AllServedBy (disconnect server)
  unfolding disconnect
  disconnect-AllServed = Keeps-bind _ _ (Keeps-modify _ (λ w h. h)) (λ _.
      Keeps-bind _ _ (Keeps-perform _ _ _ (λ o w h. (tt, h)))
        (λ _. Keeps-perform _ _ _ (λ o w h. (tt, h))))

module _ {F V : Type 0} (fl : Floats F) (py : Python) (server : Server F) (config : QueueConfig F V)
    (consumer : Option Text) where
  use_queue-AllServed :
      (reader control : Client F)
      → Keeps AllServedBy (use_queue fl py server config consumer reader control)
  unfolding use_queue
  use_queue-AllServed reader control = Keeps-bind _ _ (Keeps-asks _) (λ name.
      Keeps-bind_lift _ _ (λ t is_new.
        Keeps-modify_then {P = AllServedBy} {P' = HasTransport t} _ _ (λ w h. (h, refl))
          (Keeps-bind _ _ (Keeps-lift _) (λ c.
            Keeps-modify_then {P = HasTransport t} {P' = HasScheduler t c} _ _
              (λ w (h, ht). (h, ht, refl))
              (Keeps-bind _ _ (Keeps-lift _) (λ r.
                Keeps-modify_then {P = HasScheduler t c} {P' = HasAll t c r} _ _
                  (λ w (h, ht, hc). (h, ht, hc, refl))
                  (block-HasAll server t c r (
                    init-IsReady fl py (options_of fl py server config reader control name) t
                      is_new))
                  (λ w (h, ht, hc, hr). (h, ht, hc))))
              (λ w (h, ht, hc). (h, ht))))
          (λ w (h, ht). h)))

  over :
      (reader control : Client F) (w : World Connections (Connecting F))
      → AllServed w.trace
      → IsOver
          (try_finally
            (use_queue fl py server config consumer reader control)
            (disconnect server)
            w).1
  over reader control w h =
      let body = use_queue fl py server config consumer reader control in
      let (left, closed) = disconnect-IsClosed server (body w).1 in
      rw (world-try_finally body (disconnect server) w) (
        (disconnect-AllServed server).at (body w).1 ((use_queue-AllServed reader control).at w h),
        left,
        inr closed,
      )

  -- However the clients, Redis and the block behave, and whatever fails or is cancelled: the block is
  -- run only with a ready transport, a scheduler and a result store; afterwards the plugin holds none
  -- of them; and if both clients were made, both are closed last, unless closing the reader fails.
  pub connected-IsOver :
      IsOver
        (connected fl py server config consumer (record { state = disconnected; trace = [] })).1
  unfolding connected ◌>>=◌
  connected-IsOver = elim (Outcome-cases (server.client [])) [
    | inl (inr (x, fails)) ↦ rw fails ((tt, tt), refl, inl (tt, tt))
    | inr stops ↦ rw stops ((tt, tt), refl, inl (tt, tt))
    | inl (inl (reader, made)) ↦ rw made (second reader)
  ]
    where
      opened : Trace F
      opened =
          record {
            call = open_reader config.redis_url (reader_timeout fl py server config);
            status = succeeded;
          }
          ∷ []

      second :
          (reader : Client F)
          → IsOver
              (continue
                (server.client opened)
                (λ control.
                  try_finally
                    (use_queue fl py server config consumer reader control)
                    (disconnect server))
                (record {
                  state = disconnected;
                  trace =
                      record {
                        call = open_control config.redis_url;
                        status = status (server.client opened);
                      }
                      ∷ opened;
                })).1
      second reader = elim (Outcome-cases (server.client opened)) [
        | inl (inr (x, fails)) ↦ rw fails ((tt, (tt, tt)), refl, inl (tt, (tt, tt)))
        | inr stops ↦ rw stops ((tt, (tt, tt)), refl, inl (tt, (tt, tt)))
        | inl (inl (control, made)) ↦ rw made (over reader control _ (tt, (tt, tt)))
      ]
