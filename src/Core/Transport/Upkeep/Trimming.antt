-- ===== src/Core/Transport/Upkeep/Trimming.antt =====
-- Trimming never reaches past an entry that is still pending.
use litestar_rs.Prelude.{Text, Bytes, List, [], ◌∷◌, ◌≡◌, refl, sym, arith, Option, some, none}
use litestar_rs.Prelude.Int.{ℤ, ◌≤ℤ◌}
use litestar_rs.Python.{Python}
use litestar_rs.Effect.{Outcome, returned, raised, cancelled, World, continue, ◌>>=◌, lift, perform}
use litestar_rs.Effect.Keeps.{
  Keeps, Gives, Keeps-pure, Keeps-perform, Keeps-bind, Keeps-bind-gives, Keeps-continue,
}
use litestar_rs.Core.Transport.{Transport}
use litestar_rs.Core.Transport.Commands.{
  Command, xpending, xtrim, Trace, Passes, Redis, Method, ask,
}
use litestar_rs.Core.Transport.Upkeep.{entry_ms, min_ℤ, trim_limit, trim_streams, trim, now_ms}

module _ (py : Python) (redis : Redis) (self : Transport) where
  -- The limit is at most the time of the oldest pending entry, where the answer named one.
  abbrev pub Spares : ℤ → Trace → Type 0
  Spares limit before =
      (oldest : Bytes) (ms : ℤ)
      → redis.oldest before ≡ returned (some oldest)
      → entry_ms py redis self oldest ≡ returned ms
      → limit ≤ℤ ms

  -- The command before asked what is pending in that stream.
  abbrev Asks : Text → Command → Type 0
  Asks stream (xpending asked _) = asked ≡ stream
  Asks stream _ = ⊥

  abbrev pub SparesLast : Text → ℤ → Trace → Type 0
  SparesLast stream limit [] = ⊥
  SparesLast stream limit (event ∷ before) = Asks stream event.call × Spares limit before

  abbrev pub IsSparing : Command → Trace → Type 0
  IsSparing (xtrim stream limit) before = SparesLast stream limit before
  IsSparing _ before = Unit

  -- Every trim of a stream comes right after the question what is pending in it, and stays at or
  -- below the oldest entry that was named.
  abbrev pub AllSparing : Trace → Type 0
  AllSparing [] = Unit
  AllSparing (event ∷ before) = IsSparing event.call before × AllSparing before

  abbrev Sparing : World Passes Command → Type 0
  Sparing w = AllSparing w.trace

  min_below : (a b : ℤ) → min_ℤ py redis self a b ≤ℤ b
  min_below a b = ground arith

  trim_limit-Spares :
      (floor limit : ℤ) (before : Trace) (oldest : Option Bytes)
      → redis.oldest before ≡ returned oldest
      → trim_limit py redis self floor oldest ≡ returned limit
      → Spares limit before
  unfolding trim_limit
  trim_limit-Spares floor limit before none q e old ms asked parsed = cc
  trim_limit-Spares floor limit before (some o) q e old ms asked parsed =
      let parsed' : entry_ms py redis self o ≡ returned ms = cc in
      let least : min_ℤ py redis self floor ms ≡ limit = ground arith in
      rw (sym least) (min_below floor ms)

  -- The question was just asked, and this is the answer.
  abbrev Named : Text → Option Bytes → World Passes Command → Type 0
  Named stream oldest w =
      (floor limit : ℤ)
      → trim_limit py redis self floor oldest ≡ returned limit
      → SparesLast stream limit w.trace

  xpending-Gives :
      (stream : Text) → Gives Sparing (ask (xpending stream self.group) redis.oldest) (Named stream)
  unfolding perform
  xpending-Gives stream = record {
    at = λ w h. (tt, h);
    result = λ w oldest h e floor limit q. (refl, trim_limit-Spares floor limit w.trace oldest e q);
  }

  trim_turn :
      (floor : ℤ) (stream : Text) (oldest : Option Bytes) (rest : Method (Unit {0}))
      (w : World Passes Command)
      → Keeps Sparing rest
      → Sparing w
      → Named stream oldest w
      → Sparing
          ((lift (trim_limit py redis self floor oldest) >>= λ limit.
              ask (xtrim stream limit) redis.done >>= λ _. rest)
            w).1
  unfolding lift perform ◌>>=◌
  trim_turn floor stream oldest rest w kr h named =
      go (trim_limit py redis self floor oldest) (λ limit e. named floor limit e)
    where
      cut : ℤ → Method (Unit {0})
      cut limit = ask (xtrim stream limit) redis.done >>= λ _. rest

      go :
          (o : Outcome ℤ)
          → ((limit : ℤ) → o ≡ returned limit → SparesLast stream limit w.trace)
          → Sparing (continue o cut w).1
      go (returned limit) spares =
          (Keeps-continue (redis.done w.trace) _ (λ _. kr)).at _ (spares limit refl, h)
      go (raised exc) spares = h
      go cancelled spares = h

  -- One turn of the loop, after which the rest keeps the property.
  trim_streams-Sparing :
      (floor : ℤ) (names : List Text) → Keeps Sparing (trim_streams py redis self floor names)
  unfolding trim_streams
  trim_streams-Sparing floor [] = Keeps-pure tt
  trim_streams-Sparing floor (stream ∷ more) =
      Keeps-bind-gives _ _ (xpending-Gives stream)
        (λ oldest w h k. trim_turn floor stream oldest _ w (trim_streams-Sparing floor more) h k)

  -- Whatever Redis answers, and however the trim ends: every stream is trimmed right after Redis was
  -- asked what is pending in it, and never past the oldest pending entry that it named.
  pub trim-AllSparing :
      (retention : ℤ) (passes : Passes)
      → AllSparing (trim py redis self retention (record { state = passes; trace = [] })).1.trace
  unfolding trim now_ms
  trim-AllSparing retention passes =
      (Keeps-bind _ _
          (Keeps-bind _ _ (Keeps-perform _ _ _ (λ o w h. (tt, h))) (λ now. Keeps-pure _))
          (λ now. trim_streams-Sparing _ _)).at
        (record { state = passes; trace = [] }) tt
