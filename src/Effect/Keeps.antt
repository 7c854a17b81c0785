-- ===== src/Effect/Keeps.antt =====
-- Invariants of coroutines, one rule for each way to build one.
use litestar_rs.Prelude.{Bool, true, false, ◌≡◌, refl, inl, inr, List, ◌∷◌, arith, if◌then◌else◌}
use litestar_rs.Python.{Exn}
use litestar_rs.Effect.{
  Outcome, returned, raised, cancelled, Status, status, Event, World, Act, pure, throw, lift, asks,
  perform, except, finally, modify, continue, ◌>>=◌, try_except, try_finally, Outcome-cases,
}

-- `m` keeps `P`, whether it returns, raises or is cancelled.
pub record Keeps {S C A : Type 0} (P : World S C → Type 0) (m : Act S C A) : Type 0 where
  pub at : (w : World S C) → P w → P (m w).1

module _ {S C A : Type 0} {P : World S C → Type 0} where
  pub Keeps-pure : (a : A) → Keeps P (pure a)
  unfolding pure
  Keeps-pure a = record { at = λ w h. h }

  pub Keeps-throw : (e : Exn) → Keeps P (throw {A = A} e)
  unfolding throw
  Keeps-throw e = record { at = λ w h. h }

  pub Keeps-lift : (o : Outcome A) → Keeps P (lift o)
  unfolding lift
  Keeps-lift o = record { at = λ w h. h }

  pub Keeps-asks : (f : World S C → A) → Keeps P (asks f)
  unfolding asks
  Keeps-asks f = record { at = λ w h. h }

  pub Keeps-if : (b : Bool) (m n : Act S C A) → Keeps P m → Keeps P n → Keeps P (if b then m else n)
  Keeps-if true m n km kn = km
  Keeps-if false m n km kn = kn

  pub Keeps-if_cases :
      (b : Bool) (m n : Act S C A)
      → (b ≡ true → Keeps P m)
      → (b ≡ false → Keeps P n)
      → Keeps P (if b then m else n)
  Keeps-if_cases true m n km kn = km refl
  Keeps-if_cases false m n km kn = kn refl

  pub Keeps-except :
      (m : Act S C A) (h : Exn → Act S C A)
      → Keeps P m
      → ((e : Exn) → Keeps P (h e))
      → Keeps P (except m h)
  unfolding except
  Keeps-except m h km kh = record { at = λ w p. let (o, w') = m w in go o w' (km.at w p) }
    where
      go : (o : Outcome A) (w' : World S C) → P w' → P (except (λ _. (o, w')) h w').1
      go (returned a) w' p = p
      go (raised e) w' p = (kh e).at w' p
      go cancelled w' p = p

  pub Keeps-perform :
      (c : C) (answer : List (Event C) → Outcome A) (others : List (Event C) → S → S)
      → ((o : Status) (w : World S C)
          → P w
          → P (record {
            state = others w.trace w.state;
            trace = record { call = c; status = o } ∷ w.trace;
          }))
      → Keeps P (perform c answer others)
  unfolding perform
  Keeps-perform c answer others step = record { at = λ w h. step (status (answer w.trace)) w h }

  pub Keeps-finally :
      (m : Act S C A) (f : S → S)
      → Keeps P m
      → ((w : World S C) → P w → P (record w { state = f w.state }))
      → Keeps P (finally m f)
  unfolding finally
  Keeps-finally m f km kf = record { at = λ w h. kf (m w).1 (km.at w h) }

  pub Keeps-try_except :
      (m : Act S C A) (cleanup : Act S C (Unit {0})) (h : Exn → Act S C A)
      → Keeps P m
      → Keeps P cleanup
      → ((e : Exn) → Keeps P (h e))
      → Keeps P (try_except m cleanup h)
  unfolding try_except
  Keeps-try_except m cleanup h km kc kh = record {
    at = λ w p. let (o, w') = m w in go o w' (km.at w p);
  }
    where
      rethrow :
          (o : Outcome (Unit {0})) (w : World S C)
          → P w
          → P (continue o (λ _. lift {A = A} cancelled) w).1
      rethrow (returned a) w p = p
      rethrow (raised e) w p = p
      rethrow cancelled w p = p

      go : (o : Outcome A) (w' : World S C) → P w' → P (try_except (λ _. (o, w')) cleanup h w').1
      go (returned a) w' p = p
      go (raised e) w' p = (kh e).at w' p
      go cancelled w' p = let (o, w'') = cleanup w' in rethrow o w'' (kc.at w' p)

module _ {S C : Type 0} {P : World S C → Type 0} where
  pub Keeps-modify :
      (f : S → S)
      → ((w : World S C) → P w → P (record w { state = f w.state }))
      → Keeps P (modify f)
  unfolding modify
  Keeps-modify f k = record { at = k }

module _ {S C A B : Type 0} {P : World S C → Type 0} where
  pub Keeps-continue :
      (o : Outcome A) (f : A → Act S C B) → ((a : A) → Keeps P (f a)) → Keeps P (continue o f)
  unfolding throw lift
  Keeps-continue (returned a) f k = k a
  Keeps-continue (raised e) f k = Keeps-throw e
  Keeps-continue cancelled f k = Keeps-lift cancelled

  pub Keeps-bind :
      (m : Act S C A) (f : A → Act S C B)
      → Keeps P m
      → ((a : A) → Keeps P (f a))
      → Keeps P (m >>= f)
  unfolding ◌>>=◌
  Keeps-bind m f km kf = record {
    at = λ w h. let (o, w') = m w in (Keeps-continue o f kf).at w' (km.at w h);
  }

-- `m` keeps `P`, and where it returns, what it returns and the world that it leaves meet `Q`.
pub record Gives {S C A : Type 0} (P : World S C → Type 0) (m : Act S C A)
    (Q : A → World S C → Type 0) : Type 0 where
  pub at : (w : World S C) → P w → P (m w).1
  pub result : (w : World S C) (a : A) → P w → (m w).0 ≡ returned a → Q a (m w).1

module _ {S C A B : Type 0} {P : World S C → Type 0} {Q : A → World S C → Type 0} where
  Gives-continue :
      (o : Outcome A) (w : World S C) (f : A → Act S C B)
      → P w
      → ((a : A) → o ≡ returned a → Q a w)
      → ((a : A) (v : World S C) → P v → Q a v → P (f a v).1)
      → P (continue o f w).1
  Gives-continue (returned a) w f p q k = k a w p (q a refl)
  Gives-continue (raised e) w f p q k = p
  Gives-continue cancelled w f p q k = p

  pub Keeps-bind-gives :
      (m : Act S C A) (f : A → Act S C B)
      → Gives P m Q
      → ((a : A) (w : World S C) → P w → Q a w → P (f a w).1)
      → Keeps P (m >>= f)
  unfolding ◌>>=◌
  Keeps-bind-gives m f gm k = record {
    at = λ w p. Gives-continue (m w).0 (m w).1 f (gm.at w p) (λ a e. gm.result w a p e) k;
  }

module _ {S C A B : Type 0} {P : World S C → Type 0} where
  -- The rest may use that the pure part returned.
  pub Keeps-bind_lift :
      (o : Outcome A) (f : A → Act S C B)
      → ((a : A) → o ≡ returned a → Keeps P (f a))
      → Keeps P (lift o >>= f)
  unfolding ◌>>=◌
  Keeps-bind_lift (returned a) f k = record { at = (k a refl).at }
  Keeps-bind_lift (raised e) f k = record { at = λ w p. p }
  Keeps-bind_lift cancelled f k = record { at = λ w p. p }

module _ {S C A : Type 0} {P : World S C → Type 0} where
  pub Gives-asks : (f : World S C → A) → Gives P (asks f) (λ a w. a ≡ f w)
  unfolding asks
  Gives-asks f = record { at = λ w h. h; result = λ w a h e. cc }

module _ {S C A B : Type 0} where
  -- Returning at the end changes no world.
  pub bind-pure : (m : Act S C A) (b : B) (w : World S C) → ((m >>= λ _. pure b) w).1 ≡ (m w).1
  unfolding ◌>>=◌
  bind-pure m b w = ground arith

module _ {S C A : Type 0} where
  -- The world that `try`/`finally` leaves is that of the cleanup, whatever either ends with.
  pub world-try_finally :
      (body : Act S C A) (cleanup : Act S C (Unit {0})) (w : World S C)
      → (try_finally body cleanup w).1 ≡ (cleanup (body w).1).1
  unfolding try_finally
  world-try_finally body cleanup w = elim (Outcome-cases (cleanup (body w).1).0) [
    | inl (inl (a, q)) ↦ ground arith
    | inl (inr (e, q)) ↦ ground arith
    | inr q ↦ ground arith
  ]

module _ {S C A : Type 0} {P : World S C → Type 0} where
  pub Keeps-try_finally :
      (body : Act S C A) (cleanup : Act S C (Unit {0}))
      → Keeps P body
      → Keeps P cleanup
      → Keeps P (try_finally body cleanup)
  Keeps-try_finally body cleanup kb kc = record {
    at = λ w h. rw (world-try_finally body cleanup w) (kc.at (body w).1 (kb.at w h));
  }

module _ {S C A : Type 0} {P : World S C → Type 0} {Q : A → World S C → Type 0} where
  pub Gives-lift :
      (o : Outcome A) → ((a : A) (w : World S C) → o ≡ returned a → Q a w) → Gives P (lift o) Q
  unfolding lift
  Gives-lift o q = record { at = λ w h. h; result = λ w a h e. q a w e }

module _ {S C A B : Type 0} {P : World S C → Type 0} {Q : B → World S C → Type 0} where
  pub Gives-bind :
      (m : Act S C A) (f : A → Act S C B)
      → Keeps P m
      → ((a : A) → Gives P (f a) Q)
      → Gives P (m >>= f) Q
  unfolding ◌>>=◌
  Gives-bind m f km gf = record {
    at = (Keeps-bind m f km (λ a. record { at = (gf a).at })).at;
    result = λ w b h e. go (m w).0 (m w).1 b (km.at w h) e;
  }
    where
      go :
          (o : Outcome A) (w : World S C) (b : B)
          → P w
          → (continue o f w).0 ≡ returned b
          → Q b (continue o f w).1
      go (returned a) w b h e = (gf a).result w b h e
      go (raised x) w b h e = cc
      go cancelled w b h e = cc

pub ruleset keeps_rules = (
  Keeps-pure, Keeps-throw, Keeps-lift, Keeps-asks, Keeps-if, Keeps-except, Keeps-perform,
  Keeps-finally, Keeps-try_except, Keeps-try_finally, Keeps-modify, Keeps-bind,
)
