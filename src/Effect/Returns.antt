-- ===== src/Effect/Returns.antt =====
-- What is known of the parts of a coroutine that returned.
use litestar_rs.Prelude.{List, ◌∷◌, ◌≡◌, refl, ap}
use litestar_rs.Effect.{
  Outcome, returned, raised, cancelled, succeeded, Event, World, Act, pure, lift, asks, perform,
  continue, ◌>>=◌,
}

module _ {S C A B : Type 0} where
  continue-returned :
      (o : Outcome A) (f : A → Act S C B) (w w'' : World S C) (b : B)
      → continue o f w ≡ (returned b, w'')
      → (a : A) × (o ≡ returned a) × (f a w ≡ (returned b, w''))
  continue-returned (returned a) f w w'' b e = (a, refl, e)
  continue-returned (raised x) f w w'' b e = cc
  continue-returned cancelled f w w'' b e = cc

  pub bind-returned :
      (m : Act S C A) (f : A → Act S C B) (w w'' : World S C) (b : B)
      → (m >>= f) w ≡ (returned b, w'')
      → (a : A) × (w' : World S C) × (m w ≡ (returned a, w')) × (f a w' ≡ (returned b, w''))
  unfolding ◌>>=◌
  bind-returned m f w w'' b e =
      let (a, o, rest) = continue-returned (m w).0 f (m w).1 w'' b e in
      (a, (m w).1, ap (λ o. (o, (m w).1)) o, rest)

  pub lift-returned :
      (o : Outcome A) (f : A → Act S C B) (w w'' : World S C) (b : B)
      → (lift o >>= f) w ≡ (returned b, w'')
      → (a : A) × (o ≡ returned a) × (f a w ≡ (returned b, w''))
  unfolding ◌>>=◌
  lift-returned o f w w'' b e = continue-returned o f w w'' b e

  pub perform-returned :
      (c : C) (answer : List (Event C) → Outcome A) (f : A → Act S C B) (w w'' : World S C) (b : B)
      → (perform c answer (λ t s. s) >>= f) w ≡ (returned b, w'')
      → (a : A) × (answer w.trace ≡ returned a)
        × (f a (record w { trace = record { call = c; status = succeeded } ∷ w.trace })
            ≡ (returned b, w''))
  unfolding ◌>>=◌
  perform-returned c answer f w w'' b e =
      let (a, o, rest) = continue-returned (answer w.trace) f _ w'' b e in (a, o, rw o at rest)

  pub asks-returned :
      (g : World S C → A) (f : A → Act S C B) (w w'' : World S C) (b : B)
      → (asks g >>= f) w ≡ (returned b, w'')
      → f (g w) w ≡ (returned b, w'')
  unfolding ◌>>=◌
  asks-returned g f w w'' b e = e

  pub lift-known :
      (o : Outcome A) (f : A → Act S C B) (a : A) (w w'' : World S C) (b : B)
      → o ≡ returned a
      → (lift o >>= f) w ≡ (returned b, w'')
      → f a w ≡ (returned b, w'')
  unfolding ◌>>=◌
  lift-known o f a w w'' b known e = rw known at e

module _ {S C A : Type 0} where
  pub pure-returned :
      (a b : A) (w w' : World S C) → pure a w ≡ (returned b, w') → (a ≡ b) × (w ≡ w')
  unfolding pure
  pure-returned a b w w' e = (cc, cc)
