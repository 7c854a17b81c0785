-- ===== src/Effect.antt =====
-- Coroutines that await calls of other components, change the state of their own component, and may
-- raise or be cancelled. The answer to a call is chosen by the environment from all the calls that
-- were made before, so a theorem for every environment covers every behaviour of what is called.
pub mod Keeps
pub mod Returns
use litestar_rs.Prelude.{◌++◌, ◌⊎◌, inl, inr, ℕ, Bool, true, false, List, [], ◌∷◌, ◌≡◌, refl}
use litestar_rs.Python.{Exn}

pub data Outcome {ℓ} (A : Type ℓ) : Type ℓ where
  returned : A → Outcome A
  raised : Exn → Outcome A
  cancelled : Outcome A

pub Outcome-cases {ℓ} :
    {A : Type ℓ} (o : Outcome A)
    → (((a : A) × (o ≡ returned a)) ⊎ ((e : Exn) × (o ≡ raised e))) ⊎ (o ≡ cancelled)
Outcome-cases (returned a) = inl (inl (a, refl))
Outcome-cases (raised e) = inl (inr (e, refl))
Outcome-cases cancelled = inr refl

-- How a call ended.
pub data Status : Type 0 where
  succeeded failed stopped : Status

abbrev pub status {ℓ} : {A : Type ℓ} → Outcome A → Status
status (returned a) = succeeded
status (raised e) = failed
status cancelled = stopped

pub record Event (C : Type 0) : Type 0 where
  pub call : C
  pub status : Status

-- The state of the component and the calls so far, the newest first.
pub record World (S C : Type 0) : Type 0 where
  pub state : S
  pub trace : List (Event C)

abbrev pub Act : Type 0 → Type 0 → Type 0 → Type 0
Act S C A = World S C → Outcome A × World S C

module _ {S C A : Type 0} where
  unfoldable pub pure : A → Act S C A
  pure a w = (returned a, w)

  unfoldable pub throw : Exn → Act S C A
  throw e w = (raised e, w)

  unfoldable pub lift : Outcome A → Act S C A
  lift o w = (o, w)

  -- a value read off the world, with no await
  unfoldable pub asks : (World S C → A) → Act S C A
  asks f w = (returned (f w), w)

  -- `await` of a call: the environment answers from the calls so far, and what runs meanwhile may
  -- change the state.
  unfoldable pub perform : C → (List (Event C) → Outcome A) → (List (Event C) → S → S) → Act S C A
  perform c answer others w =
      let o = answer w.trace in
      let event : Event C = record { call = c; status = status o } in
      (o, record { state = others w.trace w.state; trace = event ∷ w.trace })

  -- `try: body` / `except Exception as e: handler(e)`
  unfoldable pub except : Act S C A → (Exn → Act S C A) → Act S C A
  except body handler w =
      let (o, w') = body w in
      elim o [
        | returned a ↦ (returned a, w')
        | raised e ↦ handler e w'
        | cancelled ↦ (cancelled, w')
      ]

  -- `try: body` / `finally: cleanup`, for a cleanup that only assigns
  unfoldable pub finally : Act S C A → (S → S) → Act S C A
  finally body cleanup w =
      let (o, w') = body w in (o, record { state = cleanup w'.state; trace = w'.trace })

module _ {S C : Type 0} where
  unfoldable pub modify : (S → S) → Act S C (Unit {0})
  modify f w = (returned tt, record { state = f w.state; trace = w.trace })

module _ {S C A B : Type 0} where
  abbrev pub continue : Outcome A → (A → Act S C B) → Act S C B
  continue (returned a) f w = f a w
  continue (raised e) f w = (raised e, w)
  continue cancelled f w = (cancelled, w)

  infixl 5 ◌>>=◌ ◌>>◌
  -- opening this opens the ways to build a coroutine that stand above
  unfoldable pub ◌>>=◌ : Act S C A → (A → Act S C B) → Act S C B
  unfolding pure throw lift asks perform except finally modify
  ◌>>=◌ m f w = let (o, w') = m w in continue o f w'

  abbrev pub ◌>>◌ : Act S C A → Act S C B → Act S C B
  m >> n = m >>= λ _. n

module _ {S C A : Type 0} where
  -- `try: body` / `except CancelledError:` with a shielded clean-up, then `raise` / `except
  -- Exception as e: handler(e)`. Neither handler covers the other: an exception of the clean-up
  -- takes the place of the cancellation, and a cancellation in `handler` is not cleaned up after.
  unfoldable pub try_except : Act S C A → Act S C (Unit {0}) → (Exn → Act S C A) → Act S C A
  unfolding ◌>>=◌
  try_except body cleanup handler w =
      let (o, w') = body w in
      elim o [
        | returned a ↦ (returned a, w')
        | raised e ↦ handler e w'
        | cancelled ↦ (cleanup >>= λ _. lift cancelled) w'
      ]

module _ {S C A : Type 0} where
  -- `try: body` / `finally: cleanup`, for a cleanup that awaits: where it raises, its exception takes
  -- the place of what the body ended with.
  unfoldable pub try_finally : Act S C A → Act S C (Unit {0}) → Act S C A
  unfolding ◌>>=◌
  try_finally body cleanup w =
      let (o, w') = body w in
      let (c, w'') = cleanup w' in
      elim c [ returned _ ↦ (o, w'') | raised e ↦ (raised e, w'') | cancelled ↦ (cancelled, w'') ]

module _ {C C' : Type 0} where
  abbrev pub relabel : (C' → C) → List (Event C') → List (Event C)
  relabel f [] = []
  relabel f (event ∷ before) =
      record { call = f event.call; status = event.status } ∷ relabel f before

module _ {S C S' C' : Type 0} where
  -- A coroutine with local variables and calls of its own, whose calls are seen through `f`.
  unfoldable pub scoped : {A : Type 0} → (C' → C) → S' → (List (Event C) → Act S' C' A) → Act S C A
  scoped f locals m w =
      let (o, w') = m w.trace (record { state = locals; trace = [] }) in
      (o, record { state = w.state; trace = relabel f w'.trace ++ w.trace })
