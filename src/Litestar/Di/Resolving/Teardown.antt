-- ===== src/Litestar/Di/Resolving/Teardown.antt =====
-- The teardown of generators in `resolved`, src/smallage/litestar/di.py.
use mathlib.Core.List.{reverse, append-nil, append_assoc}
use litestar_rs.Prelude.{Text, List, [], ◌∷◌, ◌++◌, ◌≡◌, ◌≢◌, ◌⊎◌, inl, inr, refl, sym, ap, ◌∙◌}
use litestar_rs.Effect.{
  Outcome, returned, raised, cancelled, succeeded, status, World, perform, continue, ◌>>=◌,
}
use litestar_rs.Effect.Keeps.{
  world-try_finally, Keeps, Keeps-pure, Keeps-lift, Keeps-asks, Keeps-modify, Keeps-perform,
  Keeps-bind,
}
use litestar_rs.Litestar.Di.{DependencyPlan, Yields, plain_value, sync_generator, async_generator}
use litestar_rs.Litestar.Di.Resolving.{
  Use, enter, leave, Uses, Application, Scope, enter_value, unopened, resolve, tear_down,
  use_values, tear_down_all, resolved,
}

module _ {B V : Type 0} where
  abbrev entered_by : Use B V → List V
  entered_by (enter v) = v ∷ []
  entered_by other = []

  abbrev left_by : Use B V → List V
  left_by (leave v) = v ∷ []
  left_by other = []

  -- The generators that were entered, the first one first.
  unfoldable pub entered : Uses B V → List V
  entered [] = []
  entered (event ∷ before) = entered before ++ entered_by event.call

  -- The generators of which the teardown was called, the first one first.
  unfoldable pub left : Uses B V → List V
  left [] = []
  left (event ∷ before) = left before ++ left_by event.call

  abbrev IsLeave : Use B V → Type 0
  IsLeave (leave v) = Unit
  IsLeave other = ⊥

  -- A teardown failed or was cancelled.
  abbrev pub HasFailed : Uses B V → Type 0
  HasFailed [] = ⊥
  HasFailed (event ∷ before) = (IsLeave event.call × (event.status ≢ succeeded)) ⊎ HasFailed before

  -- Nothing was torn down, and what was entered is what the list says.
  abbrev Noted : World (Scope V) (Use B V) → Type 0
  Noted w = (w.state.started ≡ entered w.trace) × (left w.trace ≡ [])

module _ {B V : Type 0} (app : Application B V) where
  enter_value-Noted : (yields : Yields) (v : V) → Keeps Noted (enter_value app yields v)
  unfolding enter_value entered left ◌>>=◌
  enter_value-Noted plain_value v = Keeps-pure v
  enter_value-Noted sync_generator v = record {
    at = λ w h. (ap (λ l. l ++ v ∷ []) h.0, append-nil (left w.trace) ∙ h.1);
  }
  enter_value-Noted async_generator v = record {
    at = λ w h. (ap (λ l. l ++ v ∷ []) h.0, append-nil (left w.trace) ∙ h.1);
  }

  resolve-Noted : (plan : DependencyPlan) (order : List Text) → Keeps Noted (resolve app plan order)
  unfolding resolve entered left
  resolve-Noted plan [] = Keeps-pure tt
  resolve-Noted plan (key ∷ order) = Keeps-bind _ _ (Keeps-lift _) (λ provider.
      Keeps-bind _ _ (Keeps-lift _) (λ names. Keeps-bind _ _ (Keeps-asks _) (λ arguments.
        Keeps-bind _ _ (Keeps-lift _) (λ passed.
          Keeps-bind _ _
            (Keeps-perform _ _ _ (λ o w h.
              (h.0 ∙ sym (append-nil (entered w.trace)), append-nil (left w.trace) ∙ h.1)))
            (λ made.
              Keeps-bind _ _ (enter_value-Noted provider.yields made) (λ v.
                Keeps-bind _ _ (Keeps-modify _ (λ w h. h)) (λ _. resolve-Noted plan order)))))))

  tear_down-split :
      (started : List V) (w : World (Scope V) (Use B V))
      → (kept : List V) × (left (tear_down app started w).1.trace ++ kept ≡ left w.trace ++ started)
        × (entered (tear_down app started w).1.trace ≡ entered w.trace)
        × ((kept ≡ []) ⊎ HasFailed (tear_down app started w).1.trace)
  unfolding tear_down entered left perform ◌>>=◌
  tear_down-split [] w = ([], refl, refl, inl refl)
  tear_down-split (generator ∷ started) w = go (tear_down-split started) (app.left w.trace)
    where
      next : Outcome (Unit {0}) → World (Scope V) (Use B V)
      next o = record {
        state = w.state;
        trace = record { call = leave generator; status = status o } ∷ w.trace;
      }

      go :
          ((v : World (Scope V) (Use B V))
            → (kept : List V) × (left (tear_down app started v).1.trace ++ kept
                ≡ left v.trace ++ started)
              × (entered (tear_down app started v).1.trace ≡ entered v.trace)
              × ((kept ≡ []) ⊎ HasFailed (tear_down app started v).1.trace))
          → (o : Outcome (Unit {0}))
          → (kept : List V) × (left (continue o (λ _. tear_down app started) (next o)).1.trace
                ++ kept
              ≡ left w.trace ++ generator ∷ started)
            × (entered (continue o (λ _. tear_down app started) (next o)).1.trace ≡ entered w.trace)
            × ((kept ≡ []) ⊎ HasFailed (continue o (λ _. tear_down app started) (next o)).1.trace)
      go later (returned _) =
          let (kept, split, same_entered, ends) = later (next (returned tt)) in
          (
            kept,
            split ∙ append_assoc (left w.trace) (generator ∷ []) started,
            same_entered ∙ append-nil (entered w.trace),
            ends,
          )
      go later (raised x) = (
        started,
        append_assoc (left w.trace) (generator ∷ []) started,
        append-nil (entered w.trace),
        inr (inl (tt, λ e. cc)),
      )
      go later cancelled = (
        started,
        append_assoc (left w.trace) (generator ∷ []) started,
        append-nil (entered w.trace),
        inr (inl (tt, λ e. cc)),
      )

  block-Noted :
      (plan : DependencyPlan) (block : List (Text × V) → Outcome B)
      → Keeps Noted (use_values app plan block)
  unfolding use_values entered left
  block-Noted plan block = Keeps-bind _ _ (resolve-Noted plan plan.order) (λ _.
      Keeps-bind _ _ (Keeps-asks _) (λ call. Keeps-bind _ _ (Keeps-lift _) (λ chosen.
        Keeps-perform _ _ _
          (λ o w h. (h.0 ∙ sym (append-nil (entered w.trace)), append-nil (left w.trace) ∙ h.1)))))

  -- However the providers, the block and the teardown end: generators are torn down in the reverse of
  -- the order in which they were entered, each once, and all of them unless the teardown of one of
  -- them failed or was cancelled.
  pub left-resolved :
      (plan : DependencyPlan) (block : List (Text × V) → Outcome B)
      → (kept : List V) × (left (resolved app plan block unopened).1.trace ++ kept
          ≡ reverse (entered (resolved app plan block unopened).1.trace))
        × ((kept ≡ []) ⊎ HasFailed (resolved app plan block unopened).1.trace)
  unfolding resolved tear_down_all ◌>>=◌ entered left
  left-resolved plan block =
      let w : World (Scope V) (Use B V) = (use_values app plan block unopened).1 in
      let noted : Noted w = (block-Noted plan block).at unopened (refl, refl) in
      let (kept, split, same_entered, ends) = tear_down-split (reverse w.state.started) w in
      rw (world-try_finally (use_values app plan block) (tear_down_all app) unopened) (
        kept,
        split
            ∙ ap (λ l. l ++ reverse w.state.started) noted.1
            ∙ ap reverse (noted.0 ∙ sym same_entered),
        ends,
      )
