-- ===== src/Litestar/Di/Resolving/Chosen.antt =====
-- The calls that the block of `resolved`, src/smallage/litestar/di.py, chooses.
use litestar_rs.Prelude.{Text, List, [], ◌∷◌, ◌≡◌, sym, ◌∙◌, All}
use litestar_rs.Effect.{Outcome, returned, World, perform, lift, ◌>>=◌}
use litestar_rs.Effect.Keeps.{
  Keeps, Keeps-pure, Keeps-lift, Keeps-asks, Keeps-modify, Keeps-perform, Keeps-bind,
  Keeps-bind_lift, Keeps-bind-gives, Gives-asks, Keeps-try_finally,
}
use litestar_rs.Litestar.Di.{DependencyPlan, Yields, plain_value, sync_generator, async_generator}
use litestar_rs.Litestar.Di.Resolving.{
  Use, run_block, Application, Scope, enter_value, resolve, tear_down, use_values, tear_down_all,
  resolved,
}

module _ {B V : Type 0} (Good : B → Type 0) where
  abbrev pub Chosen : Use B V → Type 0
  Chosen (run_block b) = Good b
  Chosen other = Unit

  abbrev pub AllChosen : World (Scope V) (Use B V) → Type 0
  AllChosen w = All (λ event. Chosen event.call) w.trace

module _ {B V : Type 0} (Good : B → Type 0) (app : Application B V) where
  enter_value-AllChosen :
      (yields : Yields) (v : V) → Keeps (AllChosen Good) (enter_value app yields v)
  unfolding enter_value ◌>>=◌
  enter_value-AllChosen plain_value v = Keeps-pure v
  enter_value-AllChosen sync_generator v = record { at = λ w h. (tt, h) }
  enter_value-AllChosen async_generator v = record { at = λ w h. (tt, h) }

  resolve-AllChosen :
      (plan : DependencyPlan) (order : List Text) → Keeps (AllChosen Good) (resolve app plan order)
  unfolding resolve
  resolve-AllChosen plan [] = Keeps-pure tt
  resolve-AllChosen plan (key ∷ order) = Keeps-bind _ _ (Keeps-lift _) (λ provider.
      Keeps-bind _ _ (Keeps-lift _) (λ names. Keeps-bind _ _ (Keeps-asks _) (λ arguments.
        Keeps-bind _ _ (Keeps-lift _) (λ passed.
          Keeps-bind _ _ (Keeps-perform _ _ _ (λ o w h. (tt, h))) (λ made.
            Keeps-bind _ _ (enter_value-AllChosen provider.yields made) (λ v.
              Keeps-bind _ _ (Keeps-modify _ (λ w h. h)) (λ _. resolve-AllChosen plan order)))))))

  tear_down-AllChosen : (started : List V) → Keeps (AllChosen Good) (tear_down app started)
  unfolding tear_down
  tear_down-AllChosen [] = Keeps-pure tt
  tear_down-AllChosen (generator ∷ started) =
      Keeps-bind _ _ (Keeps-perform _ _ _ (λ o w h. (tt, h))) (λ _. tear_down-AllChosen started)

  chosen-AllChosen :
      (o : Outcome B)
      → ((b : B) → o ≡ returned b → Good b)
      → Keeps (AllChosen Good) (lift o >>= λ chosen. perform (run_block chosen) app.ran (λ t s. s))
  chosen-AllChosen o good =
      Keeps-bind_lift o _ (λ b e. Keeps-perform _ _ _ (λ status w h. (good b e, h)))

  pub resolved-AllChosen :
      (plan : DependencyPlan) (block : List (Text × V) → Outcome B)
      → ((values : List (Text × V)) (b : B) → block values ≡ returned b → Good b)
      → Keeps (AllChosen Good) (resolved app plan block)
  unfolding resolved use_values tear_down_all
  resolved-AllChosen plan block good =
      Keeps-try_finally _ _
        (Keeps-bind _ _ (resolve-AllChosen plan plan.order) (λ _.
          Keeps-bind-gives _ _ (Gives-asks (λ w. block w.state.values)) (λ a w h chosen_at.
            (chosen-AllChosen a (λ b e. good w.state.values b (sym chosen_at ∙ e))).at w h)))
        (Keeps-bind _ _ (Keeps-asks _) (λ started. tear_down-AllChosen _))
