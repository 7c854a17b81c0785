-- ===== src/Litestar/Di/Resolving.antt =====
-- Resolving a plan around the call of a task: `resolved` of src/smallage/litestar/di.py.
pub mod Chosen
pub mod Teardown
pub mod Values
use litestar_rs.Prelude.{Text, Option, some, none, List, [], ◌∷◌, ◌++◌, ◌≡◌}
use mathlib.Core.List.{reverse}
use litestar_rs.Prelude.Dict.{lookup, put}
use litestar_rs.Python.{key_error}
use litestar_rs.Effect.{
  Outcome, returned, Event, World, Act, perform, pure, lift, asks, modify, try_finally, ◌>>=◌, ◌>>◌,
}
use litestar_rs.Core.Envelope.{or_raise}
use litestar_rs.Litestar.Di.{
  DependencyPlan, Provide, Yields, plain_value, sync_generator, async_generator,
}

-- The calls, over the values `V` of the application: a provider with its arguments, the two steps of
-- a generator, and the call, of `B`, that the block of `async with` chooses from the values.
pub data Use (B V : Type 0) : Type 0 where
  provide : Text → List (Text × V) → Use B V
  enter : V → Use B V
  leave : V → Use B V
  run_block : B → Use B V

abbrev pub Uses : Type 0 → Type 0 → Type 0
Uses B V = List (Event (Use B V))

-- What the application's code answers.
pub record Application (B V : Type 0) : Type 0 where
  pub provided : Uses B V → Outcome V
  pub entered : Uses B V → Outcome V
  pub left : Uses B V → Outcome (Unit {0})
  pub ran : Uses B V → Outcome V

-- The local variables `values` and `started`.
pub record Scope (V : Type 0) : Type 0 where
  pub values : List (Text × V)
  pub started : List V

abbrev pub no_values : {V : Type 0} → Scope V
no_values = record { values = []; started = [] }

module _ {B V : Type 0} where
  abbrev pub unopened : World (Scope V) (Use B V)
  unopened = record { state = no_values; trace = [] }

module _ {V : Type 0} where
  -- `{name: values[name] for name in names}`
  unfoldable pub given : List Text → List (Text × V) → Outcome (List (Text × V))
  given [] values = returned []
  given (name ∷ names) values =
      let rest = given names values in
      elim (lookup name values) [
        | none ↦ or_raise key_error none
        | some v ↦ elim rest [ returned more ↦ returned ((name, v) ∷ more) | other ↦ other ]
      ]

module _ {B V : Type 0} (app : Application B V) where
  abbrev start : V → Act (Scope V) (Use B V) V
  start v = do
    modify (λ s. record s { started = s.started ++ v ∷ [] })
    perform (enter v) app.entered (λ t s. s)

  -- The value of a provider, which is entered if it is a generator.
  unfoldable pub enter_value : Yields → V → Act (Scope V) (Use B V) V
  enter_value plain_value v = pure v
  enter_value sync_generator v = start v
  enter_value async_generator v = start v

  unfoldable pub resolve : DependencyPlan → List Text → Act (Scope V) (Use B V) (Unit {0})
  resolve plan [] = pure tt
  resolve plan (key ∷ order) = do
    provider ← lift (or_raise key_error (lookup key plan.providers))
    names ← lift (or_raise key_error (lookup key plan.arguments))
    arguments ← asks (λ w. given names w.state.values)
    passed ← lift arguments
    made ← perform (provide key passed) app.provided (λ t s. s)
    v ← enter_value provider.yields made
    modify (λ s. record s { values = put key v s.values })
    resolve plan order

  unfoldable pub tear_down : List V → Act (Scope V) (Use B V) (Unit {0})
  tear_down [] = pure tt
  tear_down (generator ∷ started) = do
    perform (leave generator) app.left (λ t s. s)
    tear_down started

  -- The body of `try`, with the block that the values are handed to at `yield`, which raises or awaits
  -- one call.
  unfoldable pub use_values :
      DependencyPlan → (List (Text × V) → Outcome B) → Act (Scope V) (Use B V) V
  use_values plan block = do
    resolve plan plan.order
    call ← asks (λ w. block w.state.values)
    chosen ← lift call
    perform (run_block chosen) app.ran (λ t s. s)

  unfoldable pub tear_down_all : Act (Scope V) (Use B V) (Unit {0})
  tear_down_all = do started ← asks (λ w. w.state.started); tear_down (reverse started)

  unfoldable pub resolved :
      DependencyPlan → (List (Text × V) → Outcome B) → Act (Scope V) (Use B V) V
  resolved plan block = try_finally (use_values plan block) tear_down_all
