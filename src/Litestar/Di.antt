-- ===== src/Litestar/Di.antt =====
-- Planning the dependencies of a task: `plan_dependencies` of src/smallage/litestar/di.py. What
-- `inspect` reads off a provider is a field of it.
pub mod Fuel
pub mod Order
pub mod Ordered
pub mod Refusals
pub mod Resolving
use litestar_rs.Prelude.{
  ℕ, zero, suc, Text, Bool, true, false, Option, some, none, List, [], ◌∷◌, ◌++◌, ◌≡◌, refl, map,
  length, member, same, if◌then◌else◌,
}
use litestar_rs.Prelude.Dict.{lookup, put}

pub record Parameter : Type 0 where
  pub name : Text
  pub has_default : Bool

-- What a provider hands over: its value, or a generator that is entered and torn down.
pub data Yields : Type 0 where
  plain_value sync_generator async_generator : Yields

pub record Provide : Type 0 where
  pub parameters : List Parameter
  pub yields : Yields

abbrev pub Dependencies : Type 0
Dependencies = List (Text × Provide)

pub record DependencyPlan : Type 0 where
  pub order : List Text
  pub providers : Dependencies
  pub arguments : List (Text × List Text)

-- Why ConfigurationError is raised: the path of a cycle, a key that is not provided, a provider with
-- a parameter that only a request can supply.
pub data Refusal : Type 0 where
  dependency_cycle : List Text → Refusal
  unknown_dependency : Text → Refusal
  needs_request : Text → Text → Refusal

-- `out_of_fuel` is no outcome of the program.
pub data Planned (A : Type 0) : Type 0 where
  planned : A → Planned A
  refused : Refusal → Planned A
  out_of_fuel : Planned A

infixl 5 ◌>>=◌
abbrev pub ◌>>=◌ : {A B : Type 0} → Planned A → (A → Planned B) → Planned B
planned a >>= f = f a
refused r >>= f = refused r
out_of_fuel >>= f = out_of_fuel

-- The variables of `plan_dependencies` that `visit` changes, but for `visiting`, which is a stack:
-- each call finds it as its caller left it.
pub record Planning : Type 0 where
  pub order : List Text
  pub arguments : List (Text × List Text)

abbrev pub keys {ℓ} : {V : Type ℓ} → List (Text × V) → List Text
keys [] = []
keys ((key, v) ∷ rest) = key ∷ keys rest

-- `visiting[visiting.index(key) :]`
unfoldable pub from_key : Text → List Text → List Text
from_key key [] = []
from_key key (visited ∷ rest) = if same visited key then visited ∷ rest else from_key key rest

abbrev pub settle : Text → List Text → Planning → Planning
settle key needed s = record { order = s.order ++ key ∷ []; arguments = put key needed s.arguments }

abbrev pub nothing_planned : Planning
nothing_planned = record { order = []; arguments = [] }

module _ (dependencies : Dependencies) where
  -- The loop over the parameters of a provider, where `go` is `visit`: `needed`, and what it left.
  unfoldable pub visit_parameters :
      (Text → Planning → Planned Planning)
      → Text
      → List Parameter
      → List Text
      → Planning
      → Planned (List Text × Planning)
  visit_parameters go key [] needed s = planned (needed, s)
  visit_parameters go key (parameter ∷ parameters) needed s =
      elim (member parameter.name (keys dependencies)) [
        | true ↦ go parameter.name s >>= λ s'.
            visit_parameters go key parameters (needed ++ parameter.name ∷ []) s'
        | false ↦ elim parameter.has_default [
          | true ↦ visit_parameters go key parameters needed s
          | false ↦ refused (needs_request key parameter.name)
        ]
      ]

  unfoldable pub visit_new :
      (Text → Planning → Planned Planning) → Text → Option Provide → Planning → Planned Planning
  visit_new go key none s = refused (unknown_dependency key)
  visit_new go key (some provide) s =
      visit_parameters go key provide.parameters [] s >>= λ (needed, s').
      planned (settle key needed s')

  unfoldable pub visit : ℕ → List Text → Text → Planning → Planned Planning
  visit zero visiting key s = out_of_fuel
  visit (suc fuel) visiting key s =
      if member key (keys s.arguments)
      then planned s
      else if member key visiting
      then refused (dependency_cycle (from_key key visiting ++ key ∷ []))
      else visit_new (visit fuel (visiting ++ key ∷ [])) key (lookup key dependencies) s

  unfoldable pub visit_all : ℕ → List Text → Planning → Planned Planning
  visit_all fuel [] s = planned s
  visit_all fuel (key ∷ required) s = visit fuel [] key s >>= visit_all fuel required

  -- `{key: dependencies[key] for key in order}`. Every planned key is provided: see Order.
  unfoldable pub providers_of : List Text → Dependencies
  providers_of [] = []
  providers_of (key ∷ order) =
      let rest = providers_of order in
      elim (lookup key dependencies) [ none ↦ rest | some provide ↦ (key, provide) ∷ rest ]

  -- One visit for each dependency and one more are enough fuel.
  unfoldable pub plan_dependencies : List Text → Planned DependencyPlan
  plan_dependencies required =
      visit_all (suc (length dependencies)) required nothing_planned >>= λ s.
      planned
        (record { order = s.order; providers = providers_of s.order; arguments = s.arguments })
