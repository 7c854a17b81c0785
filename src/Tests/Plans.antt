-- ===== src/Tests/Plans.antt =====
-- Dependencies that are planned, refused and resolved: a session that is built from settings.
use litestar_rs.Prelude.{
  Text, text, true, false, some, refl, List, [], ◌∷◌, ◌++◌, ◌≡◌, ◌≢◌, ◌⊎◌, All, member,
}
use mathlib.Core.List.{reverse}
use litestar_rs.Python.{other}
use litestar_rs.Effect.{Outcome, returned, raised}
use litestar_rs.Litestar.Di.{
  Dependencies, DependencyPlan, Provide, plain_value, async_generator, planned, refused,
  out_of_fuel, dependency_cycle, keys, plan_dependencies, visit_all, visit, visit_new,
  visit_parameters, from_key, providers_of,
}
use litestar_rs.Litestar.Di.Fuel.{plan_dependencies_ends}
use litestar_rs.Litestar.Di.Ordered.{IsOrdered}
use litestar_rs.Litestar.Di.Order.{plan_dependencies-IsOrdered}
use litestar_rs.Litestar.Di.Refusals.{IsJustified, refused-IsJustified}
use litestar_rs.Litestar.Di.Resolving.{Application, resolve, resolved, unopened}
use litestar_rs.Litestar.Di.Resolving.Teardown.{entered, left, HasFailed, left-resolved}
use litestar_rs.Litestar.Di.Resolving.Values.{Has, resolve-plan_dependencies}
use litestar_rs.Prelude.Dict.{lookup, put}

abbrev pub settings : Provide
settings = record {
  parameters = record { name = text "env"; has_default = true } ∷ [];
  yields = plain_value;
}

abbrev pub session : Provide
session = record {
  parameters = record { name = text "settings"; has_default = false } ∷ [];
  yields = async_generator;
}

abbrev pub dependencies : Dependencies
dependencies = (text "session", session) ∷ (text "settings", settings) ∷ []

-- Two providers that take each other.
abbrev looped : Dependencies
looped =
    (
      text "a",
      record {
        parameters = record { name = text "b"; has_default = false } ∷ [];
        yields = plain_value;
      },
    )
    ∷ (
      text "b",
      record {
        parameters = record { name = text "a"; has_default = false } ∷ [];
        yields = plain_value;
      },
    )
    ∷ []

abbrev required : List Text
required = text "session" ∷ []

abbrev pub plan : DependencyPlan
plan = record {
  order = text "settings" ∷ text "session" ∷ [];
  providers = (text "settings", settings) ∷ (text "session", session) ∷ [];
  arguments = (text "settings", []) ∷ (text "session", text "settings" ∷ []) ∷ [];
}

-- Every value is its own generator, and the block raises.
abbrev app : Application Text Text
app = record {
  provided = λ t. returned (text "value");
  entered = λ t. returned (text "entered");
  left = λ t. returned tt;
  ran = λ t. raised (other 0);
}

abbrev block : List (Text × Text) → Outcome Text
block values = returned (text "charge")

planned_plan : plan_dependencies dependencies required ≡ planned plan
unfolding plan_dependencies visit_all visit visit_new visit_parameters providers_of member lookup
    put litestar_rs.Prelude.same
planned_plan = refl

refused_loop :
    plan_dependencies looped (text "a" ∷ [])
    ≡ refused (dependency_cycle (text "a" ∷ text "b" ∷ text "a" ∷ []))
unfolding plan_dependencies visit_all visit visit_new visit_parameters from_key member lookup put
    litestar_rs.Prelude.same
refused_loop = refl

plan_dependencies_ends_example : plan_dependencies looped (text "a" ∷ []) ≢ out_of_fuel
plan_dependencies_ends_example = plan_dependencies_ends looped (text "a" ∷ [])

plan_dependencies-IsOrdered_example :
    (plan.order ≡ keys plan.arguments)
    × IsOrdered dependencies [] plan.arguments
    × All (λ key. member key plan.order ≡ true) required
plan_dependencies-IsOrdered_example =
    plan_dependencies-IsOrdered dependencies required plan planned_plan

refused-IsJustified_example :
    IsJustified looped (text "a" ∷ []) (dependency_cycle (text "a" ∷ text "b" ∷ text "a" ∷ []))
refused-IsJustified_example =
    refused-IsJustified looped (text "a" ∷ [])
      (dependency_cycle (text "a" ∷ text "b" ∷ text "a" ∷ [])) refused_loop

left-resolved_example :
    (kept : List Text) × (left (resolved app plan block unopened).1.trace ++ kept
      ≡ reverse (entered (resolved app plan block unopened).1.trace))
    × ((kept ≡ []) ⊎ HasFailed (resolved app plan block unopened).1.trace)
left-resolved_example = left-resolved app plan block

resolve-plan_dependencies_example :
    ((resolve app plan plan.order unopened).0 ≡ returned tt)
    × All (Has (resolve app plan plan.order unopened).1.state.values) required
resolve-plan_dependencies_example =
    resolve-plan_dependencies app dependencies required plan planned_plan
      (λ t. (text "value", refl)) (λ t. (text "entered", refl))
