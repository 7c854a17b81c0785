-- ===== src/Litestar/Di/Fuel.antt =====
-- How many visits `plan_dependencies` of src/smallage/litestar/di.py makes.
use litestar_rs.Prelude.{
  ℕ, zero, suc, ◌+◌, ◌≤◌, ◌<◌, Text, Bool-cases, false, Option, some, none, List, [], ◌∷◌, ◌++◌,
  ◌≡◌, ◌≢◌, refl, arith, inl, inr, length, member, member-append, same_iff, if◌then◌else◌,
}
use litestar_rs.Prelude.Dict.{lookup}
use litestar_rs.Litestar.Di.{
  Dependencies, Provide, Parameter, Planning, Planned, planned, refused, out_of_fuel, ◌>>=◌, keys,
  visit_parameters, visit_new, visit, visit_all, plan_dependencies, nothing_planned,
}

-- The dependencies that are not being visited.
free : List Text → Dependencies → ℕ
free visiting [] = 0
free visiting ((key, provide) ∷ rest) = (if member key visiting then 0 else 1) + free visiting rest

free-nil : (dependencies : Dependencies) → free [] dependencies ≡ length dependencies
unfolding free member
free-nil [] = refl
free-nil ((key, provide) ∷ rest) = omega (arith, free-nil rest)

free-append_le :
    (key : Text) (visiting : List Text) (dependencies : Dependencies)
    → free (visiting ++ key ∷ []) dependencies ≤ free visiting dependencies
unfolding free
free-append_le key visiting [] = omega arith
free-append_le key visiting ((other, provide) ∷ rest) =
    ground (arith, free-append_le key visiting rest, member-append other visiting (key ∷ []))

free-append_lt :
    (key : Text) (visiting : List Text) (dependencies : Dependencies) (provide : Provide)
    → member key visiting ≡ false
    → lookup key dependencies ≡ some provide
    → free (visiting ++ key ∷ []) dependencies < free visiting dependencies
unfolding free lookup member
free-append_lt key visiting [] provide new found = cc
free-append_lt key visiting ((other, p) ∷ rest) provide new found = ground (
  arith,
  same_iff other key,
  same_iff key other,
  free-append_le key visiting rest,
  free-append_lt key visiting rest provide new,
  member-append other visiting (key ∷ []),
)

bind_ends :
    {A B : Type 0} (m : Planned A) (f : A → Planned B)
    → m ≢ out_of_fuel
    → ((a : A) → f a ≢ out_of_fuel)
    → (m >>= f) ≢ out_of_fuel
bind_ends (planned a) f first then_ends = then_ends a
bind_ends (refused r) f first then_ends = λ e. cc
bind_ends out_of_fuel f first then_ends = λ e. first refl

module _ (dependencies : Dependencies) where
  -- A call that does not run out of fuel, whatever was planned before.
  abbrev Ends : (Text → Planning → Planned Planning) → Type 0
  Ends go = (key : Text) (s : Planning) → go key s ≢ out_of_fuel

  visit_parameters-Ends :
      (go : Text → Planning → Planned Planning)
      → Ends go
      → (key : Text) (parameters : List Parameter) (needed : List Text) (s : Planning)
      → visit_parameters dependencies go key parameters needed s ≢ out_of_fuel
  unfolding visit_parameters
  visit_parameters-Ends go ends key [] needed s = λ e. cc
  visit_parameters-Ends go ends key (parameter ∷ parameters) needed s =
      elim (Bool-cases (member parameter.name (keys dependencies))) [
        | inl provided ↦
            rw (provided, visit_parameters)
              (bind_ends _ _ (ends parameter.name s)
                (λ s'. visit_parameters-Ends go ends key parameters _ s'))
        | inr other ↦ elim (Bool-cases parameter.has_default) [
          | inl optional ↦
              rw (other, visit_parameters)
                (rw (optional) (visit_parameters-Ends go ends key parameters needed s))
          | inr needed_there ↦ λ e. ground arith
        ]
      ]

  visit_new-Ends :
      (go : Text → Planning → Planned Planning) (key : Text) (found : Option Provide) (s : Planning)
      → ((provide : Provide) → found ≡ some provide → Ends go)
      → visit_new dependencies go key found s ≢ out_of_fuel
  unfolding visit_new
  visit_new-Ends go key none s ends = λ e. cc
  visit_new-Ends go key (some provide) s ends =
      bind_ends _ _ (visit_parameters-Ends go (ends provide refl) key provide.parameters [] s)
        (λ r e. cc)

  visit-Ends :
      (fuel : ℕ) (visiting : List Text)
      → free visiting dependencies < fuel
      → Ends (visit dependencies fuel visiting)
  unfolding visit
  visit-Ends zero visiting enough key s = absurd (omega arith)
  visit-Ends (suc fuel) visiting enough key s = elim (Bool-cases (member key (keys s.arguments))) [
    | inl known ↦ λ e. ground arith
    | inr new ↦ elim (Bool-cases (member key visiting)) [
      | inl cycle ↦ λ e. ground arith
      | inr fresh ↦ rw new (
          rw fresh (
            visit_new-Ends _ key (lookup key dependencies) s (λ provide found.
              visit-Ends fuel (visiting ++ key ∷ [])
                (omega (arith, free-append_lt key visiting dependencies provide fresh found)))))
    ]
  ]

  visit_all_ends :
      (fuel : ℕ)
      → free [] dependencies < fuel
      → (required : List Text) (s : Planning) → visit_all dependencies fuel required s ≢ out_of_fuel
  unfolding visit_all
  visit_all_ends fuel enough [] s = λ e. cc
  visit_all_ends fuel enough (key ∷ required) s =
      bind_ends _ _ (visit-Ends fuel [] enough key s) (visit_all_ends fuel enough required)

  -- Planning ends, whatever is required and whatever the providers need, cycles included: one visit
  -- for each dependency and one more are enough.
  pub plan_dependencies_ends :
      (required : List Text) → plan_dependencies dependencies required ≢ out_of_fuel
  unfolding plan_dependencies
  plan_dependencies_ends required =
      bind_ends _ _
        (visit_all_ends _ (omega (arith, free-nil dependencies)) required nothing_planned)
        (λ s e. cc)
