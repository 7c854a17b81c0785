-- ===== src/Litestar/Di/Resolving/Values.antt =====
-- The values that `resolved` of src/smallage/litestar/di.py looks up and hands over.
use mathlib.Core.Path.{subst}
use mathlib.Core.List.{append_assoc}
use litestar_rs.Prelude.{
  Text, Bool-cases, true, false, some, List, [], ◌∷◌, ◌++◌, ◌≡◌, ◌≢◌, ◌⊎◌, inl, inr, refl, sym, ◌∙◌,
  arith, All, All-imp, member, member-append, same, same→eq, same_iff, same_refl,
}
use litestar_rs.Prelude.Dict.{lookup, put, lookup-put}
use litestar_rs.Effect.{returned, status, succeeded, World, pure, ◌>>=◌}
use litestar_rs.Litestar.Di.{
  Dependencies, DependencyPlan, Provide, Yields, plain_value, sync_generator, async_generator,
  planned, keys, providers_of, plan_dependencies,
}
use litestar_rs.Litestar.Di.Ordered.{keys-append, IsOrdered}
use litestar_rs.Litestar.Di.Order.{providers-plan_dependencies, plan_dependencies-IsOrdered}
use litestar_rs.Litestar.Di.Resolving.{
  unopened, Use, provide, enter, Uses, Application, Scope, given, enter_value, resolve,
}

lookup-append_later :
    {V : Type 0} (key : Text) (d e : List (Text × V))
    → member key (keys d) ≡ false
    → lookup key (d ++ e) ≡ lookup key e
unfolding lookup member
lookup-append_later key [] e new = refl
lookup-append_later key ((other, v) ∷ d) e new = ground (arith, lookup-append_later key d e)

not_member : (name : Text) → member name [] ≢ true
unfolding member
not_member name h = cc

lookup-cons_self :
    {V : Type 0} (key : Text) (v : V) (d : List (Text × V)) → lookup key ((key, v) ∷ d) ≡ some v
unfolding lookup
lookup-cons_self key v d = ground (arith, same_refl key)

lookup-providers_of :
    (dependencies : Dependencies) (key : Text) (order : List Text) (provider : Provide)
    → member key order ≡ true
    → lookup key dependencies ≡ some provider
    → lookup key (providers_of dependencies order) ≡ some provider
unfolding member providers_of lookup
lookup-providers_of dependencies key [] provider inside found = cc
lookup-providers_of dependencies key (other ∷ order) provider inside found =
    elim (Bool-cases (same other key)) [
      | inl here ↦
          let e : other ≡ key = same→eq other key here in
          rw e (ground (arith, found, same_refl key))
      | inr later ↦
          let rest = lookup-providers_of dependencies key order provider (ground arith) found in
          ground (arith, rest)
    ]

module _ {V : Type 0} where
  abbrev pub Has : List (Text × V) → Text → Type 0
  Has values name = (v : V) × (lookup name values ≡ some v)

  Has-put :
      (values : List (Text × V)) (key name : Text) (v : V)
      → (Has values name) ⊎ (key ≡ name)
      → Has (put key v values) name
  Has-put values key name v h = elim (Bool-cases (same key name)) [
    | inl here ↦ (v, lookup-put key name v values ∙ (rw here))
    | inr other ↦ elim h [
      | inl (u, found) ↦ (u, lookup-put key name v values ∙ (rw other found))
      | inr e ↦ absurd (ground (arith, same_iff key name))
    ]
  ]

  given_returns :
      (names : List Text) (values : List (Text × V))
      → All (Has values) names
      → (passed : List (Text × V)) × (given names values ≡ returned passed)
  unfolding given
  given_returns [] values has = ([], refl)
  given_returns (name ∷ names) values ((v, found), has) =
      let (passed, e) = given_returns names values has in ((name, v) ∷ passed, ground arith)

module _ {B V : Type 0} (app : Application B V) (plan : DependencyPlan) where
  abbrev called : Text → List (Text × V) → World (Scope V) (Use B V) → World (Scope V) (Use B V)
  called key passed w = record w {
    trace = record { call = provide key passed; status = status (app.provided w.trace) } ∷ w.trace;
  }

  -- One turn of the loop, where nothing fails.
  resolve-cons :
      (key : Text) (order : List Text) (provider : Provide) (names : List Text)
      (passed : List (Text × V)) (made v : V) (w w' : World (Scope V) (Use B V))
      → lookup key plan.providers ≡ some provider
      → lookup key plan.arguments ≡ some names
      → given names w.state.values ≡ returned passed
      → app.provided w.trace ≡ returned made
      → enter_value app provider.yields made (called key passed w) ≡ (returned v, w')
      → resolve app plan (key ∷ order) w
        ≡ resolve app plan order
            (record w' { state = record w'.state { values = put key v w'.state.values } })
  unfolding resolve ◌>>=◌
  resolve-cons key order provider names passed made v w w' e1 e2 e3 e4 e5 = ground arith

  enter_value_returns :
      ((t : Uses B V) → (v : V) × (app.entered t ≡ returned v))
      → (yields : Yields) (made : V) (w : World (Scope V) (Use B V))
      → (v : V) × (w' : World (Scope V) (Use B V)) × (enter_value app yields made w
          ≡ (returned v, w'))
        × (w'.state.values ≡ w.state.values)
  unfolding enter_value ◌>>=◌
  enter_value_returns enters plain_value made w = (made, w, refl, refl)
  enter_value_returns enters sync_generator made w =
      let (v, e) = enters w.trace in
      (
        v,
        record {
          state = record w.state { started = w.state.started ++ made ∷ [] };
          trace = record { call = enter made; status = succeeded } ∷ w.trace;
        },
        ground arith,
        refl,
      )
  enter_value_returns enters async_generator made w =
      let (v, e) = enters w.trace in
      (
        v,
        record {
          state = record w.state { started = w.state.started ++ made ∷ [] };
          trace = record { call = enter made; status = succeeded } ∷ w.trace;
        },
        ground arith,
        refl,
      )

module _ {B V : Type 0} (app : Application B V) (dependencies : Dependencies)
    (plan : DependencyPlan) (provides : (t : Uses B V) → (v : V) × (app.provided t ≡ returned v))
    (enters : (t : Uses B V) → (v : V) × (app.entered t ≡ returned v))
    (made : plan.providers ≡ providers_of dependencies plan.order) where
  -- The rest of the loop, once what stands before has its values.
  resolve_returns :
      (before : List Text) (first rest : List (Text × List Text)) (w : World (Scope V) (Use B V))
      → plan.arguments ≡ first ++ rest
      → IsOrdered dependencies before rest
      → ((name : Text) → member name (keys first) ≡ true → member name before ≡ true)
      → ((name : Text) → member name (keys rest) ≡ true → member name plan.order ≡ true)
      → ((name : Text) → member name before ≡ true → Has w.state.values name)
      → ((resolve app plan (keys rest) w).0 ≡ returned tt)
        × ((name : Text)
            → (member name before ≡ true) ⊎ (member name (keys rest) ≡ true)
            → Has (resolve app plan (keys rest) w).1.state.values name)
  unfolding member resolve pure
  resolve_returns before first [] w split ordered earlier listed has =
      (refl, λ name h. elim h [ inl b ↦ has name b | inr f ↦ cc ])
  resolve_returns before first ((key, needed) ∷ rest) w split (new, built, fed, ordered) earlier
        listed has =
      let fresh : member key (keys first) ≡ false = elim (Bool-cases (member key (keys first))) [
        | inl twice ↦ (let known = earlier key twice in ground arith)
        | inr once ↦ once
      ] in
      let arguments_at : lookup key plan.arguments ≡ some needed = rw split (
        lookup-append_later key first ((key, needed) ∷ rest) fresh
        ∙ lookup-cons_self key needed rest) in
      let provider_at : lookup key plan.providers ≡ some built.provide = rw made (
        lookup-providers_of dependencies key plan.order built.provide
          (listed key (ground (arith, same_refl key))) built.found) in
      let (passed, gives) = given_returns needed w.state.values (All-imp needed has fed) in
      let (v0, provided) = provides w.trace in
      let (v, w', entered, same_values) =
        enter_value_returns app plan enters built.provide.yields v0
          (called app plan key passed w) in
      let turn =
        resolve-cons app plan key (keys rest) built.provide needed passed v0 v w w' provider_at
          arguments_at gives provided entered in
      let (ends, have) =
        resolve_returns (key ∷ before) (first ++ (key, needed) ∷ []) rest
          (record w' { state = record w'.state { values = put key v w'.state.values } })
          (split ∙ sym (append_assoc first ((key, needed) ∷ []) rest)) ordered
          (λ name h.
            (let inside : member name (keys first ++ key ∷ []) ≡ true =
                rw (keys-append first key needed) at h in
              let known = earlier name in
              ground (arith, known, member-append name (keys first) (key ∷ []))))
          (λ name h. listed name (ground arith))
          (λ name h. Has-put w'.state.values key name v (elim (Bool-cases (same key name)) [
            | inl here ↦ inr (same→eq key name here)
            | inr other ↦
                inl (subst (λ vs. Has vs name) (sym same_values) (has name (ground arith)))
          ])) in
      rw turn (
        ends,
        λ name h. have name (elim h [
          | inl b ↦ inl (ground arith)
          | inr r ↦ elim (Bool-cases (same key name)) [
            | inl here ↦ inl (ground arith)
            | inr other ↦ inr (ground arith)
          ]
        ]),
      )

module _ {B V : Type 0} (app : Application B V) (dependencies : Dependencies) (required : List Text)
    (plan : DependencyPlan) where
  -- Resolving what is left of the order ends well, with a value for each required dependency.
  abbrev IsResolved : List Text → Type 0
  IsResolved order =
      ((resolve app plan order unopened).0 ≡ returned tt)
      × All (Has (resolve app plan order unopened).1.state.values) required

  -- If no provider and no generator fails, a plan that was made is resolved: every provider, argument
  -- and value that is looked up is there, and the block has a value for each required dependency.
  pub resolve-plan_dependencies :
      plan_dependencies dependencies required ≡ planned plan
      → ((t : Uses B V) → (v : V) × (app.provided t ≡ returned v))
      → ((t : Uses B V) → (v : V) × (app.entered t ≡ returned v))
      → ((resolve app plan plan.order unopened).0 ≡ returned tt)
        × All (Has (resolve app plan plan.order unopened).1.state.values) required
  resolve-plan_dependencies e provides enters =
      let (listed, ordered, there) = plan_dependencies-IsOrdered dependencies required plan e in
      let (ends, have) =
        resolve_returns app dependencies plan provides enters
          (providers-plan_dependencies dependencies required plan e) [] [] plan.arguments unopened
          refl ordered (λ name h. h) (λ name h. subst (λ o. member name o ≡ true) (sym listed) h)
          (λ name h. absurd (not_member name h)) in
      subst (λ order. IsResolved order) (sym listed)
        (
          ends,
          All-imp required (λ name h. have name (inr (subst (λ o. member name o ≡ true) listed h)))
              there,
        )
