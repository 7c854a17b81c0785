-- ===== src/Litestar/Registry/Binding.antt =====
-- What `_bind` of src/smallage/litestar/registry.py makes of the parameters of a task.
use mathlib.Core.Path.{subst}
use litestar_rs.Prelude.{
  text, Text, Bool, Bool-cases, Option-cases, true, false, not, ◌&&◌, ◌||◌, Option, some, none,
  List, [], ◌∷◌, ◌++◌, ◌≡◌, ◌≢◌, ◌⊎◌, inl, inr, refl, sym, ap, arith, map, member, member-append,
  same, same→eq,
}
use litestar_rs.Prelude.Dict.{lookup}
use litestar_rs.Effect.{returned}
use litestar_rs.Python.{Exn}
use litestar_rs.Core.Envelope.{or_raise, bind-returned}
use litestar_rs.Litestar.Di.{
  Dependencies, DependencyPlan, Planned, planned, refused, out_of_fuel, keys, plan_dependencies,
}
use litestar_rs.Litestar.Di.Fuel.{plan_dependencies_ends}
use litestar_rs.Litestar.Registry.{
  TaskParameter, Task, Field, BoundTask, Structs, or_refuse, split_parameters, is_set, settle_task,
  bind_task, bind_all,
}

pub returned_injective : {A : Type 0} {a b : A} → returned a ≡ returned b → a ≡ b
returned_injective e = cc

pub or_raise-some :
    {A : Type 0} (x : Exn) (o : Option A) (a : A) → or_raise x o ≡ returned a → o ≡ some a
or_raise-some x none a e = cc
or_raise-some x (some b) a e = ap some (returned_injective e)

abbrev pub names : {V : Type 0} → List (TaskParameter V) → List Text
names parameters = map (λ p. p.name) parameters

abbrev pub field_names : {V : Type 0} → List (Field V) → List Text
field_names fields = map (λ f. f.name) fields

same_provided :
    (dependencies : Dependencies) (key name : Text)
    → same key name ≡ true
    → member key (keys dependencies) ≡ member name (keys dependencies)
same_provided dependencies key name e = ap (λ k. member k (keys dependencies)) (same→eq key name e)

module _ {V : Type 0} (dependencies : Dependencies) where
  -- What is injected, and what the payload carries, of the parameters of a signature.
  abbrev pub IsSplit : List (TaskParameter V) → List Text → List Text → Type 0
  IsSplit parameters injected fields =
      (name : Text)
      → (member name injected ≡ (member name (names parameters) && member name (keys dependencies)))
        × (member name fields
            ≡ (member name (names parameters) && not (member name (keys dependencies))))

  field_names-append :
      (fields : List (Field V)) (field : Field V)
      → field_names (fields ++ field ∷ []) ≡ field_names fields ++ field.name ∷ []
  field_names-append [] field = refl
  field_names-append (first ∷ fields) field = ap (◌∷◌ first.name) (field_names-append fields field)

  split_parameters-grows :
      (parameters : List (TaskParameter V)) (injected : List Text) (fields : List (Field V))
      (injected' : List Text) (fields' : List (Field V)) (name : Text)
      → split_parameters dependencies parameters injected fields ≡ returned (injected', fields')
      → (member name injected' ≡ (
          member name injected
          || (member name (names parameters) && member name (keys dependencies))))
        × (member name (field_names fields') ≡ (
            member name (field_names fields)
            || (member name (names parameters) && not (member name (keys dependencies)))))
  unfolding split_parameters member
  split_parameters-grows [] injected fields injected' fields' name e =
      let same_injected : injected ≡ injected' = ground arith in
      let same_fields : fields ≡ fields' = ground arith in
      rw (sym same_injected) (rw (sym same_fields) (ground arith, ground arith))
  split_parameters-grows (p ∷ parameters) injected fields injected' fields' name e =
      elim (Bool-cases (member p.name (keys dependencies))) [
        | inl inside ↦
            let (one, two) =
              split_parameters-grows parameters (injected ++ p.name ∷ []) fields injected' fields'
                name (rw (inside, split_parameters) at e) in
            (
              ground (
                arith,
                one,
                member-append name injected (p.name ∷ []),
                same_provided dependencies p.name name,
              ),
              ground (arith, two, same_provided dependencies p.name name),
            )
        | inr outside ↦ elim (Option-cases p.annotation) [
          | inl bare ↦ ground arith
          | inr (a, typed) ↦
              let field : Field V = record { name = p.name; annotation = a; default = p.default } in
              let (one, two) =
                split_parameters-grows parameters injected (fields ++ field ∷ []) injected' fields'
                  name (rw (typed, split_parameters) at (rw (outside, split_parameters) at e)) in
              (
                ground (arith, one, same_provided dependencies p.name name),
                ground (
                  arith,
                  rw (field_names-append fields field) at two,
                  member-append name (field_names fields) (p.name ∷ []),
                  same_provided dependencies p.name name,
                ),
              )
        ]
      ]

module _ {V T I : Type 0} (structs : Structs V T I) (dependencies : Dependencies) where
  -- The task as declared, each parameter injected where the application provides it and carried by
  -- the payload where it does not; what is injected can be planned, and only a coroutine has a time
  -- limit.
  pub record IsBound (task : Task V) (bound : BoundTask V T) : Type 0 where
    pub queue : bound.queue ≡ task.queue
    pub function : bound.function ≡ task.function
    pub is_async : bound.is_async ≡ task.function.is_async
    pub split : IsSplit dependencies task.function.parameters bound.injected bound.payload_fields
    pub plan : plan_dependencies dependencies bound.injected ≡ planned bound.plan
    pub limit : (bound.timeout_s ≡ none) ⊎ (bound.is_async ≡ true)

  or_refuse-planned :
      (m : Planned DependencyPlan) (ends : m ≢ out_of_fuel) (p : DependencyPlan)
      → or_refuse m ends ≡ returned p
      → m ≡ planned p
  or_refuse-planned (planned q) ends p e = ground arith
  or_refuse-planned (refused r) ends p e = cc
  or_refuse-planned out_of_fuel ends p e = absurd (ends refl)

  settle_task-IsBound :
      (task : Task V) (injected : List Text) (fields : List (Field V)) (bound : BoundTask V T)
      → IsSplit dependencies task.function.parameters injected (field_names fields)
      → (task.timeout_s ≡ none) ⊎ (task.function.is_async ≡ true)
      → settle_task structs dependencies task injected fields ≡ returned bound
      → IsBound task bound
  unfolding settle_task
  settle_task-IsBound task injected fields bound split limit e =
      let (payload_type, defined, e1) =
        bind-returned (structs.defstruct (task.name ++ text "_payload") fields) _ bound e in
      let (plan, settled, e2) =
        bind-returned
          (or_refuse (plan_dependencies dependencies injected)
            (plan_dependencies_ends dependencies injected))
          _ bound e1 in
      subst (IsBound task) (returned_injective e2) (record {
        queue = refl;
        function = refl;
        is_async = refl;
        split = split;
        plan =
            or_refuse-planned (plan_dependencies dependencies injected)
              (plan_dependencies_ends dependencies injected) plan settled;
        limit = limit;
      })

  limited :
      (timeout_s : Option V) (is_async : Bool)
      → (is_set timeout_s && not is_async) ≡ false
      → (timeout_s ≡ none) ⊎ (is_async ≡ true)
  limited none is_async e = inl refl
  limited (some t) true e = inr refl
  limited (some t) false e = cc

  pub bind_task-IsBound :
      (task : Task V) (bound : BoundTask V T)
      → bind_task structs dependencies task ≡ returned bound
      → IsBound task bound
  unfolding bind_task member
  bind_task-IsBound task bound e =
      let ((injected, fields), split, e1) =
        bind-returned (split_parameters dependencies task.function.parameters [] []) _ bound e in
      elim (Bool-cases (is_set task.timeout_s && not task.function.is_async)) [
        | inl limited_thread ↦ ground arith
        | inr allowed ↦
            settle_task-IsBound task injected fields bound
              (λ name.
                split_parameters-grows dependencies task.function.parameters [] [] injected fields
                  name split)
              (limited task.timeout_s task.function.is_async allowed) (rw (allowed) at e1)
      ]

  -- The declared names are bound, and what is found under a name is its task, bound.
  abbrev pub AreBound : List (Text × Task V) → List (Text × BoundTask V T) → Type 0
  AreBound declared bound =
      (keys bound ≡ keys declared)
      × ((name : Text) (b : BoundTask V T)
          → lookup name bound ≡ some b
          → (task : Task V) × (lookup name declared ≡ some task) × IsBound task b)

  AreBound-cons :
      (name : Text) (task : Task V) (b : BoundTask V T) (declared : List (Text × Task V))
      (bound : List (Text × BoundTask V T))
      → IsBound task b
      → AreBound declared bound
      → AreBound ((name, task) ∷ declared) ((name, b) ∷ bound)
  unfolding lookup
  AreBound-cons name task b declared bound is_bound (listed, found) = (
    ap (◌∷◌ name) listed,
    λ key c e. elim (Bool-cases (same name key)) [
      | inl here ↦
          let same_task : b ≡ c = ground arith in
          (task, ground arith, subst (IsBound task) same_task is_bound)
      | inr later ↦
          let (t, there, bound_there) = found key c (ground arith) in
          (t, ground (arith, there), bound_there)
    ],
  )

  pub bind_all-AreBound :
      (declared : List (Text × Task V)) (bound : List (Text × BoundTask V T))
      → bind_all structs dependencies declared ≡ returned bound
      → AreBound declared bound
  unfolding bind_all lookup
  bind_all-AreBound [] bound e =
      subst (AreBound []) (returned_injective e) (refl, λ name b found. cc)
  bind_all-AreBound ((name, task) ∷ declared) bound e =
      let (b, one, e1) = bind-returned (bind_task structs dependencies task) _ bound e in
      let (rest, more, e2) = bind-returned (bind_all structs dependencies declared) _ bound e1 in
      subst (AreBound ((name, task) ∷ declared)) (returned_injective e2) (
        AreBound-cons name task b declared rest (bind_task-IsBound task b one)
          (bind_all-AreBound declared rest more))

  -- If every declared task can be bound, exactly the declared names are bound, and what is found
  -- under a name is its task: each parameter is injected where the application provides it and is
  -- carried by the payload where it does not, what is injected has a plan, and a task with a time
  -- limit is a coroutine function.
  pub bind_all-IsBound :
      (declared : List (Text × Task V)) (bound : List (Text × BoundTask V T)) (name : Text)
      (b : BoundTask V T)
      → bind_all structs dependencies declared ≡ returned bound
      → lookup name bound ≡ some b
      → (keys bound ≡ keys declared)
        × ((task : Task V) × (lookup name declared ≡ some task) × IsBound task b)
  bind_all-IsBound declared bound name b e there =
      let (listed, found) = bind_all-AreBound declared bound e in (listed, found name b there)
