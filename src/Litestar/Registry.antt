-- ===== src/Litestar/Registry.antt =====
-- Tasks that an application declares, and their settling against its dependencies:
-- src/smallage/litestar/registry.py. Python's objects that are handed on and never looked into, such
-- as annotations, defaults, stores and time limits, are of the type `V`.
pub mod Binding
pub mod Calls
pub mod Running
use litestar_rs.Prelude.{
  Text, Bytes, text, Bool, Bool-cases, true, false, not, ◌&&◌, Option, some, none, List, [], ◌∷◌,
  ◌++◌, ◌≡◌, ◌≢◌, refl, map, member, if◌then◌else◌,
}
use litestar_rs.Prelude.Int.{ℤ, pos}
use litestar_rs.Prelude.Dict.{lookup, put}
use litestar_rs.Python.{configuration_error}
use litestar_rs.Effect.{Outcome, returned, raised, cancelled}
use litestar_rs.Core.Envelope.{or_raise, ◌>>=◌}
use litestar_rs.Litestar.Di.{
  Dependencies, DependencyPlan, Planned, planned, refused, out_of_fuel, keys, plan_dependencies,
}
use litestar_rs.Litestar.Di.Fuel.{plan_dependencies_ends}

-- A parameter of a signature; `none` is `inspect.Parameter.empty`.
pub record TaskParameter (V : Type 0) : Type 0 where
  pub name : Text
  pub annotation : Option V
  pub default : Option V

-- A function, with what `inspect` says of it.
pub record Function (V : Type 0) : Type 0 where
  pub object : V
  pub name : Text
  pub parameters : List (TaskParameter V)
  pub is_async : Bool

pub record Task (V : Type 0) : Type 0 where
  pub name : Text
  pub queue : Text
  pub function : Function V
  pub timeout_s : Option V

-- An entry of `fields`; a field without a default is required.
pub record Field (V : Type 0) : Type 0 where
  pub name : Text
  pub annotation : V
  pub default : Option V

-- `T` is the type of the struct types that msgspec makes.
pub record BoundTask (V T : Type 0) : Type 0 where
  pub name : Text
  pub queue : Text
  pub function : Function V
  pub payload_type : T
  pub payload_fields : List Text
  pub injected : List Text
  pub plan : DependencyPlan
  pub is_async : Bool
  pub timeout_s : Option V

-- msgspec and litestar.serialization, with `I` the type of structs.
pub record Structs (V T I : Type 0) : Type 0 where
  pub defstruct : Text → List (Field V) → Outcome T
  -- a call of the struct type; `none` is TypeError
  pub construct : T → List (Text × V) → Option I
  pub attribute : I → Text → Outcome V
  pub encode_json : I → Option V → Outcome Bytes
  pub decode_json : Bytes → T → Option V → Outcome I
  pub get_serializer : Option V → V

pub data TraceparentSource (V : Type 0) : Type 0 where
  no_traceparent : TraceparentSource V
  source : V → TraceparentSource V

pub record TaskRegistry (V T : Type 0) : Type 0 where
  pub declared : List (Text × Task V)
  pub bound : List (Text × BoundTask V T)
  pub enqueuer : Option V
  pub traceparent : TraceparentSource V
  pub results : Option V
  pub payloads : Option V
  pub threads : V
  pub offload_over_bytes : ℤ
  pub serializer : Option V
  pub decoders : Option V

-- `__init__`, where `limiter` is `anyio.CapacityLimiter`
unfoldable pub init : {V T : Type 0} → (ℤ → Outcome V) → Outcome (TaskRegistry V T)
init limiter = do
  threads ← limiter (pos 20)
  returned (record {
    declared = [];
    bound = [];
    enqueuer = none;
    traceparent = no_traceparent;
    results = none;
    payloads = none;
    threads = threads;
    offload_over_bytes = pos 131072;
    serializer = none;
    decoders = none;
  })

-- `name or fn.__name__`
abbrev name_or : Option Text → Text → Text
name_or none name = name
name_or (some []) name = name
name_or (some (c ∷ rest)) name = c ∷ rest

module _ {V T : Type 0} where
  -- `register` of the decorator
  unfoldable pub register :
      Option Text
      → Text
      → Option V
      → Function V
      → TaskRegistry V T
      → Outcome (Task V × TaskRegistry V T)
  register name queue timeout_s function self =
      let task_name = name_or name function.name in
      let declared : Task V = record {
        name = task_name;
        queue = queue;
        function = function;
        timeout_s = timeout_s;
      } in
      if member task_name (keys self.declared)
      then raised configuration_error
      else returned (declared, record self { declared = put task_name declared self.declared })

  -- `names`
  unfoldable pub names : TaskRegistry V T → List Text
  names self = keys self.declared

  unfoldable pub bound_task : Text → TaskRegistry V T → Outcome (BoundTask V T)
  bound_task name self = or_raise configuration_error (lookup name self.bound)

-- The plan, or its refusal; planning ends.
abbrev pub or_refuse : {A : Type 0} (m : Planned A) → m ≢ out_of_fuel → Outcome A
or_refuse (planned a) ends = returned a
or_refuse (refused r) ends = raised configuration_error
or_refuse out_of_fuel ends = absurd (ends refl)

module _ {V : Type 0} (dependencies : Dependencies) where
  -- The loop over the parameters of a task: what is injected, and what the payload carries.
  unfoldable pub split_parameters :
      List (TaskParameter V) → List Text → List (Field V) → Outcome (List Text × List (Field V))
  split_parameters [] injected fields = returned (injected, fields)
  split_parameters (parameter ∷ parameters) injected fields =
      elim (member parameter.name (keys dependencies)) [
        | true ↦ split_parameters parameters (injected ++ parameter.name ∷ []) fields
        | false ↦ elim parameter.annotation [
          | none ↦ raised configuration_error
          | some annotation ↦
              let field : Field V = record {
                name = parameter.name;
                annotation = annotation;
                default = parameter.default;
              } in
              split_parameters parameters injected (fields ++ field ∷ [])
        ]
      ]

abbrev is_set : {V : Type 0} → Option V → Bool
is_set none = false
is_set (some v) = true

module _ {V T I : Type 0} (structs : Structs V T I) (dependencies : Dependencies) where
  -- The call of BoundTask, once the parameters are split.
  unfoldable pub settle_task : Task V → List Text → List (Field V) → Outcome (BoundTask V T)
  settle_task task injected fields = do
    payload_type ← structs.defstruct (task.name ++ text "_payload") fields
    plan ←
        or_refuse (plan_dependencies dependencies injected)
          (plan_dependencies_ends dependencies injected)
    returned (record {
      name = task.name;
      queue = task.queue;
      function = task.function;
      payload_type = payload_type;
      payload_fields = map (λ field. field.name) fields;
      injected = injected;
      plan = plan;
      is_async = task.function.is_async;
      timeout_s = task.timeout_s;
    })

  -- `_bind`
  unfoldable pub bind_task : Task V → Outcome (BoundTask V T)
  bind_task task = do
    (injected, fields) ← split_parameters dependencies task.function.parameters [] []
    if is_set task.timeout_s && not task.function.is_async
        then raised configuration_error
        else settle_task task injected fields

  -- `{name: _bind(task, dependencies) for name, task in self._declared.items()}`
  unfoldable pub bind_all : List (Text × Task V) → Outcome (List (Text × BoundTask V T))
  bind_all [] = returned []
  bind_all ((name, task) ∷ declared) = do
    bound ← bind_task task
    rest ← bind_all declared
    returned ((name, bound) ∷ rest)
