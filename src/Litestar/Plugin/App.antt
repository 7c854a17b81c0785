-- ===== src/Litestar/Plugin/App.antt =====
-- What the plugin does for its application: `on_app_init`, `_providers`, `enqueue`, `store`, `get` and
-- `health` of src/smallage/litestar/plugin.py.
use litestar_rs.Prelude.{ℕ, Text, Bytes, Option, some, List, [], ◌∷◌, ◌≡◌, refl, inl, inr, arith}
use litestar_rs.Prelude.Int.{ℤ}
use litestar_rs.Python.{Python}
use litestar_rs.Effect.{Outcome, Outcome-cases, returned, World, Act, pure, lift, ◌>>=◌, ◌>>◌}
use litestar_rs.Core.Envelope.{Envelope, TaskResult}
use litestar_rs.Core.Results.{Msgpack, Replies, Asked}
use litestar_rs.Core.Stats.{WorkerStats}
use litestar_rs.Core.Transport.Commands.{Method, Redis}
use litestar_rs.Litestar.Di.{Provide, Dependencies, keys}
use litestar_rs.Litestar.Health.{QueueHealth, queue_health}
use litestar_rs.Litestar.Plugin.{QueueConfig, Connections, transport_of, results_of, binding_of}
use litestar_rs.Litestar.Registry.{Task, BoundTask, Structs, bind_all}
use litestar_rs.Litestar.Registry.Binding.{IsBound, bind_all-IsBound}
use litestar_rs.Prelude.Dict.{lookup}
use litestar_rs.Litestar.Registry.Calls.{Call, Process}
use litestar_rs.Litestar.Registry.Running.{bind, handlers}

-- A dependency of an application: a Provide, or a bare callable.
pub data Dependency (V : Type 0) : Type 0 where
  provide : Provide → Dependency V
  callable : V → Dependency V

pub record AppConfig (V : Type 0) : Type 0 where
  pub dependencies : List (Text × Dependency V)
  pub type_encoders : Option V
  pub type_decoders : Option V
  pub lifespan : List V

module _ {V : Type 0} (wrap : V → Provide) where
  abbrev provider_of : Dependency V → Provide
  provider_of (provide p) = p
  provider_of (callable v) = wrap v

  -- `_providers`, where `wrap` is the call of litestar's `Provide`
  unfoldable pub providers : List (Text × Dependency V) → Dependencies
  providers [] = []
  providers ((key, value) ∷ dependencies) = (key, provider_of value) ∷ providers dependencies

module _ {F V T I : Type 0} (structs : Structs V T I) (limiter : ℤ → Outcome V) (wrap : V → Provide)
    (config : QueueConfig F V) (plugin lifespan : V) where
  -- `plugin` is `self`, and `lifespan` its method `_lifespan`.
  unfoldable pub on_app_init : AppConfig V → Act (Process V T) (Call V) (AppConfig V)
  on_app_init app_config = do
    bind structs limiter (providers wrap app_config.dependencies)
        (binding_of config plugin app_config.type_encoders app_config.type_decoders)
    pure (record app_config { lifespan = lifespan ∷ app_config.lifespan })

module _ {F : Type 0} (msgpack : Msgpack) (replies : Replies F) (self : Connections) where
  unfoldable pub store : Text → TaskResult → Option ℤ → Act (Unit {0}) (Asked F) (Unit {0})
  store job_id result ttl_ms = do
    results ← lift (results_of self)
    litestar_rs.Core.Results.store msgpack replies results job_id result ttl_ms

  unfoldable pub get : Text → Act (Unit {0}) (Asked F) (Option TaskResult)
  get job_id = do
    results ← lift (results_of self)
    litestar_rs.Core.Results.get msgpack replies results job_id

module _ (py : Python) (crc32 : Bytes → ℕ) (redis : Redis) (self : Connections) where
  unfoldable pub enqueue : Envelope → Text → Method Bytes
  enqueue envelope queue = do
    transport ← lift (transport_of self)
    litestar_rs.Core.Transport.enqueue py redis transport crc32 envelope queue

  unfoldable pub health : WorkerStats → Method QueueHealth
  health stats = do
    transport ← lift (transport_of self)
    queue_health py redis transport (some stats)

module _ {V : Type 0} (wrap : V → Provide) where
  abbrev IsProvided : Dependency V → Provide → Type 0
  IsProvided (provide p) provider = provider ≡ p
  IsProvided (callable v) provider = provider ≡ wrap v

  -- The providers are the application's, under its keys and in its order.
  abbrev pub AreProvided : List (Text × Dependency V) → Dependencies → Type 0
  AreProvided [] [] = Unit
  AreProvided ((key, value) ∷ dependencies) ((name, provider) ∷ provided) =
      (name ≡ key) × IsProvided value provider × AreProvided dependencies provided
  AreProvided _ _ = ⊥

  provider_of-IsProvided : (value : Dependency V) → IsProvided value (provider_of wrap value)
  provider_of-IsProvided (provide p) = refl
  provider_of-IsProvided (callable v) = refl

  providers-AreProvided :
      (dependencies : List (Text × Dependency V))
      → AreProvided dependencies (providers wrap dependencies)
  unfolding providers
  providers-AreProvided [] = tt
  providers-AreProvided ((key, value) ∷ dependencies) =
      (refl, provider_of-IsProvided value, providers-AreProvided dependencies)

module _ {F V T I : Type 0} (structs : Structs V T I) (limiter : ℤ → Outcome V) (wrap : V → Provide)
    (config : QueueConfig F V) (plugin lifespan : V) where
  -- What has become of the process, once the application has started.
  started_with :
      (app_config started : AppConfig V) (w : World (Process V T) (Call V))
      → (on_app_init structs limiter wrap config plugin lifespan app_config w).0 ≡ returned started
      → (bind_all structs (providers wrap app_config.dependencies) w.state.registry.declared
          ≡ returned
              (on_app_init structs limiter wrap config plugin lifespan app_config
                w).1.state.registry.bound)
        × ((on_app_init structs limiter wrap config plugin lifespan app_config
              w).1.state.registry.enqueuer
            ≡ some plugin)
        × (started.lifespan ≡ lifespan ∷ app_config.lifespan)
  unfolding on_app_init bind binding_of ◌>>=◌
  started_with app_config started w h = elim (Outcome-cases (limiter config.thread_limit)) [
    | inl (inr (exn, e)) ↦ absurd (ground arith)
    | inr e ↦ absurd (ground arith)
    | inl (inl (threads, e)) ↦
        let dependencies = providers wrap app_config.dependencies in
        elim (Outcome-cases (bind_all structs dependencies w.state.registry.declared)) [
          | inl (inr (exn, f)) ↦ absurd (ground arith)
          | inr f ↦ absurd (ground arith)
          | inl (inl (bound, f)) ↦ (ground arith, ground arith, ground arith)
        ]
  ]

  -- If an application starts, its worker dispatches on exactly the tasks that were declared, and each
  -- is bound against what the application provides: a parameter is injected where the application
  -- provides it and is carried by the payload where it does not, what is injected has a plan, and a
  -- task with a time limit is a coroutine function. What it provides is its dependencies, each under
  -- its key: a Provide as it is, a bare callable wrapped. Enqueues go to the plugin, and the queue is the
  -- first thing that the application opens.
  pub on_app_init-IsBound :
      (app_config started : AppConfig V) (w : World (Process V T) (Call V)) (name : Text)
      (b : BoundTask V T)
      → (on_app_init structs limiter wrap config plugin lifespan app_config w).0 ≡ returned started
      → lookup name
          (on_app_init structs limiter wrap config plugin lifespan app_config
            w).1.state.registry.bound
        ≡ some b
      → (handlers
            (on_app_init structs limiter wrap config plugin lifespan app_config w).1.state.registry
          ≡ keys w.state.registry.declared)
        × ((task : Task V) × (lookup name w.state.registry.declared ≡ some task)
            × (provided : Dependencies) × AreProvided wrap app_config.dependencies provided
            × IsBound structs provided task b)
        × ((on_app_init structs limiter wrap config plugin lifespan app_config
              w).1.state.registry.enqueuer
            ≡ some plugin)
        × (started.lifespan ≡ lifespan ∷ app_config.lifespan)
  unfolding handlers
  on_app_init-IsBound app_config started w name b h there =
      let (bound, enqueuer, opened) = started_with app_config started w h in
      let (listed, (task, declared, is_bound)) =
        bind_all-IsBound structs (providers wrap app_config.dependencies) w.state.registry.declared
          (on_app_init structs limiter wrap config plugin lifespan app_config
            w).1.state.registry.bound
          name b bound there in
      (
        listed,
        (
          task,
          declared,
          providers wrap app_config.dependencies,
          providers-AreProvided wrap app_config.dependencies,
          is_bound,
        ),
        enqueuer,
        opened,
      )
