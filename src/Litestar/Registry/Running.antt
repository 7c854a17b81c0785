-- ===== src/Litestar/Registry/Running.antt =====
-- What a registry does with its bound tasks: `bind`, `enqueue`, `execute` and `_call` of
-- src/smallage/litestar/registry.py, `no_traceparent` of src/smallage/litestar/tracing.py, and `active`
-- of src/smallage/core/deferred.py.
pub mod Roundtrip
pub mod Supplied
use litestar_rs.Litestar.Registry.Calls.{
  Invocation, on_thread, awaited, awaited_within, Call, put_payload, get_payload, get_result,
  read_traceparent, publish, depend, Calls, Env, Process, Binding,
}
use litestar_rs.Prelude.{
  Text, Bytes, Bool, true, false, Option, some, none, List, [], ◌∷◌, ◌≡◌, map, length,
  if◌then◌else◌,
}
use litestar_rs.Prelude.Int.{ℤ, pos, ltb_ℤ}
use litestar_rs.Prelude.Dict.{put, first_some}
use litestar_rs.Python.{configuration_error}
use litestar_rs.Effect.{
  Outcome, returned, raised, cancelled, Event, World, Act, pure, lift, asks, perform, modify,
  finally, scoped, ◌>>=◌, ◌>>◌,
}
use litestar_rs.Core.Envelope.{Envelope, TaskResult, or_raise}
use litestar_rs.Litestar.Di.{Dependencies, keys}
use litestar_rs.Litestar.Di.Resolving.{Use, Application, Scope, given, no_values, resolved}
use litestar_rs.Litestar.Registry.{
  Function, Task, BoundTask, Structs, TaskRegistry, TraceparentSource, no_traceparent, source,
  bound_task, bind_all,
}

-- `{**d, **e}`
unfoldable pub update : {V : Type 0} → List (Text × V) → List (Text × V) → List (Text × V)
update d [] = d
update d ((key, v) ∷ e) = update (put key v d) e

-- `_call`
unfoldable pub invocation : {V T : Type 0} → BoundTask V T → V → List (Text × V) → Invocation V
invocation task threads arguments = elim task.is_async [
  | false ↦ on_thread threads task.function arguments
  | true ↦ elim task.timeout_s [
    | none ↦ awaited task.function arguments
    | some timeout_s ↦ awaited_within timeout_s task.function arguments
  ]
]

-- The call of the block: `{**payload, **given}`, where the lookups of `given` may fail.
unfoldable pub call_with :
    {V T : Type 0}
    → BoundTask V T
    → V
    → List (Text × V)
    → Outcome (List (Text × V))
    → Outcome (Invocation V)
call_with task threads payload (returned given) =
    returned (invocation task threads (update payload given))
call_with task threads payload (raised e) = raised e
call_with task threads payload cancelled = cancelled

module _ {V T I : Type 0} (structs : Structs V T I) where
  -- `{field: getattr(arguments, field) for field in task.payload_fields}`
  unfoldable pub attributes : I → List Text → Outcome (List (Text × V))
  attributes arguments [] = returned []
  attributes arguments (field ∷ fields) =
      let rest = attributes arguments fields in
      elim (structs.attribute arguments field) [
        | returned v ↦ elim rest [
          | returned more ↦ returned ((field, v) ∷ more)
          | raised e ↦ raised e
          | cancelled ↦ cancelled
        ]
        | raised e ↦ raised e
        | cancelled ↦ cancelled
      ]

  unfoldable pub bind :
      (ℤ → Outcome V) → Dependencies → Binding V → Act (Process V T) (Call V) (Unit {0})
  bind limiter dependencies binding = do
    modify (λ s. record s {
      registry = record s.registry {
        enqueuer = some binding.enqueuer;
        traceparent = binding.traceparent;
        results = binding.results;
        payloads = binding.payloads;
      };
    })
    threads ← lift (limiter binding.thread_limit)
    modify (λ s. record s {
      registry = record s.registry {
        threads = threads;
        offload_over_bytes = binding.offload_over_bytes;
        serializer = some (structs.get_serializer binding.type_encoders);
        decoders = binding.type_decoders;
      };
    })
    settled ← asks (λ w. bind_all structs dependencies w.state.registry.declared)
    bound ← lift settled
    modify (λ s. record s { registry = record s.registry { bound = bound } })

module _ {V T : Type 0} (env : Env V) where
  -- `result`
  unfoldable pub result : Text → Act (Process V T) (Call V) (Option TaskResult)
  result job_id = do
    configured ← asks (λ w. or_raise configuration_error w.state.registry.results)
    results ← lift configured
    perform (get_result results job_id) (env.result_of results job_id) (λ t s. s)

  -- A payload that is too large for the entry, and a reference to where it was put.
  unfoldable pub put_away :
      Option V → Text → Bytes → Act (Process V T) (Call V) (Bytes × Option Text)
  put_away none job_id encoded = pure (encoded, none)
  put_away (some payloads) job_id encoded = do
    reference ←
        perform (put_payload payloads job_id encoded) (env.stored payloads job_id encoded)
          (λ t s. s)
    pure ([], some reference)

  -- What goes into the entry: the payload, or nothing and a reference to where it was put.
  unfoldable pub offload : Text → Bytes → Act (Process V T) (Call V) (Bytes × Option Text)
  offload job_id encoded = do
    registry ← asks (λ w. w.state.registry)
    if ltb_ℤ registry.offload_over_bytes (pos (length encoded))
        then put_away registry.payloads job_id encoded
        else pure (encoded, none)

  unfoldable pub read_source : TraceparentSource V → Act (Process V T) (Call V) (Option Text)
  read_source no_traceparent = pure none
  read_source (source f) = perform (read_traceparent f) (env.traceparent_of f) (λ t s. s)

  -- The end of `enqueue`, from the construction of the envelope.
  unfoldable pub announce :
      V
      → Text
      → Text
      → Text
      → Bytes × Option Text
      → Option ℤ
      → Option Text
      → Act (Process V T) (Call V) Text
  announce enqueuer queue name job_id (body, reference) result_ttl_ms dedup = do
    enqueued_at ← asks (λ w. env.now_ms w.trace)
    traceparent_source ← asks (λ w. w.state.registry.traceparent)
    traceparent ← read_source traceparent_source
    let envelope : Envelope = record {
      id = job_id;
      task = name;
      payload = body;
      enqueued_at = enqueued_at;
      attempt = pos 0;
      payload_ref = reference;
      traceparent = traceparent;
      tracestate = none;
      dedup = dedup;
      result_ttl_ms = result_ttl_ms;
      history = [];
    }
    perform (publish enqueuer envelope queue) (env.published enqueuer envelope queue) (λ t s. s)
    pure job_id

  -- The payload of an entry, read back from where it was put.
  unfoldable pub fetch : Envelope → Act (Process V T) (Call V) Bytes
  fetch envelope = elim envelope.payload_ref [
    | none ↦ pure envelope.payload
    | some reference ↦
        asks (λ w. or_raise configuration_error w.state.registry.payloads) >>= λ configured.
        lift configured >>= λ payloads.
        perform (get_payload payloads reference) (env.fetched payloads reference) (λ t s. s)
  ]

  -- `async with resolved(task.plan) as resolved_values`, and the call of the function.
  unfoldable pub inject : BoundTask V T → List (Text × V) → Act (Process V T) (Call V) V
  inject task payload = do
    threads ← asks (λ w. w.state.registry.threads)
    scoped depend no_values (λ t.
        resolved (env.application t) task.plan
          (λ values. call_with task threads payload (given task.injected values)))

module _ {V T I : Type 0} (structs : Structs V T I) (env : Env V) where
  unfoldable pub enqueue :
      Text → List (Text × V) → Option ℤ → Option Text → Act (Process V T) (Call V) Text
  enqueue name payload result_ttl_ms dedup = do
    found ← asks (λ w. bound_task name w.state.registry)
    task ← lift found
    chosen ← asks (λ w.
        or_raise configuration_error
          (first_some w.state.current_enqueuer w.state.registry.enqueuer))
    enqueuer ← lift chosen
    arguments ← lift (or_raise configuration_error (structs.construct task.payload_type payload))
    job_id ← asks (λ w. env.uuid w.trace)
    serializer ← asks (λ w. w.state.registry.serializer)
    encoded ← lift (structs.encode_json arguments serializer)
    (body, reference) ← offload env job_id encoded
    announce env enqueuer task.queue name job_id (body, reference) result_ttl_ms dedup

  -- `Task.enqueue`, through the task's registry
  unfoldable pub enqueue_task :
      Task V → List (Text × V) → Option ℤ → Option Text → Act (Process V T) (Call V) Text
  enqueue_task task payload result_ttl_ms dedup = enqueue task.name payload result_ttl_ms dedup

  -- The first half of `execute`: the arguments that the payload carries.
  unfoldable pub open_payload :
      BoundTask V T → Envelope → Act (Process V T) (Call V) (List (Text × V))
  open_payload task envelope = do
    raw ← fetch env envelope
    decoders ← asks (λ w. w.state.registry.decoders)
    arguments ← lift (structs.decode_json raw task.payload_type decoders)
    lift (attributes structs arguments task.payload_fields)

  -- `execute`, once its task is found.
  unfoldable pub run_bound : BoundTask V T → Envelope → Act (Process V T) (Call V) V
  run_bound task envelope = do
    payload ← open_payload task envelope
    before ← asks (λ w. w.state.current_traceparent)
    modify (λ s. record s { current_traceparent = envelope.traceparent })
    finally (inject env task payload) (λ s. record s { current_traceparent = before })

  unfoldable pub execute : Envelope → Act (Process V T) (Call V) V
  execute envelope = do
    found ← asks (λ w. bound_task envelope.task w.state.registry)
    task ← lift found
    run_bound task envelope

-- `handlers`: the tasks that a worker dispatches on, each to `execute`
unfoldable pub handlers : {V T : Type 0} → TaskRegistry V T → List Text
handlers self = keys self.bound

module _ {V T A : Type 0} where
  -- `DeferredEnqueuer.active`: a block whose enqueues go to `self`.
  unfoldable pub active : V → Act (Process V T) (Call V) A → Act (Process V T) (Call V) A
  active self block = do
    before ← asks (λ w. w.state.current_enqueuer)
    modify (λ s. record s { current_enqueuer = some self })
    finally block (λ s. record s { current_enqueuer = before })
