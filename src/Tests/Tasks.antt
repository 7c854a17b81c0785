-- ===== src/Tests/Tasks.antt =====
-- A task with one argument of its own and one dependency, bound, enqueued and run.
use litestar_rs.Prelude.{Text, text, true, some, none, refl, List, [], ◌∷◌, ◌≡◌, same, member}
use litestar_rs.Prelude.Int.{pos}
use litestar_rs.Prelude.Dict.{lookup, put}
use litestar_rs.Python.{key_error}
use litestar_rs.Effect.{returned, succeeded, Act, World, ◌>>=◌}
use litestar_rs.Core.Envelope.{Envelope, or_raise}
use litestar_rs.Litestar.Di.{
  Dependencies, Provide, plain_value, keys, plan_dependencies, visit_all, visit, visit_new,
  visit_parameters, providers_of,
}
use litestar_rs.Litestar.Di.Resolving.{Application}
use litestar_rs.Litestar.Registry.{
  BoundTask, Structs, Task, TaskRegistry, no_traceparent, bind_all, bind_task, settle_task,
  split_parameters, bound_task,
}
use litestar_rs.Litestar.Registry.Binding.{IsBound}
use litestar_rs.Litestar.Registry.Calls.{Call, Calls, Env, Invocation, Process, publish}
use litestar_rs.Litestar.Registry.Running.{
  bind, handlers, enqueue, offload, put_away, announce, read_source, execute, open_payload,
}
use litestar_rs.Litestar.Registry.Running.Supplied.{AllSupplied, execute-AllSupplied}
use litestar_rs.Litestar.Registry.Running.Roundtrip.{open_payload-enqueue}
use litestar_rs.Litestar.Plugin.{binding_of}
use litestar_rs.Litestar.Plugin.App.{
  Dependency, provide, AppConfig, providers, on_app_init, AreProvided, on_app_init-IsBound,
}
use litestar_rs.Tests.Plugins.{queue_config}
use litestar_rs.Tests.Plans.{dependencies, plan}

abbrev charge : Task Text
charge = record {
  name = text "charge";
  queue = text "default";
  function = record {
    object = text "charge";
    name = text "charge";
    parameters =
        record { name = text "amount"; annotation = some (text "int"); default = none }
        ∷ record { name = text "session"; annotation = none; default = none }
        ∷ [];
    is_async = true;
  };
  timeout_s = some (text "30");
}

abbrev bound_charge : BoundTask Text Text
bound_charge = record {
  name = text "charge";
  queue = text "default";
  function = charge.function;
  payload_type = text "charge_payload";
  payload_fields = text "amount" ∷ [];
  injected = text "session" ∷ [];
  plan = plan;
  is_async = true;
  timeout_s = some (text "30");
}

abbrev arguments : List (Text × Text)
arguments = (text "amount", text "5") ∷ []

-- One struct, which JSON gives back.
abbrev structs : Structs Text Text (List (Text × Text))
structs = record {
  defstruct = λ name fields. returned name;
  construct = λ t payload. some payload;
  attribute = λ i field. or_raise key_error (lookup field i);
  encode_json = λ i serializer. returned (text "[5]");
  decode_json = λ raw t decoders. returned arguments;
  get_serializer = λ encoders. text "serializer";
}

abbrev app : Application (Invocation Text) Text
app = record {
  provided = λ t. returned (text "value");
  entered = λ t. returned (text "entered");
  left = λ t. returned tt;
  ran = λ t. returned (text "done");
}

-- A payload is kept under itself.
abbrev env : Env Text
env = record {
  stored = λ store job_id payload t. returned payload;
  fetched = λ store reference t. returned reference;
  result_of = λ store job_id t. returned none;
  traceparent_of = λ f t. returned none;
  published = λ enqueuer envelope queue t. returned (text "7-0");
  application = λ t. app;
  uuid = λ t. text "j1";
  now_ms = λ t. pos 5;
}

abbrev registry : TaskRegistry Text Text
registry = record {
  declared = (text "charge", charge) ∷ [];
  bound = (text "charge", bound_charge) ∷ [];
  enqueuer = some (text "redis");
  traceparent = no_traceparent;
  results = none;
  payloads = some (text "files");
  threads = text "threads";
  offload_over_bytes = pos 2;
  serializer = some (text "serializer");
  decoders = none;
}

abbrev start : World (Process Text Text) (Call Text)
start = record {
  state = record { registry = registry; current_enqueuer = none; current_traceparent = none };
  trace = [];
}

bound_all : bind_all structs dependencies registry.declared ≡ returned registry.bound
unfolding bind_all bind_task settle_task split_parameters plan_dependencies visit_all visit
    visit_new visit_parameters providers_of member lookup put same
bound_all = refl

looked_up : lookup (text "charge") registry.bound ≡ some bound_charge
unfolding lookup same
looked_up = refl

abbrev given_of : Dependencies → List (Text × Dependency Text)
given_of [] = []
given_of ((key, provider) ∷ rest) = (key, provide provider) ∷ given_of rest

-- An application with that task, which opens a database besides the queue.
abbrev app_config : AppConfig Text
app_config = record {
  dependencies = given_of dependencies;
  type_encoders = none;
  type_decoders = none;
  lifespan = text "database" ∷ [];
}

abbrev wrap : Text → Provide
wrap callable = record { parameters = []; yields = plain_value }

abbrev initial : World (Process Text Text) (Call Text)
initial = record start {
  state = record start.state { registry = record registry { bound = []; enqueuer = none } };
}

abbrev begin : Act (Process Text Text) (Call Text) (AppConfig Text)
begin =
    on_app_init structs (λ n. returned (text "threads")) wrap queue_config (text "plugin")
      (text "queue") app_config

starts :
    (begin initial).0
    ≡ returned (record app_config { lifespan = text "queue" ∷ text "database" ∷ [] })
unfolding on_app_init bind binding_of providers ◌>>=◌ bind_all bind_task settle_task
    split_parameters plan_dependencies visit_all visit visit_new visit_parameters providers_of
    member lookup put same
starts = refl

charge_bound : lookup (text "charge") (begin initial).1.state.registry.bound ≡ some bound_charge
unfolding on_app_init bind binding_of providers ◌>>=◌ bind_all bind_task settle_task
    split_parameters plan_dependencies visit_all visit visit_new visit_parameters providers_of
    member lookup put same
charge_bound = refl

on_app_init-IsBound_example :
    (handlers (begin initial).1.state.registry ≡ keys registry.declared)
    × ((task : Task Text) × (lookup (text "charge") registry.declared ≡ some task)
        × (provided : Dependencies) × AreProvided wrap app_config.dependencies provided
        × IsBound structs provided task bound_charge)
    × ((begin initial).1.state.registry.enqueuer ≡ some (text "plugin"))
    × (◌≡◌ {A = List Text}
        (text "queue" ∷ text "database" ∷ [])
        (text "queue" ∷ app_config.lifespan))
on_app_init-IsBound_example =
    on_app_init-IsBound structs (λ n. returned (text "threads")) wrap queue_config (text "plugin")
      (text "queue") app_config
      (record app_config { lifespan = text "queue" ∷ text "database" ∷ [] }) initial (text "charge")
      bound_charge starts charge_bound

abbrev entry : Envelope
entry = record {
  id = text "j1";
  task = text "charge";
  payload = [];
  enqueued_at = pos 5;
  attempt = pos 0;
  payload_ref = some (text "[5]");
  traceparent = none;
  tracestate = none;
  dedup = none;
  result_ttl_ms = none;
  history = [];
}

execute-AllSupplied_example : AllSupplied (execute structs env entry start).1.trace
execute-AllSupplied_example =
    execute-AllSupplied structs env dependencies registry.declared entry start bound_all tt

abbrev enqueued : World (Process Text Text) (Call Text)
enqueued = (enqueue structs env (text "charge") arguments none none start).1

enqueued_one :
    enqueue structs env (text "charge") arguments none none start ≡ (returned (text "j1"), enqueued)
unfolding enqueue bound_task offload put_away announce read_source ◌>>=◌ lookup same
enqueued_one = refl

found_charge : bound_task (text "charge") registry ≡ returned bound_charge
unfolding bound_task lookup same
found_charge = refl

amount_is : structs.attribute arguments (text "amount") ≡ returned (text "5")
unfolding lookup same
amount_is = refl

open_payload-enqueue_example :
    (enqueuer : Text) × (envelope : Envelope) × (before : Calls Text) × (enqueued.trace
      ≡ record { call = publish enqueuer envelope (text "default"); status = succeeded } ∷ before)
    × (envelope.id ≡ text "j1")
    × (envelope.task ≡ text "charge")
    × (envelope.dedup ≡ none)
    × ((open_payload structs env bound_charge envelope start).0
        ≡ returned ((text "amount", text "5") ∷ []))
open_payload-enqueue_example =
    open_payload-enqueue structs env env bound_charge arguments (λ field. text "5") (text "charge")
      none none (text "j1") start enqueued start found_charge
      (λ store job_id reference payload t t' e. cc)
      (record { survives = λ i encoded e e'. (arguments, refl, (amount_is, tt)) }) refl refl
      enqueued_one
