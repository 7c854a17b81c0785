-- ===== src/Core/Transport/Setup.antt =====
-- `RedisStreamsTransport.__init__`: what a transport refuses to be built from.
use litestar_rs.Prelude.{
  Text, Bool, true, false, ◌&&◌, ◌||◌, Option, some, none, List, [], ◌∷◌, ◌≡◌, member, arith, All,
}
use litestar_rs.Prelude.Int.{ℤ, pos, ◌≤ℤ◌, ltb_ℤ, pos_part}
use litestar_rs.Python.{Python}
use litestar_rs.Effect.{Outcome, returned}
use litestar_rs.Core.Envelope.{◌>>=◌, ◌>>◌, bind-returned}
use litestar_rs.Core.Floats.{Floats}
use litestar_rs.Core.Keys.{validate, stream_keys}
use litestar_rs.Core.Keys.Schema.{IsValid}
use litestar_rs.Core.Retry.{refuse}
use litestar_rs.Core.Transport.{Transport, all_streams}

-- The arguments: of the two clients, what `connection_kwarg` reads off them.
pub record Options (F : Type 0) : Type 0 where
  pub is_one_client : Bool
  pub reader_decodes : Bool
  pub control_decodes : Bool
  pub socket_timeout : Option F
  pub consumer : Text
  pub namespace : Text
  pub queues : List Text
  pub shards : ℤ
  pub fairness_every : ℤ
  pub external : List Text
  pub group : Text
  pub block_ms : ℤ
  pub max_payload_bytes : ℤ

abbrev is_nil : {A : Type 0} → List A → Bool
is_nil [] = true
is_nil (x ∷ xs) = false

-- `len(set(names)) != len(names)`
unfoldable pub repeats : List Text → Bool
repeats [] = false
repeats (name ∷ names) = member name names || repeats names

-- `set(names) & set(others)`
unfoldable pub meets : List Text → List Text → Bool
meets [] others = false
meets (name ∷ names) others = member name others || meets names others

unfoldable pub validate_all : List Text → Outcome (List Text)
validate_all [] = returned []
validate_all (name ∷ names) = do
  valid ← validate name
  rest ← validate_all names
  returned (valid ∷ rest)

module _ {F : Type 0} (fl : Floats F) (py : Python) where
  open fl use {mul, le, of_int}

  unfoldable pub keys_by_queue : Text → ℤ → List Text → Outcome (List (Text × List Text))
  keys_by_queue namespace shards [] = returned []
  keys_by_queue namespace shards (queue ∷ queues) = do
    streams ← stream_keys py namespace queue shards
    rest ← keys_by_queue namespace shards queues
    returned ((queue, streams) ∷ rest)

  -- `socket_timeout * 1000 <= block_ms`
  abbrev too_short : Option F → ℤ → Bool
  too_short none block_ms = true
  too_short (some timeout) block_ms = le (mul timeout (of_int (pos 1000))) (of_int block_ms)

  -- The checks of the arguments alone.
  unfoldable pub check_options : Options F → Outcome (Unit {0})
  check_options o = do
    refuse o.is_one_client
    refuse (o.reader_decodes || o.control_decodes)
    refuse (is_nil o.consumer)
    refuse (ltb_ℤ o.max_payload_bytes (pos 1))
    refuse (ltb_ℤ o.block_ms (pos 0))
    refuse (is_nil o.queues && is_nil o.external)
    refuse (repeats o.queues)
    refuse (ltb_ℤ o.fairness_every (pos 0))
    refuse (too_short o.socket_timeout o.block_ms)

  abbrev build : Options F → Text → List Text → List (Text × List Text) → Transport
  build o namespace queues streams_by_queue = record {
    consumer = o.consumer;
    namespace = namespace;
    queues = queues;
    group = o.group;
    block_ms = o.block_ms;
    shards = o.shards;
    fairness_every = pos_part o.fairness_every;
    max_payload_bytes = o.max_payload_bytes;
    streams_by_queue = streams_by_queue;
    external_streams = o.external;
  }

  unfoldable pub init : Options F → Outcome Transport
  init o = do
    check_options o
    namespace ← validate o.namespace
    queues ← validate_all o.queues
    streams_by_queue ← keys_by_queue namespace o.shards queues
    refuse (meets o.external (all_streams streams_by_queue))
    returned (build o namespace queues streams_by_queue)

-- What a transport can rely on.
pub record IsReady (t : Transport) : Type 0 where
  pub named : IsValid t.namespace
  pub queues_named : All IsValid t.queues
  pub queues_differ : repeats t.queues ≡ false
  pub reads : (is_nil t.queues && is_nil t.external_streams) ≡ false
  pub waits : pos 0 ≤ℤ t.block_ms
  pub apart : meets t.external_streams (all_streams t.streams_by_queue) ≡ false

validate-returned :
    (name valid : Text) → validate name ≡ returned valid → (valid ≡ name) × IsValid name
unfolding validate
validate-returned name valid e = ground arith

validate_all-returned :
    (names valid : List Text)
    → validate_all names ≡ returned valid
    → (valid ≡ names) × All IsValid names
unfolding validate_all
validate_all-returned [] valid e = (ground arith, tt)
validate_all-returned (name ∷ names) valid e =
    let (one, p, e1) = bind-returned {B = List Text} (validate name) _ valid e in
    let (rest, q, e2) = bind-returned {B = List Text} (validate_all names) _ valid e1 in
    let (same_name, ok) = validate-returned name one p in
    let (same_names, oks) = validate_all-returned names rest q in
    let all : one ∷ rest ≡ valid = ground arith in (cc, (ok, oks))

module _ {F : Type 0} (fl : Floats F) (py : Python) where
  check_options-returned :
      (o : Options F)
      → check_options fl py o ≡ returned tt
      → (pos 0 ≤ℤ o.block_ms)
        × ((is_nil o.queues && is_nil o.external) ≡ false)
        × (repeats o.queues ≡ false)
  unfolding check_options
  check_options-returned o e = (ground arith, ground arith, ground arith)

  -- A transport that `__init__` built has an accepted namespace and accepted queues, none of them
  -- twice; it has something to read, waits a time that is not negative, and its streams from
  -- outside are none of its own.
  pub init-IsReady : (o : Options F) (t : Transport) → init fl py o ≡ returned t → IsReady t
  unfolding init
  init-IsReady o t e =
      let (_, passed, e0) = bind-returned {B = Transport} (check_options fl py o) _ t e in
      let (waits, reads, differ) = check_options-returned o passed in
      let (namespace, checked, e1) = bind-returned {B = Transport} (validate o.namespace) _ t e0 in
      let (queues, all_checked, e2) =
        bind-returned {B = Transport} (validate_all o.queues) _ t e1 in
      let (by_queue, keyed, e3) =
        bind-returned {B = Transport} (keys_by_queue fl py namespace o.shards queues) _ t e2 in
      let (same_name, named) = validate-returned o.namespace namespace checked in
      let (same_queues, all_named) = validate_all-returned o.queues queues all_checked in
      let apart : meets o.external (all_streams by_queue) ≡ false = ground arith in
      let built : t ≡ build fl py o namespace queues by_queue = ground arith in
      rw built (
        rw same_name (
          rw same_queues (record {
            named = named;
            queues_named = all_named;
            queues_differ = differ;
            reads = reads;
            waits = waits;
            apart = apart;
          })))
