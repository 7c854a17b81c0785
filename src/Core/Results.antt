-- ===== src/Core/Results.antt =====
-- The results of jobs in Redis: src/smallage/core/results.py.
pub mod Stored
use litestar_rs.Prelude.{
  Text, Bytes, Bool, true, false, Option, some, none, List, [], ◌∷◌, ◌≡◌, zero, if◌then◌else◌,
}
use litestar_rs.Prelude.Int.{ℤ, pos, ltb_ℤ}
use litestar_rs.Python.{value_error, configuration_error}
use litestar_rs.Effect.{
  Outcome, Event, Act, returned, raised, cancelled, perform, pure, lift, ◌>>=◌, ◌>>◌,
}
use litestar_rs.Core.Envelope.{TaskResult, or_raise}
use litestar_rs.Core.Keys.{result_key, result_wait_key, validate}

-- `msgspec.msgpack` at the type of results; `none` is a decode error, which is a ValueError.
pub record Msgpack : Type 0 where
  pub encode : TaskResult → Bytes
  pub decode : Bytes → Option TaskResult
  pub decode-encode : (r : TaskResult) → decode (encode r) ≡ some r

pub record RedisResultStore : Type 0 where
  pub namespace : Text
  pub default_ttl_ms : ℤ

-- `write` is the pipeline of SET, LPUSH and PEXPIRE, which Redis runs as one transaction: key,
-- value, key of the waiters, time to live.
pub data Asked (F : Type 0) : Type 0 where
  write : Text → Bytes → Text → ℤ → Asked F
  get_value : Text → Asked F
  blpop : Text → F → Asked F
  rpush : Text → Asked F

abbrev pub Asks : Type 0 → Type 0
Asks F = List (Event (Asked F))

pub record Replies (F : Type 0) : Type 0 where
  pub done : Asks F → Outcome (Unit {0})
  pub value_of : Text → Asks F → Outcome (Option Bytes)
  -- whether a token came before the time was up
  pub woken : Asks F → Outcome Bool

-- `__init__`, with what `connection_kwarg` reads off the client
unfoldable pub init : Bool → Text → ℤ → Outcome RedisResultStore
init decodes namespace default_ttl_ms =
    if decodes
    then raised configuration_error
    else if ltb_ℤ default_ttl_ms (pos 1)
    then raised configuration_error
    else elim (validate namespace) [
      | returned name ↦ returned (record { namespace = name; default_ttl_ms = default_ttl_ms })
      | raised e ↦ raised e
      | cancelled ↦ cancelled
    ]

-- `ttl_ms or self.default_ttl_ms`
abbrev ttl_or : Option ℤ → ℤ → ℤ
ttl_or none default = default
ttl_or (some (pos zero)) default = default
ttl_or (some ttl) default = ttl

module _ {F : Type 0} (msgpack : Msgpack) (replies : Replies F) (self : RedisResultStore) where
  unfoldable pub store : Text → TaskResult → Option ℤ → Act (Unit {0}) (Asked F) (Unit {0})
  store job_id result ttl_ms =
      perform
        (write (result_key self.namespace job_id) (msgpack.encode result)
          (result_wait_key self.namespace job_id) (ttl_or ttl_ms self.default_ttl_ms))
        replies.done (λ t s. s)

  unfoldable pub get : Text → Act (Unit {0}) (Asked F) (Option TaskResult)
  get job_id =
      perform (get_value (result_key self.namespace job_id))
        (replies.value_of (result_key self.namespace job_id)) (λ t s. s)
      >>= λ raw. elim raw [
        | none ↦ pure none
        | some value ↦
            lift (or_raise value_error (msgpack.decode value)) >>= λ result. pure (some result)
      ]

  unfoldable pub wait : Text → F → Act (Unit {0}) (Asked F) (Option TaskResult)
  unfolding get
  wait job_id timeout_s = get job_id >>= λ stored. elim stored [
    | some result ↦ pure (some result)
    | none ↦
        perform (blpop (result_wait_key self.namespace job_id) timeout_s) replies.woken (λ t s. s)
        >>= λ woken. elim woken [
          | false ↦ pure none
          | true ↦
              perform (rpush (result_wait_key self.namespace job_id)) replies.done (λ t s. s)
              >> get job_id
        ]
  ]
