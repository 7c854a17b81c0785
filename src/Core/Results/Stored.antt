-- ===== src/Core/Results/Stored.antt =====
-- A result that was stored is the one that is read.
use litestar_rs.Prelude.{
  Text, Bytes, Option, some, none, [], ◌∷◌, ◌≡◌, arith, same, same_refl, if◌then◌else◌,
}
use litestar_rs.Prelude.Int.{ℤ}
use litestar_rs.Effect.{returned, Status, status, succeeded, World, ◌>>=◌}
use litestar_rs.Core.Envelope.{TaskResult}
use litestar_rs.Core.Keys.{result_key}
use litestar_rs.Core.Results.{
  Msgpack, RedisResultStore, Asked, write, Asks, Replies, store, get, wait,
}

module _ {F : Type 0} where
  abbrev value_in : Text → Asked F → Status → Option Bytes → Option Bytes
  value_in key (write other value wait_key ttl) succeeded before =
      if same other key then some value else before
  value_in key call status before = before

  -- What the last transaction that ran has written at a key.
  abbrev pub last_written : Text → Asks F → Option Bytes
  last_written key [] = none
  last_written key (event ∷ before) = value_in key event.call event.status (last_written key before)

module _ {F : Type 0} (msgpack : Msgpack) (replies : Replies F) (self : RedisResultStore) where
  -- If Redis still has what was last written at each key: after a result was stored, `get` reads it,
  -- and `wait` returns it with no call but that read, so that no waiter blocks.
  pub get-store :
      (job_id : Text) (result : TaskResult) (ttl_ms : Option ℤ) (timeout_s : F)
      (w : World (Unit {0}) (Asked F))
      → ((key : Text) (t : Asks F) → replies.value_of key t ≡ returned (last_written key t))
      → (store msgpack replies self job_id result ttl_ms w).0 ≡ returned tt
      → ((get msgpack replies self job_id (store msgpack replies self job_id result ttl_ms w).1).0
          ≡ returned (some result))
        × (wait msgpack replies self job_id timeout_s
              (store msgpack replies self job_id result ttl_ms w).1
            ≡ get msgpack replies self job_id (store msgpack replies self job_id result ttl_ms w).1)
  unfolding store get wait ◌>>=◌
  get-store job_id result ttl_ms timeout_s w kept stored =
      let read =
        kept (result_key self.namespace job_id)
          (store msgpack replies self job_id result ttl_ms w).1.trace in
      ground
        (arith, same_refl (result_key self.namespace job_id), msgpack.decode-encode result, read)
