-- ===== src/Core/Deferred.antt =====
-- Jobs held back until a transaction has committed: src/smallage/core/deferred.py.
pub mod Flushing
use litestar_rs.Prelude.{Text, Bytes, List, [], ◌∷◌, ◌++◌}
use litestar_rs.Python.{Python}
use litestar_rs.Effect.{Outcome, Event, World, Act, perform, pure, asks, modify, ◌>>=◌, ◌>>◌}
use litestar_rs.Core.Envelope.{Envelope}

-- `_pending`, the oldest first.
abbrev pub Buffer : Type 0
Buffer = List (Envelope × Text)

-- `target.enqueue`
pub data Publish : Type 0 where
  publish : Envelope → Text → Publish

abbrev pub Published : Type 0
Published = List (Event Publish)

-- The answers of the target, and what the other coroutines do with the buffer during an await.
pub record Target : Type 0 where
  pub new_id : Published → Outcome Bytes
  pub others : Published → Buffer → Buffer

module _ (py : Python) (target : Target) where
  unfoldable pub enqueue : Envelope → Text → Act Buffer Publish Bytes
  enqueue envelope queue = do
    modify (λ pending. pending ++ (envelope, queue) ∷ [])
    pure (py.encode envelope.id)

  unfoldable pub publish_all : Buffer → Act Buffer Publish (List Bytes)
  publish_all [] = pure []
  publish_all ((envelope, queue) ∷ buffered) = do
    id ← perform (publish envelope queue) target.new_id target.others
    ids ← publish_all buffered
    pure (id ∷ ids)

  unfoldable pub flush : Act Buffer Publish (List Bytes)
  flush = do buffered ← asks (λ w. w.state); modify (λ pending. []); publish_all buffered

  unfoldable pub discard : Act Buffer Publish (Unit {0})
  discard = modify (λ pending. [])
