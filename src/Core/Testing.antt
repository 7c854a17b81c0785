-- ===== src/Core/Testing.antt =====
-- The enqueuers for tests of applications: src/smallage/core/testing.py.
use litestar_rs.Prelude.{
  ℕ, suc, ◌+◌, Text, Bytes, text, Bool, List, [], ◌∷◌, ◌++◌, ◌==◌, ◌≡◌, map, same, arith, length,
  if◌then◌else◌,
}
use litestar_rs.Prelude.Int.{pos}
use litestar_rs.Python.{Python, Exn, other}
use litestar_rs.Effect.{
  Outcome, Event, Act, returned, raised, perform, throw, asks, modify, ◌>>=◌, ◌>>◌,
}
use litestar_rs.Core.Envelope.{Envelope}

-- `self.enqueued`, which is all that an enqueuer keeps.
abbrev pub Enqueued : Type 0
Enqueued = List (Envelope × Text)

-- The call of a handler, which is all that is awaited.
pub data Handle : Type 0 where
  handle : Envelope → Handle

abbrev pub Enqueuer : Type 0 → Type 0
Enqueuer A = Act Enqueued Handle A

-- AssertionError and `UnknownTask`
abbrev assertion_error : Exn
assertion_error = other 1

abbrev unknown_task : Exn
unknown_task = other 2

-- `self.tasks().count(task)`
unfoldable pub count : Text → List Text → ℕ
count task [] = 0
count task (name ∷ names) = if same name task then suc (count task names) else count task names

module _ (py : Python) where
  -- `f"{prefix}{n}".encode()`
  abbrev pub numbered : Text → ℕ → Bytes
  numbered prefix n = py.encode (prefix ++ py.str_int (pos n))

  -- `CollectingEnqueuer.enqueue`
  unfoldable pub collect : Envelope → Text → Enqueuer Bytes
  collect envelope queue = do
    modify (λ enqueued. enqueued ++ (envelope, queue) ∷ [])
    asks (λ w. numbered (text "collected-") (length w.state))

  -- `EagerEnqueuer.enqueue`: `known` is whether the registry has the task.
  unfoldable pub run_eagerly :
      (Text → Bool) → (List (Event Handle) → Outcome (Unit {0})) → Envelope → Text → Enqueuer Bytes
  run_eagerly known done envelope queue =
      if known envelope.task
      then (do
        modify (λ enqueued. enqueued ++ (envelope, queue) ∷ [])
        perform (handle envelope) done (λ t s. s)
        asks (λ w. numbered (text "eager-") (length w.state)))
      else throw unknown_task

unfoldable pub tasks : Enqueued → List Text
tasks enqueued = map (λ (envelope, queue). envelope.task) enqueued

unfoldable pub assert_enqueued : Text → ℕ → Enqueued → Outcome (Unit {0})
unfolding count tasks
assert_enqueued task times enqueued =
    if count task (tasks enqueued) == times then returned tt else raised assertion_error

unfoldable pub assert_not_enqueued : Text → Enqueued → Outcome (Unit {0})
assert_not_enqueued task enqueued = assert_enqueued task 0 enqueued

count-tasks_append :
    (task : Text) (envelope : Envelope) (queue : Text) (enqueued : Enqueued)
    → count task (tasks (enqueued ++ (envelope, queue) ∷ []))
      ≡ count task (tasks enqueued) + (if same envelope.task task then 1 else 0)
unfolding count tasks
count-tasks_append task envelope queue [] = ground arith
count-tasks_append task envelope queue (job ∷ enqueued) =
    ground (arith, count-tasks_append task envelope queue enqueued)

module _ (py : Python) where
  -- One more of a task passes the assertion that asked for one less, and leaves what is asserted of
  -- the other tasks alone.
  pub assert_enqueued-collect :
      (task : Text) (times : ℕ) (envelope : Envelope) (queue : Text) (enqueued : Enqueued)
      → assert_enqueued task
          (if same envelope.task task then times + 1 else times)
          (collect py envelope queue (record { state = enqueued; trace = [] })).1.state
        ≡ assert_enqueued task times enqueued
  unfolding collect assert_enqueued ◌>>=◌
  assert_enqueued-collect task times envelope queue enqueued =
      ground (arith, count-tasks_append task envelope queue enqueued)
