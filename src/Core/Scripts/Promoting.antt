-- ===== src/Core/Scripts/Promoting.antt =====
-- promote.lua of src/smallage/core/scripts, over the commands of Redis that it uses.
pub mod Rounds
pub mod Once
pub mod Scheduled
use litestar_rs.Prelude.{
  ℕ, Text, text, Bytes, Bool, Bool-cases, true, false, Option, Option-cases, some, none, List, [],
  ◌∷◌, ◌++◌, ◌≡◌, ◌≢◌, ◌⊎◌, inl, inr, refl, sym, ap, ◌∙◌, arith, All, same, same_refl, same→eq,
  same_iff, member, member-append, if◌then◌else◌,
}
use mathlib.Core.List.{append-nil, append_assoc}
use litestar_rs.Prelude.Int.{ℤ, pos, ◌+ℤ◌, ◌*ℤ◌}
use litestar_rs.Core.Envelope.{Fields}
use litestar_rs.Prelude.Dict.{lookup}
use litestar_rs.Core.Scheduler.{promoted}
use litestar_rs.Core.Scheduler.Promotion.{others}
use litestar_rs.Core.Scripts.{is_empty}
use litestar_rs.Core.Worker.Handler.{floor_div}

pub record Sorted (R : Type 0) : Type 0 where
  pub clock : R → ℤ × ℤ
  -- key, highest score, count: ZRANGEBYSCORE from '-inf'
  pub zrangebyscore : Text → ℤ → ℤ → R → List Text
  pub hgetall : Text → R → Fields
  pub add_entry : Bytes → Fields → R → Bytes × R
  pub del_key : Text → R → R
  pub zrem : Text → Text → R → R
  pub wait : ℕ → R → R
  pub score : Text → Text → R → Option ℤ
  pub added : R → List (Bytes × Fields)

module _ {R : Type 0} (redis : Sorted R) where
  -- `now_ms`
  abbrev pub instant : R → ℤ
  instant r =
      let (seconds, microseconds) = redis.clock r in
      seconds *ℤ pos 1000 +ℤ floor_div microseconds 1000

  -- `if stream ~= nil and #fields > 0`
  abbrev pub add_moved : Option Bytes × Fields → List Bytes → R → List Bytes × R
  add_moved (none, fields) moved r = (moved, r)
  add_moved (some stream, []) moved r = (moved, r)
  add_moved (some stream, field ∷ fields) moved r =
      let (entry, r') = redis.add_entry stream (field ∷ fields) r in (moved ++ entry ∷ [], r')

  -- `if #flat > 0`
  unfoldable pub move_job : Text → Fields → List Bytes → R → List Bytes × R
  move_job job_key [] moved r = (moved, r)
  move_job job_key (pair ∷ flat) moved r =
      let (moved', r') = add_moved (promoted (pair ∷ flat)) moved r in
      (moved', redis.del_key job_key r')

  unfoldable pub promote_each : Text → Text → List Text → List Bytes → R → List Bytes × R
  promote_each key prefix [] moved r = (moved, r)
  promote_each key prefix (id ∷ due) moved r =
      let (moved', r') = move_job (prefix ++ id) (redis.hgetall (prefix ++ id) r) moved r in
      promote_each key prefix due moved' (redis.zrem key id r')

  -- `due`
  abbrev pub due_of : Text → ℤ → R → List Text
  due_of key limit r = redis.zrangebyscore key (instant r) limit r

  unfoldable pub promote : Text → ℤ → Text → R → List Bytes × R
  promote key limit prefix r = promote_each key prefix (due_of key limit r) [] r

  -- The ids that passes of any leaders take up, with milliseconds that go by after each.
  unfoldable pub taken_up : Text → Text → List (ℤ × ℕ) → R → List Text
  taken_up key prefix [] r = []
  taken_up key prefix ((limit, ms) ∷ passes) r =
      due_of key limit r
      ++ taken_up key prefix passes (redis.wait ms (promote key limit prefix r).1)

  -- The entry that a job's hash stands for, and those of a list of jobs.
  abbrev pub entry_of : Option Bytes × Fields → List (Bytes × Fields)
  entry_of (none, fields) = []
  entry_of (some stream, []) = []
  entry_of (some stream, field ∷ fields) = (stream, field ∷ fields) ∷ []

  abbrev pub entries_of : Text → List Text → R → List (Bytes × Fields)
  entries_of prefix [] r = []
  entries_of prefix (id ∷ due) r =
      entry_of (promoted (redis.hgetall (prefix ++ id) r)) ++ entries_of prefix due r

-- What a hash says: the stream under `_stream`, and the fields of other names.
abbrev pub said : Fields → Option Bytes × Fields
said flat = (lookup (text "_stream") flat, others (text "_stream") flat)

module _ {R : Type 0} (redis : Sorted R) where
  -- The entries that jobs stand for: none for a hash that is gone, names no stream or has no other
  -- field.
  abbrev pub jobs_of : Text → List Text → R → List (Bytes × Fields)
  jobs_of prefix [] r = []
  jobs_of prefix (id ∷ due) r =
      entry_of redis (said (redis.hgetall (prefix ++ id) r)) ++ jobs_of prefix due r

abbrev pub NoneTwice : List Text → Type 0
NoneTwice [] = Unit
NoneTwice (id ∷ ids) = (member id ids ≡ false) × NoneTwice ids

module _ {R : Type 0} (redis : Sorted R) (key prefix : Text) where
  -- What Redis documents of the commands.
  pub record IsDocumented : Type 0 where
    pub range_distinct : (high count : ℤ) (r : R) → NoneTwice (redis.zrangebyscore key high count r)
    pub range_scored :
        (high count : ℤ) (r : R) (id : Text)
        → member id (redis.zrangebyscore key high count r) ≡ true
        → (score : ℤ) × (redis.score key id r ≡ some score)
    pub added-add_entry :
        (stream : Bytes) (fields : Fields) (r : R)
        → redis.added (redis.add_entry stream fields r).1 ≡ redis.added r ++ (stream, fields) ∷ []
    pub added-del_key : (k : Text) (r : R) → redis.added (redis.del_key k r) ≡ redis.added r
    pub added-zrem : (id : Text) (r : R) → redis.added (redis.zrem key id r) ≡ redis.added r
    pub hgetall-add_entry :
        (k : Text) (stream : Bytes) (fields : Fields) (r : R)
        → redis.hgetall k (redis.add_entry stream fields r).1 ≡ redis.hgetall k r
    pub hgetall-del_key :
        (k j : Text) (r : R)
        → redis.hgetall k (redis.del_key j r) ≡ (if same j k then [] else redis.hgetall k r)
    pub hgetall-zrem :
        (k id : Text) (r : R) → redis.hgetall k (redis.zrem key id r) ≡ redis.hgetall k r
    pub score-add_entry :
        (id : Text) (stream : Bytes) (fields : Fields) (r : R)
        → redis.score key id (redis.add_entry stream fields r).1 ≡ redis.score key id r
    pub score-del_key :
        (id k : Text) (r : R)
        → same k key ≡ false
        → redis.score key id (redis.del_key k r) ≡ redis.score key id r
    pub score-zrem :
        (id other : Text) (r : R)
        → redis.score key id (redis.zrem key other r)
          ≡ (if same other id then none else redis.score key id r)
    pub score-wait :
        (ms : ℕ) (id : Text) (r : R) → redis.score key id (redis.wait ms r) ≡ redis.score key id r
