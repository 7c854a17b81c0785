-- ===== src/Tests/DueJobs.antt =====
-- A Redis with a sorted set of jobs and their hashes, for promote.lua of src/smallage/core/scripts.
use litestar_rs.Prelude.{
  ℕ, ◌+◌, ◌*◌, ◌/◌, Bool, Text, Bytes, text, true, false, Option, some, none, Bool-cases, inl, inr,
  List, [], ◌∷◌, ◌++◌, ◌≡◌, ap, refl, arith, same, same_refl, same_iff, member, if◌then◌else◌,
}
use litestar_rs.Prelude.Int.{ℤ, pos, ◌+ℤ◌, ◌*ℤ◌, leb_ℤ}
use litestar_rs.Core.Envelope.{to_fields, from_fields, join_lines, Fields}
use litestar_rs.Core.Scripts.Promoting.{
  Sorted, promote, taken_up, promote_each, move_job, due_of, jobs_of, IsDocumented, NoneTwice,
}
use litestar_rs.Core.Scheduler.{promoted, scheduled_fields}
use litestar_rs.Core.Scheduler.Promotion.{IsDistinct}
use litestar_rs.Core.Scripts.Promoting.Scheduled.{promote-scheduled_fields}
use litestar_rs.Prelude.Dict.{lookup, put, put_some}
use litestar_rs.Python.{plain}
use litestar_rs.Tests.Samples.{job, stream}
use litestar_rs.Core.Worker.Handler.{floor_div}
use litestar_rs.Core.Scripts.Promoting.Once.{promote-entries_of, taken_up-NoneTwice}

-- One set, in which no member is listed twice; a hash for each key; what was added.
record Small : Type 0 where
  now : ℕ
  set : List (Text × ℤ)
  hashes : Text → Fields
  log : List (Bytes × Fields)

abbrev score_of : Text → List (Text × ℤ) → Option ℤ
score_of id [] = none
score_of id ((other, score) ∷ set) = if same other id then some score else score_of id set

abbrev without : Text → List (Text × ℤ) → List (Text × ℤ)
without id [] = []
without id ((other, score) ∷ set) =
    let rest = without id set in if same other id then rest else (other, score) ∷ rest

abbrev up_to : ℤ → List Text → List (Text × ℤ) → List Text
up_to high seen [] = []
up_to high seen ((id, score) ∷ set) =
    let rest = up_to high (id ∷ seen) set in
    if leb_ℤ score high then (if member id seen then rest else id ∷ rest) else rest

abbrev small : Sorted Small
small = record {
  clock = λ r. (pos 0, pos (r.now * 1000));
  zrangebyscore = λ key high count r. up_to high [] r.set;
  hgetall = λ k r. r.hashes k;
  add_entry = λ stream fields r. (text "1-0", record r { log = r.log ++ (stream, fields) ∷ [] });
  del_key = λ k r. record r { hashes = λ j. if same k j then [] else r.hashes j };
  zrem = λ key id r. record r { set = without id r.set };
  wait = λ ms r. record r { now = r.now + ms };
  score = λ key id r. score_of id r.set;
  added = λ r. r.log;
}

score_of-without :
    (id other : Text) (set : List (Text × ℤ))
    → score_of id (without other set) ≡ (if same other id then none else score_of id set)
score_of-without id other [] = ground arith
score_of-without id other ((x, score) ∷ set) =
    ground
      (arith, score_of-without id other set, same_iff x other, same_iff other id, same_iff x id)

up_to-fresh :
    (high : ℤ) (id : Text) (seen : List Text) (set : List (Text × ℤ))
    → member id seen ≡ true
    → member id (up_to high seen set) ≡ false
unfolding member
up_to-fresh high id seen [] h = refl
up_to-fresh high id seen ((x, score) ∷ set) h =
    ground (arith, up_to-fresh high id (x ∷ seen) set, same_iff x id)

up_to-NoneTwice :
    (high : ℤ) (seen : List Text) (set : List (Text × ℤ)) → NoneTwice (up_to high seen set)
unfolding member
up_to-NoneTwice high seen [] = tt
up_to-NoneTwice high seen ((x, score) ∷ set) =
    ground
      (arith, up_to-NoneTwice high (x ∷ seen) set, up_to-fresh high x (x ∷ seen) set, same_refl x)

up_to_scored :
    (high : ℤ) (id : Text) (seen : List Text) (set : List (Text × ℤ))
    → member id (up_to high seen set) ≡ true
    → (score : ℤ) × (score_of id set ≡ some score)
unfolding member
up_to_scored high id seen [] m = absurd (ground arith)
up_to_scored high id seen ((x, score) ∷ set) m = elim (Bool-cases (same x id)) [
  | inl own ↦ (score, rw own refl)
  | inr other ↦
      let (found, there) = up_to_scored high id (x ∷ seen) set (ground arith) in
      (found, rw other there)
]

abbrev zset : Text
zset = text "a:sched"

abbrev job_prefix : Text
job_prefix = text "a:sched:job:"

small_laws : IsDocumented small zset job_prefix
small_laws = record {
  range_distinct = λ high count r. up_to-NoneTwice high [] r.set;
  range_scored = λ high count r id m. up_to_scored high id [] r.set m;
  added-add_entry = λ stream fields r. refl;
  added-del_key = λ k r. refl;
  added-zrem = λ id r. refl;
  hgetall-add_entry = λ k stream fields r. refl;
  hgetall-del_key = λ k j r. refl;
  hgetall-zrem = λ k id r. refl;
  score-add_entry = λ id stream fields r. refl;
  score-del_key = λ id k r h. refl;
  score-zrem = λ id other r. score_of-without id other r.set;
  score-wait = λ ms id r. refl;
}

prefix_apart : (id : Text) → same (job_prefix ++ id) zset ≡ false
unfolding same
prefix_apart id = refl

abbrev first_job : Fields
first_job = (text "_stream", text "a:stream") ∷ (text "task", text "mail") ∷ []

-- One job is due, one is not, and the hash of a third is gone.
abbrev three : Small
three = record {
  now = 50;
  set = (text "x", pos 40) ∷ (text "z", pos 45) ∷ (text "y", pos 90) ∷ [];
  hashes = λ k.
      if same k (job_prefix ++ text "x")
      then first_job
      else if same k (job_prefix ++ text "y")
      then first_job
      else [];
  log = [];
}

both_due : due_of small zset (pos 10) three ≡ text "x" ∷ text "z" ∷ []
unfolding ◌+ℤ◌ ◌*ℤ◌ floor_div member same
both_due = refl

either-IsDistinct : (b c : Bool) → IsDistinct (if b then first_job else if c then first_job else [])
unfolding lookup same
either-IsDistinct true c = (refl, (refl, tt))
either-IsDistinct false true = (refl, (refl, tt))
either-IsDistinct false false = tt

three-IsDistinct : (id : Text) → IsDistinct (small.hgetall (job_prefix ++ id) three)
three-IsDistinct id =
    either-IsDistinct (same (job_prefix ++ id) (job_prefix ++ text "x"))
      (same (job_prefix ++ id) (job_prefix ++ text "y"))

abbrev two : List Text
two = text "x" ∷ text "z" ∷ []

two_listed : two ≡ small.zrangebyscore zset (pos (0 * 1000 + 50000 / 1000)) (pos 10) three
unfolding member same
two_listed = refl

promote-entries_of_example :
    (small.added (promote small zset (pos 10) job_prefix three).1
      ≡ small.added three ++ jobs_of small job_prefix two three)
    × ((id : Text)
        → (small.score zset id (promote small zset (pos 10) job_prefix three).1
            ≡ (if member id two then none else small.score zset id three))
          × (small.hgetall (job_prefix ++ id) (promote small zset (pos 10) job_prefix three).1
              ≡ (if member id two then [] else small.hgetall (job_prefix ++ id) three)))
promote-entries_of_example =
    promote-entries_of small zset job_prefix prefix_apart small_laws (pos 10) three 0 50000 two refl
      three-IsDistinct two_listed

taken_up-NoneTwice_example :
    NoneTwice (taken_up small zset job_prefix ((pos 10, 0) ∷ (pos 10, 60) ∷ (pos 10, 0) ∷ []) three)
taken_up-NoneTwice_example =
    taken_up-NoneTwice small zset job_prefix prefix_apart small_laws
      ((pos 10, 0) ∷ (pos 10, 60) ∷ (pos 10, 0) ∷ []) three

all_taken_up :
    taken_up small zset job_prefix ((pos 10, 0) ∷ (pos 10, 60) ∷ (pos 10, 0) ∷ []) three
    ≡ text "x" ∷ text "z" ∷ text "y" ∷ []
unfolding taken_up promote promote_each move_job promoted ◌+ℤ◌ ◌*ℤ◌ floor_div member same
all_taken_up = refl

-- The sample job is due in its stream.
abbrev scheduled : Small
scheduled = record {
  now = 50;
  set = (text "y", pos 30) ∷ (text "x", pos 40) ∷ [];
  hashes = λ k. if same k (job_prefix ++ text "x") then scheduled_fields plain job stream else [];
  log = [];
}

x_due : member (text "x") (due_of small zset (pos 10) scheduled) ≡ true
unfolding ◌+ℤ◌ ◌*ℤ◌ floor_div member same
x_due = refl

x_stored : scheduled.hashes (job_prefix ++ text "x") ≡ scheduled_fields plain job stream
x_stored = rw (same_refl (job_prefix ++ text "x")) refl

scheduled_fields-IsDistinct : IsDistinct (scheduled_fields plain job stream)
unfolding scheduled_fields to_fields put put_some lookup same join_lines
scheduled_fields-IsDistinct =
    (refl, (refl, (refl, (refl, (refl, (refl, (refl, (refl, (refl, (refl, (refl, tt)))))))))))

promote-scheduled_fields_example :
    (before : List (Bytes × Fields)) × (after : List (Bytes × Fields)) × (fields : Fields)
    × (small.added (promote small zset (pos 10) job_prefix scheduled).1
        ≡ small.added scheduled ++ (before ++ ((plain.encode stream, fields) ∷ after)))
    × (from_fields plain fields ≡ from_fields plain (to_fields plain job))
promote-scheduled_fields_example =
    promote-scheduled_fields small plain zset job_prefix prefix_apart small_laws job stream
      (text "x") (pos 10) scheduled x_due (rw x_stored scheduled_fields-IsDistinct)
      (λ name. ap (lookup name) x_stored)
