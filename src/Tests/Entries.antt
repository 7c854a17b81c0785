-- ===== src/Tests/Entries.antt =====
-- An entry that workers take, lose and take over.
use litestar_rs.Prelude.{
  Text, Bytes, text, true, false, some, none, List, [], ◌∷◌, ◌≡◌, inl, inr, refl, arith, same,
  same_refl, member, has_char,
}
use litestar_rs.Prelude.Int.{pos}
use litestar_rs.Core.Transport.Commands.{
  xreadgroup, set_alive, pexpire, run_reclaim, run_sweep, xtrim,
}
use litestar_rs.Core.Scripts.{
  describe, is_empty, Turn, command, pass, after_all, serve, set_all, reclaim, sweep_consumers,
  sweep_listed,
}
use litestar_rs.Core.Scripts.Keeping.Sent.{
  Deed, marks, refreshes, acks, reclaims, turns, all_sent, all_sent-IsKept,
}
use litestar_rs.Core.Keys.{stream_key, validate}
use litestar_rs.Core.Keys.Schema.{IsValid}
use litestar_rs.Python.{plain}
use litestar_rs.Tests.Samples.{transport, redis}
use litestar_rs.Core.Scripts.Claiming.{Lasts, claimed}
use litestar_rs.Core.Scripts.Claiming.Winner.{claimed-alive, claimed-reclaim}
use litestar_rs.Core.Scripts.Keeping
use litestar_rs.Tests.SmallRedis.{Small, small, kept_laws, key_laws}

abbrev jobs : Text
jobs = text "jobs"

abbrev crew : Text
crew = text "crew"

abbrev alive_key : Text
alive_key = text "alive"

abbrev one_id : Bytes
one_id = text "500-0"

abbrev fresh_entry : Small
fresh_entry = record { there = true; new = true; owner = none; alive = none }

abbrev taken_entry : Small
taken_entry = record { there = true; new = false; owner = some (text "a"); alive = some 30 }

-- A worker takes the entry and is gone; another reclaims it after a minute, and the clean-up runs.
abbrev crash : List Turn
crash =
    command (xreadgroup crew (text "a") (jobs ∷ []) (pos 1) none)
    ∷ command (set_alive (alive_key ∷ []) (text "a") (pos 30))
    ∷ pass 60
    ∷ command (run_reclaim jobs alive_key crew (text "b") (pos 30) one_id (pos 30))
    ∷ command (run_sweep jobs crew (pos 10))
    ∷ command (xtrim jobs (pos 400))
    ∷ []

abbrev default_stream : Text
default_stream = stream_key plain (text "lrs") (text "default") 0

lrs-IsValid : IsValid (text "lrs")
unfolding validate has_char
lrs-IsValid = refl

-- A worker takes the entry and is gone; another finds it, reclaims it, and the clean-up runs.
abbrev recovery : List Deed
recovery =
    turns (command (xreadgroup crew (text "a") (default_stream ∷ []) (pos 1) none))
    ∷ marks transport (one_id ∷ []) (pos 30)
    ∷ turns (pass 60)
    ∷ reclaims transport default_stream one_id (pos 30) (pos 30)
    ∷ refreshes transport (one_id ∷ []) (pos 30)
    ∷ acks transport default_stream (text "400-0" ∷ [])
    ∷ turns (command (run_sweep default_stream crew (pos 10)))
    ∷ turns (command (xtrim default_stream (pos 400)))
    ∷ []

other_id : member one_id (text "400-0" ∷ []) ≡ false
unfolding member same
other_id = refl

all_sent-IsKept_example :
    Keeping.IsKept (small default_stream crew alive_key one_id) default_stream crew one_id (
      after_all
        (small default_stream crew alive_key one_id)
        (all_sent plain redis recovery)
        fresh_entry)
all_sent-IsKept_example =
    all_sent-IsKept plain redis (small default_stream crew alive_key one_id) (text "lrs")
      (text "default") 0 lrs-IsValid crew one_id recovery fresh_entry
      (kept_laws default_stream crew alive_key one_id)
      (
        tt,
        (
          lrs-IsValid,
          (
            tt,
            (
              lrs-IsValid,
              (lrs-IsValid, ((lrs-IsValid, inr other_id), (tt, (inr (omega arith), tt)))),
            ),
          ),
        ),
      )
      (refl, inl refl)

taken_over :
    (after_all (small jobs crew alive_key one_id) crash fresh_entry).owner ≡ some (text "b")
unfolding after_all serve set_all reclaim sweep_consumers sweep_listed describe same member
taken_over = refl

-- A worker that renews the key twice, beside two that try to reclaim.
abbrev heartbeats : List Turn
heartbeats =
    pass 20
    ∷ command (run_reclaim jobs alive_key crew (text "b") (pos 0) one_id (pos 30))
    ∷ command (pexpire (alive_key ∷ []) (pos 30))
    ∷ pass 20
    ∷ command (run_reclaim jobs alive_key crew (text "c") (pos 0) one_id (pos 30))
    ∷ command (pexpire (alive_key ∷ []) (pos 30))
    ∷ []

heartbeats_last : Lasts alive_key 30 heartbeats
unfolding member same
heartbeats_last = omega arith

claimed-alive_example :
    claimed (small jobs crew alive_key one_id) alive_key heartbeats taken_entry ≡ []
claimed-alive_example =
    claimed-alive (small jobs crew alive_key one_id) alive_key (key_laws jobs crew alive_key one_id)
      30 heartbeats taken_entry (rw (same_refl alive_key) refl) heartbeats_last

abbrev left_alone : Small
left_alone = record { there = true; new = false; owner = some (text "a"); alive = none }

first_wins :
    is_empty
      (reclaim
        (small jobs crew alive_key one_id)
        jobs
        alive_key
        crew
        (text "b")
        (pos 30)
        one_id
        (pos 30)
        left_alone).0
    ≡ false
unfolding reclaim same
first_wins = refl

claimed-reclaim_example :
    claimed
      (small jobs crew alive_key one_id)
      alive_key
      heartbeats
      (reclaim
        (small jobs crew alive_key one_id)
        jobs
        alive_key
        crew
        (text "b")
        (pos 30)
        one_id
        (pos 30)
        left_alone).1
    ≡ []
claimed-reclaim_example =
    claimed-reclaim (small jobs crew alive_key one_id) alive_key
      (key_laws jobs crew alive_key one_id) jobs crew (text "b") (pos 30) one_id 30 heartbeats
      left_alone first_wins heartbeats_last
