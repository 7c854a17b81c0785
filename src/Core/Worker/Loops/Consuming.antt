-- ===== src/Core/Worker/Loops/Consuming.antt =====
-- What `_consume_loop` does before it lets a record run.
use mathlib.Core.Path.{subst}
use litestar_rs.Prelude.{
  length, sym, ap, ℕ, zero, suc, Bytes, Bool, true, false, List, [], ◌∷◌, ◌≡◌, refl, ◌⊎◌, inl, inr,
  arith, Option, some, none, ◌||◌, member, same_refl, if◌then◌else◌,
}
use litestar_rs.Prelude.Int.{ℤ, pos, ◌-ℤ◌, ◌≤ℤ◌, ltb_ℤ}
use litestar_rs.Python.{Python}
use litestar_rs.Effect.{Outcome, succeeded, status, Event, World, modify, perform, ◌>>=◌}
use litestar_rs.Effect.Keeps.{
  Keeps-modify, Keeps, Keeps-pure, Keeps-bind, Keeps-perform, Keeps-if, Gives, Keeps-bind-gives,
  Keeps-except, Keeps-if_cases, Keeps-asks, bind-pure, Gives-asks,
}
use litestar_rs.Core.Envelope.{Record}
use litestar_rs.Core.Floats.{Floats}
use litestar_rs.Core.Worker.Config.{WorkerConfig, credits}
use litestar_rs.Core.Worker.Calls.{call, State, Call, read, mark_alive, spawn, Trace, run_call, Env}
use litestar_rs.Core.Worker.Loops.{
  orphans_of_previous_run, run, ids_of, start_all, take_on, let_go_all, read_records, wait_slot,
  free_slots, consume_pass, consume_loop,
}

member-or : (b : Bool) → (b || true) ≡ true
member-or true = refl
member-or false = refl

abbrev Marks : {F : Type 0} → Bytes → Call F → Type 0
Marks entry_id (mark_alive ids _) = member entry_id ids ≡ true
Marks entry_id _ = ⊥

module _ {F : Type 0} (cfg : WorkerConfig F) where
  -- The liveness key of the entry was written before the trace ends.
  abbrev pub IsMarked : Bytes → Trace F → Type 0
  IsMarked entry_id [] = ⊥
  IsMarked entry_id (event ∷ before) =
      ((event.status ≡ succeeded) × Marks entry_id event.call) ⊎ IsMarked entry_id before

  abbrev pub IsProper : Call F → Trace F → Type 0
  IsProper (spawn entry) before = IsMarked entry.entry_id before
  IsProper (read count) before = (pos 1 ≤ℤ count) × (count ≤ℤ cfg.concurrency)
  IsProper _ before = Unit

  -- Every record that was let run had its liveness key written before, and every read asked for at
  -- least one entry and at most as many as may run at once.
  abbrev pub AllProper : Trace F → Type 0
  AllProper [] = Unit
  AllProper (event ∷ before) = IsProper event.call before × AllProper before

  abbrev Proper : World State (Call F) → Type 0
  Proper w = AllProper w.trace

  -- Every entry that stands in the list has its liveness key.
  abbrev MarkedAll : List Record → World State (Call F) → Type 0
  MarkedAll [] w = Unit
  MarkedAll (entry ∷ records) w = IsMarked entry.entry_id w.trace × MarkedAll records w

  -- A key written earlier is still written.
  MarkedAll-later :
      (records : List Record) (s s' : State) (event : Event (Call F)) (before : Trace F)
      → MarkedAll records (record { state = s; trace = before })
      → MarkedAll records (record { state = s'; trace = event ∷ before })
  MarkedAll-later [] s s' event before h = tt
  MarkedAll-later (entry ∷ records) s s' event before h =
      (inr h.0, MarkedAll-later records s s' event before h.1)

  -- The one call that marks them all.
  MarkedAll-now :
      (records : List Record) (ids : List Bytes) (ttl : ℤ) (s : State) (before : Trace F)
      → ((entry_id : Bytes) → member entry_id (ids_of records) ≡ true → member entry_id ids ≡ true)
      → MarkedAll records (record {
        state = s;
        trace = record { call = mark_alive ids ttl; status = succeeded } ∷ before;
      })
  unfolding member
  MarkedAll-now [] ids ttl s before h = tt
  MarkedAll-now (entry ∷ records) ids ttl s before h = (
    inl (refl, h entry.entry_id (rw (same_refl entry.entry_id))),
    MarkedAll-now records ids ttl s before (λ entry_id m. h entry_id (rw m (member-or _))),
  )

module _ {F : Type 0} (fl : Floats F) (py : Python) (env : Env F) (cfg : WorkerConfig F) where
  start_all-Proper :
      (records : List Record) (w : World State (Call F))
      → MarkedAll cfg records w
      → Proper cfg w
      → Proper cfg (start_all fl py env cfg records w).1
  unfolding start_all ◌>>=◌
  start_all-Proper [] w marked proper = proper
  start_all-Proper (entry ∷ records) w marked proper =
      start_all-Proper records _ (MarkedAll-later cfg records _ _ _ _ marked.1) (marked.0, proper)

  modify-Proper : (f : State → State) → Keeps (Proper cfg) (modify f)
  unfolding modify
  modify-Proper f = record { at = λ w h. h }

  mark-Gives :
      (records : List Record)
      → Gives
          (Proper cfg)
          (run_call env (mark_alive (ids_of records) cfg.alive_ttl_ms))
          (λ _ w. MarkedAll cfg records w)
  unfolding perform
  mark-Gives records = record {
    at = λ w h. (tt, h);
    result = λ w _ h e.
        subst
          (λ o. MarkedAll cfg records (record {
            state = env.others w.trace w.state;
            trace =
                record { call = mark_alive (ids_of records) cfg.alive_ttl_ms; status = o }
                ∷ w.trace;
          }))
          (sym (ap status e)) (MarkedAll-now cfg records (ids_of records) _ _ _ (λ entry_id m. m));
  }

  take_on-Proper : (records : List Record) → Keeps (Proper cfg) (take_on fl py env cfg records)
  unfolding take_on
  take_on-Proper [] = Keeps-pure none
  take_on-Proper (entry ∷ more) =
      Keeps-except _ _
        (Keeps-bind _ _ (modify-Proper _) (λ _.
          Keeps-bind-gives _ _ (mark-Gives (entry ∷ more)) (λ _ w proper marked.
            subst (Proper cfg) (sym (bind-pure (start_all fl py env cfg (entry ∷ more)) none w))
              (start_all-Proper (entry ∷ more) w marked proper))))
        (λ e. Keeps-pure (some (ids_of (entry ∷ more))))

  credits_bounds :
      (n : ℕ)
      → ltb_ℤ (pos 0) (credits cfg.concurrency (pos n)) ≡ true
      → (pos 1 ≤ℤ credits cfg.concurrency (pos n))
        × (credits cfg.concurrency (pos n) ≤ℤ cfg.concurrency)
  unfolding credits ◌-ℤ◌
  credits_bounds n h = ground arith

  let_go_all-Proper :
      (failed : Option (List Bytes)) → Keeps (Proper cfg) (let_go_all fl py env cfg failed)
  unfolding let_go_all
  let_go_all-Proper none = Keeps-pure tt
  let_go_all-Proper (some ids) =
      Keeps-bind _ _ (modify-Proper _) (λ _. Keeps-perform _ _ _ (λ o w h. (tt, h)))

  read_records-Proper :
      (count : ℤ)
      → (pos 1 ≤ℤ count) × (count ≤ℤ cfg.concurrency)
      → Keeps (Proper cfg) (read_records fl py env cfg count)
  unfolding read_records
  read_records-Proper count fits =
      Keeps-bind _ _
        (Keeps-except _ _ (Keeps-bind _ _ (Keeps-perform _ _ _ (λ o w h. (fits, h))) take_on-Proper)
          (λ e. Keeps-pure (some [])))
        let_go_all-Proper

  wait_slot-Proper : Keeps (Proper cfg) (wait_slot fl py env cfg)
  unfolding wait_slot
  wait_slot-Proper = Keeps-bind _ _ (Keeps-perform _ _ _ (λ o w h. (tt, h))) (λ _. modify-Proper _)

  pass-Proper :
      (free : ℤ) (w : World State (Call F))
      → free ≡ free_slots fl py env cfg w.state
      → Keeps
          (Proper cfg)
          (if ltb_ℤ (pos 0) free then read_records fl py env cfg free else wait_slot fl py env cfg)
  pass-Proper free w e =
      Keeps-if_cases (ltb_ℤ (pos 0) free) _ _
        (λ some_free.
          read_records-Proper free
            (rw e (credits_bounds (length w.state.slots.ids) (rw e at some_free))))
        (λ _. wait_slot-Proper)

  -- The pass reads the state and acts on what it read, with no await between.
  consume_pass-Proper : Keeps (Proper cfg) (consume_pass fl py env cfg)
  unfolding consume_pass
  consume_pass-Proper =
      Keeps-bind-gives _ _ (Gives-asks (λ w. free_slots fl py env cfg w.state))
        (λ free w proper e. (pass-Proper free w e).at w proper)

  consume_loop-Keeps : (passes : ℕ) → Keeps (Proper cfg) (consume_loop fl py env cfg passes)
  unfolding consume_loop
  consume_loop-Keeps zero = Keeps-pure tt
  consume_loop-Keeps (suc passes) = Keeps-bind _ _ (Keeps-asks _) (λ stopped.
      Keeps-if stopped _ _ (Keeps-pure tt)
        (Keeps-bind _ _ consume_pass-Proper (λ _. consume_loop-Keeps passes)))

  call-Proper :
      {A : Type 0} (c : Call F) (answer : Trace F → Outcome A)
      → ((t : Trace F) → IsProper cfg c t)
      → Keeps (Proper cfg) (call env c answer)
  call-Proper c answer proper = Keeps-perform _ _ _ (λ o w h. (proper w.trace, h))

  orphans-Proper : Keeps (Proper cfg) (orphans_of_previous_run fl py env cfg)
  unfolding orphans_of_previous_run
  orphans-Proper = Keeps-bind _ _ (call-Proper _ _ (λ t. tt)) (λ entries. Keeps-pure _)

  -- From its start to its shutdown, however many passes the consume loop makes, and whatever the
  -- transport answers and the other coroutines do: a worker lets a record run only after a call that
  -- wrote the liveness key of its entry has succeeded, and a read asks for at least one entry and at
  -- most `concurrency`.
  pub run-AllProper :
      (passes : ℕ) (s : State)
      → AllProper cfg (run fl py env cfg passes (record { state = s; trace = [] })).1.trace
  unfolding run
  run-AllProper passes s =
      (Keeps-bind _ _ (call-Proper _ _ (λ t. tt)) (λ _.
          Keeps-bind _ _ orphans-Proper (λ ids.
            Keeps-bind _ _ (Keeps-modify _ (λ w h. h)) (λ _. consume_loop-Keeps passes)))).at
        (record { state = s; trace = [] }) tt
