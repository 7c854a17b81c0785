-- ===== src/Core/Transport/Reading.antt =====
-- A read hands over all that Redis delivered to it.
use litestar_rs.Prelude.{
  ℕ, suc, Text, Bool, true, false, List, [], ◌∷◌, ◌++◌, ◌≡◌, refl, map, ◌∙◌, arith, Option, none,
  inl, inr, if◌then◌else◌,
}
use mathlib.Core.List.{append-nil}
use litestar_rs.Prelude.Int.{ℤ}
use litestar_rs.Python.{Python}
use litestar_rs.Effect.{
  Outcome, Outcome-cases, returned, raised, cancelled, World, ◌>>=◌, continue, pure,
}
use litestar_rs.Core.Envelope.{Record}
use litestar_rs.Core.Transport.{
  Transport, records_of, records_from_read, or_else, read_streams, sweep, read_own, read_entries,
  priority_order,
}
use litestar_rs.Core.Transport.Commands.{Command, Entry, xreadgroup, Trace, Passes, Method, Redis}

abbrev concat {ℓ} : {A : Type ℓ} → List (List A) → List A
concat [] = []
concat (xs ∷ rest) = xs ++ concat rest

records_of-eq :
    (stream : Text) (entries : List Entry)
    → records_of stream entries
      ≡ map
          (λ (entry_id, fields). record { stream = stream; entry_id = entry_id; fields = fields })
          entries
unfolding records_of
records_of-eq stream [] = refl
records_of-eq stream ((entry_id, fields) ∷ entries) = rw (records_of-eq stream entries) refl

module _ (py : Python) (redis : Redis) (self : Transport) where
  abbrev reply_to : Outcome (List Record) → List Record
  reply_to (returned records) = records
  reply_to other = []

  -- What a reply of Redis lists: each entry of each stream in it.
  abbrev listed : List (Text × List Entry) → List Record
  listed reply = concat (
      map
        (λ (stream, entries).
          map
            (λ (entry_id, fields). record { stream = stream; entry_id = entry_id; fields = fields })
            entries)
        reply)

  records_from_read-eq : (reply : List (Text × List Entry)) → records_from_read reply ≡ listed reply
  unfolding records_from_read
  records_from_read-eq [] = refl
  records_from_read-eq ((stream, entries) ∷ reply) =
      rw (records_of-eq stream entries, records_from_read-eq reply) refl

  abbrev answer : Command → Trace → List Record
  answer (xreadgroup _ _ _ _ _) before = elim (redis.read before) [
    | returned reply ↦ listed reply
    | _ ↦ []
  ]
  answer _ before = []

  -- The records that Redis delivered to this consumer over the commands of a trace. They are pending
  -- from then on, so one that is not handed over is not read again.
  pub delivered : Trace → List Record
  delivered [] = []
  delivered (event ∷ before) = answer event.call before ++ delivered before

  -- Where nothing was delivered before it, what the method returns is what was delivered in it.
  record Delivers (m : Method (List Record)) : Type 0 where
    at :
        (w : World Passes Command) (records : List Record)
        → delivered w.trace ≡ []
        → (m w).0 ≡ returned records
        → delivered (m w).1.trace ≡ records

  read_streams-Delivers :
      (names : List Text) (count : ℤ) (block : Option ℤ)
      → Delivers (read_streams py redis self names count block)
  unfolding read_streams delivered ◌>>=◌
  read_streams-Delivers names count block = record {
    at = λ w records clean e. elim (Outcome-cases (redis.read w.trace)) [
      | inl (inl (reply, got)) ↦
          ground (arith, records_from_read-eq reply, append-nil (listed reply))
      | inl (inr (x, got)) ↦ ground arith
      | inr got ↦ ground arith
    ];
  }

  Delivers-or_else :
      (m k : Method (List Record))
      → Delivers m
      → Delivers k
      → Delivers (m >>= λ records. or_else records k)
  unfolding ◌>>=◌
  Delivers-or_else m k dm dk = record {
    at = λ w records clean e. go w records clean (m w).0 refl e;
  }
    where
      go :
          (w : World Passes Command) (records : List Record)
          → delivered w.trace ≡ []
          → (o : Outcome (List Record)) → (m w).0 ≡ o
          → (continue o (λ r. or_else r k) (m w).1).0 ≡ returned records
          → delivered (continue o (λ r. or_else r k) (m w).1).1.trace ≡ records
      go w records clean (returned []) q e = dk.at (m w).1 records (dm.at w [] clean q) e
      go w records clean (returned (entry ∷ more)) q e =
          dm.at w (entry ∷ more) clean q ∙ (unfold pure in cc)
      go w records clean (raised x) q e = cc
      go w records clean cancelled q e = cc

  sweep-Delivers : (count : ℤ) (order : List Text) → Delivers (sweep py redis self count order)
  unfolding sweep
  sweep-Delivers count [] = read_streams-Delivers _ count _
  sweep-Delivers count (queue ∷ more) =
      Delivers-or_else _ _ (read_streams-Delivers _ count none) (sweep-Delivers count more)

  Delivers-if :
      (b : Bool) (m k : Method (List Record))
      → Delivers m
      → Delivers k
      → Delivers (if b then m else k)
  Delivers-if true m k dm dk = dm
  Delivers-if false m k dm dk = dk

  read_own-Delivers : (count : ℤ) → Delivers (read_own py redis self count)
  unfolding read_own ◌>>=◌
  read_own-Delivers count =
      Delivers-if _ _ _
        (record {
          at = λ w records clean e.
              (sweep-Delivers count (priority_order py redis self w.state)).at
                (record w { state = suc w.state }) records clean e;
        })
        (read_streams-Delivers _ count _)

  pure-Delivers : Delivers (pure [])
  unfolding pure delivered
  pure-Delivers = record { at = λ w records clean e. ground arith }

  all_reads : (count : ℤ) → Delivers (read_entries py redis self count)
  unfolding read_entries
  all_reads count = Delivers-if _ _ _ pure-Delivers (
      Delivers-if _ _ _ (read_streams-Delivers _ count _) (
        Delivers-if _ _ _ (read_own-Delivers count)
          (Delivers-or_else _ _ (read_streams-Delivers _ count none) (read_own-Delivers count))))

  -- Whatever Redis answers, and whichever queues and foreign streams are configured: a read that
  -- returns hands over exactly the records that Redis delivered during it, none dropped.
  pub delivered-read_entries :
      (count : ℤ) (passes : ℕ) (records : List Record)
      → (read_entries py redis self count (record { state = passes; trace = [] })).0
        ≡ returned records
      → delivered (read_entries py redis self count (record { state = passes; trace = [] })).1.trace
        ≡ records
  unfolding delivered
  delivered-read_entries count passes records e =
      (all_reads count).at (record { state = passes; trace = [] }) records refl e
