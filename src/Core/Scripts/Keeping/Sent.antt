-- ===== src/Core/Scripts/Keeping/Sent.antt =====
-- An entry under what transports send: the methods of src/smallage/core/transport.py that name keys, with
-- the keys of keys.py.
use litestar_rs.Prelude.{
  ℕ, Text, Bytes, false, List, [], ◌∷◌, ◌++◌, ◌≡◌, ◌≢◌, ◌⊎◌, inl, inr, map, All, All-append, member,
}
use litestar_rs.Prelude.Int.{ℤ}
use litestar_rs.Python.{Python}
use litestar_rs.Effect.{Outcome-cases, World, ◌>>=◌}
use litestar_rs.Core.Keys.{alive_key, stream_key}
use litestar_rs.Core.Keys.Schema.{IsValid, alive_key-ne-stream_key, dedup_key-ne-stream_key}
use litestar_rs.Core.Transport.{Transport, mark_alive, refresh_alive, clear_alive, claim_dedup, ack}
use litestar_rs.Core.Transport.Commands.{Command, Trace, Passes, Redis}
use litestar_rs.Core.Transport.Upkeep.{reclaim}
use litestar_rs.Core.Scripts.{Streams, Turn, command, after_all}
use litestar_rs.Core.Scripts.Keeping.{IsKept, IsDocumented, IsSparing}
use litestar_rs.Core.Scripts.Keeping.Always.{after_all-IsKept}

-- A call of a method that names keys, on some worker's transport, or another turn.
pub data Deed : Type 0 where
  marks : Transport → List Bytes → ℤ → Deed
  refreshes : Transport → List Bytes → ℤ → Deed
  clears : Transport → List Bytes → Deed
  claims : Transport → Text → Text → ℤ → Deed
  acks : Transport → Text → List Bytes → Deed
  -- stream, id, idle, time to live
  reclaims : Transport → Text → Bytes → ℤ → ℤ → Deed
  turns : Turn → Deed

abbrev idle : World Passes Command
idle = record { state = 0; trace = [] }

-- The commands of a trace; each of these methods sends one at most.
abbrev turns_of : Trace → List Turn
turns_of [] = []
turns_of (event ∷ before) = command event.call ∷ turns_of before

module _ (py : Python) (redis : Redis) where
  unfoldable pub sent : Deed → List Turn
  sent (marks self ids ttl) = turns_of (mark_alive py redis self ids ttl idle).1.trace
  sent (refreshes self ids ttl) = turns_of (refresh_alive py redis self ids ttl idle).1.trace
  sent (clears self ids) = turns_of (clear_alive py redis self ids idle).1.trace
  sent (claims self key owner ttl) = turns_of (claim_dedup py redis self key owner ttl idle).1.trace
  sent (acks self stream ids) = turns_of (ack py redis self stream ids idle).1.trace
  sent (reclaims self stream id min_idle ttl) =
      turns_of (reclaim py redis self stream id min_idle ttl idle).1.trace
  sent (turns turn) = turn ∷ []

  unfoldable pub all_sent : List Deed → List Turn
  all_sent [] = []
  all_sent (deed ∷ deeds) = sent deed ++ all_sent deeds

module _ {R : Type 0} (server : Streams R) (stream group : Text) (id : Bytes) where
  -- No acknowledgement names the entry, and the transports have accepted namespaces.
  abbrev pub IsFair : Deed → Type 0
  IsFair (marks self ids ttl) = IsValid self.namespace
  IsFair (refreshes self ids ttl) = IsValid self.namespace
  IsFair (clears self ids) = IsValid self.namespace
  IsFair (claims self key owner ttl) = IsValid self.namespace
  IsFair (acks self s ids) = IsValid self.namespace × ((s ≢ stream) ⊎ (member id ids ≡ false))
  IsFair (reclaims self s other min_idle ttl) = IsValid self.namespace
  IsFair (turns turn) = IsSparing server stream group id turn

module _ (py : Python) (redis : Redis) {R : Type 0} (server : Streams R) (namespace queue : Text)
    (shard : ℕ) (valid : IsValid namespace) (group : Text) (id : Bytes) where
  abbrev the_stream : Text
  the_stream = stream_key py namespace queue shard

  keys_apart :
      (n : Text) (ids : List Bytes)
      → IsValid n
      → All (λ key. key ≢ the_stream) (map (alive_key n) ids)
  keys_apart n [] ok = tt
  keys_apart n (one ∷ ids) ok =
      (alive_key-ne-stream_key py namespace n queue one shard valid ok, keys_apart n ids ok)

  sent-IsSparing :
      (deed : Deed)
      → IsFair server the_stream group id deed
      → All (IsSparing server the_stream group id) (sent py redis deed)
  unfolding sent mark_alive refresh_alive clear_alive claim_dedup ack reclaim ◌>>=◌
  sent-IsSparing (marks self [] ttl) fair = tt
  sent-IsSparing (marks self (one ∷ ids) ttl) fair =
      (keys_apart self.namespace (one ∷ ids) fair, tt)
  sent-IsSparing (refreshes self [] ttl) fair = tt
  sent-IsSparing (refreshes self (one ∷ ids) ttl) fair =
      (keys_apart self.namespace (one ∷ ids) fair, tt)
  sent-IsSparing (clears self []) fair = tt
  sent-IsSparing (clears self (one ∷ ids)) fair = (keys_apart self.namespace (one ∷ ids) fair, tt)
  sent-IsSparing (claims self key owner ttl) fair =
      (dedup_key-ne-stream_key py namespace self.namespace queue key shard valid fair, tt)
  sent-IsSparing (acks self s []) fair = tt
  sent-IsSparing (acks self s (one ∷ ids)) (ok, spared) =
      ((spared, keys_apart self.namespace (one ∷ ids) ok), tt)
  sent-IsSparing (reclaims self s other min_idle ttl) fair =
      let apart : alive_key self.namespace other ≢ the_stream =
        alive_key-ne-stream_key py namespace self.namespace queue other shard valid fair in
      elim (Outcome-cases (redis.claimed [])) [
        | inl (inl (reply, e)) ↦ rw (e, reclaim) (apart, tt)
        | inl (inr (exn, e)) ↦ rw (e, reclaim) (apart, tt)
        | inr e ↦ rw (e, reclaim) (apart, tt)
      ]
  sent-IsSparing (turns turn) fair = (fair, tt)

  all_sent-IsSparing :
      (deeds : List Deed)
      → All (IsFair server the_stream group id) deeds
      → All (IsSparing server the_stream group id) (all_sent py redis deeds)
  unfolding all_sent
  all_sent-IsSparing [] fair = tt
  all_sent-IsSparing (deed ∷ deeds) (first, rest) =
      All-append (IsSparing server the_stream group id) (sent py redis deed)
        (all_sent py redis deeds) (sent-IsSparing deed first) (all_sent-IsSparing deeds rest)

  -- Whatever any number of workers do with their transports, in whatever order and with whatever
  -- other commands and time between: an entry of a stream of an accepted namespace stays in its
  -- stream, with the group still to deliver it or holding it as pending for some consumer, until an
  -- acknowledgement names it or a trim goes as far as it. The keys that transports of accepted
  -- namespaces write, renew and drop are never the stream's; of the other commands this is asked.
  -- Redis must behave as it documents.
  pub all_sent-IsKept :
      (deeds : List Deed) (r : R)
      → IsDocumented server the_stream group id
      → All (IsFair server the_stream group id) deeds
      → IsKept server the_stream group id r
      → IsKept server the_stream group id (after_all server (all_sent py redis deeds) r)
  all_sent-IsKept deeds r laws fair kept =
      after_all-IsKept server the_stream group id laws (all_sent py redis deeds) r
        (all_sent-IsSparing deeds fair) kept
