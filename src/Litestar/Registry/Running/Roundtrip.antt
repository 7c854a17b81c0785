-- ===== src/Litestar/Registry/Running/Roundtrip.antt =====
-- The payload on its way from `enqueue` to `execute` of src/smallage/litestar/registry.py.
use mathlib.Core.Path.{subst}
use litestar_rs.Prelude.{
  Text, Bytes, Bool-cases, Option, some, none, List, [], ◌∷◌, ◌≡◌, ◌⊎◌, inl, inr, refl, sym, ap,
  ◌∙◌, arith, All, map, length,
}
use litestar_rs.Prelude.Int.{ℤ, pos, ltb_ℤ}
use litestar_rs.Effect.{returned, succeeded, World, pure, lift, asks, perform, ◌>>=◌}
use litestar_rs.Effect.Returns.{
  bind-returned, lift-returned, lift-known, asks-returned, pure-returned, perform-returned,
}
use litestar_rs.Core.Envelope.{Envelope}
use litestar_rs.Litestar.Registry.{BoundTask, Structs, TaskRegistry, bound_task}
use litestar_rs.Litestar.Registry.Binding.{or_raise-some}
use litestar_rs.Litestar.Registry.Calls.{
  Call, publish, put_payload, get_payload, Calls, Env, Process,
}
use litestar_rs.Litestar.Registry.Running.{
  attributes, put_away, offload, announce, fetch, enqueue, open_payload,
}

module _ {V : Type 0} where
  -- What a payload store was given under a job's id is what it returns for the reference.
  abbrev pub IsKept : Env V → Env V → Type 0
  IsKept env env' =
      (store : V) (job_id reference : Text) (stored : Bytes) (t t' : Calls V)
      → env.stored store job_id stored t ≡ returned reference
      → env'.fetched store reference t' ≡ returned stored

  -- The payload is in the entry, or the store of the registry has it.
  abbrev IsCarried : Env V → Option V → Text → Bytes → Bytes → Option Text → Type 0
  IsCarried env payloads job_id encoded body reference =
      ((reference ≡ none) × (body ≡ encoded))
      ⊎ ((store : V) × (key : Text) × (t : Calls V) × (reference ≡ some key)
          × (payloads ≡ some store)
          × (env.stored store job_id encoded t ≡ returned key))

  -- The entry that was published last, with the payload and the reference given.
  abbrev IsAnnounced :
      V → Text → Text → Text → Bytes × Option Text → Option Text → Calls V → Envelope → Type 0
  IsAnnounced enqueuer queue name job_id carried dedup t envelope =
      (before : Calls V) × (t
        ≡ record { call = publish enqueuer envelope queue; status = succeeded } ∷ before)
      × (envelope.id ≡ job_id)
      × (envelope.task ≡ name)
      × (envelope.dedup ≡ dedup)
      × ((envelope.payload, envelope.payload_ref) ≡ carried)

module _ {V T : Type 0} (env : Env V) where
  stays :
      (job_id : Text) (encoded body : Bytes) (reference : Option Text) (payloads : Option V)
      (w w' : World (Process V T) (Call V))
      → pure {A = Bytes × Option Text} (encoded, none) w ≡ (returned (body, reference), w')
      → IsCarried env payloads job_id encoded body reference
  unfolding pure
  stays job_id encoded body reference payloads w w' e = inl (cc, cc)

  reference_of :
      (body : Bytes) (key : Text) (reference : Option Text) (w w' : World (Process V T) (Call V))
      → pure {A = Bytes × Option Text} ([], some key) w ≡ (returned (body, reference), w')
      → reference ≡ some key
  unfolding pure
  reference_of body key reference w w' e = cc

  put_away-IsCarried :
      (payloads : Option V) (job_id : Text) (encoded body : Bytes) (reference : Option Text)
      (w w' : World (Process V T) (Call V))
      → put_away env payloads job_id encoded w ≡ (returned (body, reference), w')
      → IsCarried env payloads job_id encoded body reference
  unfolding put_away
  put_away-IsCarried none job_id encoded body reference w w' e =
      stays job_id encoded body reference none w w' e
  put_away-IsCarried (some store) job_id encoded body reference w w' e =
      let (key, stored, made) =
        perform-returned (put_payload store job_id encoded) (env.stored store job_id encoded)
          (λ key. pure ([], some key)) w w' (body, reference) e in
      inr (store, key, w.trace, reference_of body key reference _ w' made, refl, stored)

  offload-IsCarried :
      (job_id : Text) (encoded body : Bytes) (reference : Option Text)
      (w w' : World (Process V T) (Call V))
      → offload env job_id encoded w ≡ (returned (body, reference), w')
      → IsCarried env w.state.registry.payloads job_id encoded body reference
  unfolding offload asks ◌>>=◌
  offload-IsCarried job_id encoded body reference w w' e =
      elim (Bool-cases (ltb_ℤ w.state.registry.offload_over_bytes (pos (length encoded)))) [
        | inr small ↦ stays job_id encoded body reference _ w w' (rw small at e)
        | inl large ↦
            put_away-IsCarried w.state.registry.payloads job_id encoded body reference w w'
              (rw large at e)
      ]

  announce-IsAnnounced :
      (enqueuer : V) (queue name made_id job_id : Text) (carried : Bytes × Option Text)
      (ttl : Option ℤ) (dedup : Option Text) (w w' : World (Process V T) (Call V))
      → announce env enqueuer queue name made_id carried ttl dedup w ≡ (returned job_id, w')
      → (made_id ≡ job_id)
        × ((envelope : Envelope) × IsAnnounced enqueuer queue name made_id carried dedup w'.trace
              envelope)
  unfolding announce
  announce-IsAnnounced enqueuer queue name made_id job_id (body, reference) ttl dedup w w' e =
      let e1 = asks-returned _ _ w w' job_id e in
      let e2 = asks-returned _ _ w w' job_id e1 in
      let (traceparent, w1, read, e3) = bind-returned _ _ w w' job_id e2 in
      let (published, sent, e4) = perform-returned _ _ _ w1 w' job_id e3 in
      let (same_id, same_world) = pure-returned _ _ _ w' e4 in
      (same_id, (_, (w1.trace, ap (λ v. v.trace) (sym same_world), refl, refl, refl, refl)))

  fetch-carried :
      (env' : Env V) (envelope : Envelope) (payloads : Option V) (job_id : Text) (encoded : Bytes)
      → IsKept env env'
      → IsCarried env payloads job_id encoded envelope.payload envelope.payload_ref
      → (v : World (Process V T) (Call V)) → v.state.registry.payloads ≡ payloads
      → (v' : World (Process V T) (Call V)) × (fetch env' envelope v ≡ (returned encoded, v'))
        × (v'.state ≡ v.state)
  unfolding fetch asks lift perform pure ◌>>=◌
  fetch-carried env' envelope payloads job_id encoded kept (inl (inline, body)) v same =
      (v, ground arith, refl)
  fetch-carried env' envelope payloads job_id encoded kept
        (inr (store, key, t, away, there, stored)) v same =
      let back = kept store job_id key encoded t v.trace stored in
      (
        record v { trace = record { call = get_payload store key; status = succeeded } ∷ v.trace },
        ground arith,
        refl,
      )

module _ {V T I : Type 0} (structs : Structs V T I) where
  attributes-values :
      (value : Text → V) (i : I) (fields : List Text)
      → All (λ field. structs.attribute i field ≡ returned (value field)) fields
      → attributes structs i fields ≡ returned (map (λ field. (field, value field)) fields)
  unfolding attributes
  attributes-values value i [] h = refl
  attributes-values value i (field ∷ fields) (first, rest) =
      ground (arith, attributes-values value i fields rest)

module _ {V T I : Type 0} (structs : Structs V T I) (env env' : Env V) (task : BoundTask V T)
    (payload : List (Text × V)) (value : Text → V) where
  -- The struct made of the payload has these values, also after it was encoded and decoded.
  pub record IsFaithful (self : TaskRegistry V T) : Type 0 where
    pub survives :
        (i : I) (encoded : Bytes)
        → structs.construct task.payload_type payload ≡ some i
        → structs.encode_json i self.serializer ≡ returned encoded
        → (j : I) × (structs.decode_json encoded task.payload_type self.decoders ≡ returned j)
          × All (λ field. structs.attribute j field ≡ returned (value field)) task.payload_fields

  open_payload-carried :
      (envelope : Envelope) (self : TaskRegistry V T) (job_id : Text) (encoded : Bytes) (i : I)
      → IsKept env env'
      → IsFaithful self
      → structs.construct task.payload_type payload ≡ some i
      → structs.encode_json i self.serializer ≡ returned encoded
      → IsCarried env self.payloads job_id encoded envelope.payload envelope.payload_ref
      → (v : World (Process V T) (Call V)) → v.state.registry.payloads ≡ self.payloads
      → v.state.registry.decoders ≡ self.decoders
      → (open_payload structs env' task envelope v).0
        ≡ returned (map (λ field. (field, value field)) task.payload_fields)
  unfolding open_payload ◌>>=◌
  open_payload-carried envelope self job_id encoded i kept faithful constructed json carried v
        stores decoders =
      let (v', got, same) =
        fetch-carried env env' envelope self.payloads job_id encoded kept carried v stores in
      let (j, decoded, has) = faithful.survives i encoded constructed json in
      let values = attributes-values structs value j task.payload_fields has in
      rw got (rw same (rw decoders (rw decoded values)))

  -- If a job was enqueued, then the last call published an entry with the returned id, for the
  -- task's queue; and a process with the same payload store and decoders that opens this entry gets
  -- the values that the task was enqueued with, whether they travel in the entry or were put into
  -- the payload store. The store must return what it was given, and JSON must give the struct's
  -- values back.
  pub open_payload-enqueue :
      (name : Text) (ttl : Option ℤ) (dedup : Option Text) (job_id : Text)
      (w w' v : World (Process V T) (Call V))
      → bound_task name w.state.registry ≡ returned task
      → IsKept env env'
      → IsFaithful w.state.registry
      → v.state.registry.payloads ≡ w.state.registry.payloads
      → v.state.registry.decoders ≡ w.state.registry.decoders
      → enqueue structs env name payload ttl dedup w ≡ (returned job_id, w')
      → (enqueuer : V) × (envelope : Envelope) × (before : Calls V) × (w'.trace
          ≡ record { call = publish enqueuer envelope task.queue; status = succeeded } ∷ before)
        × (envelope.id ≡ job_id)
        × (envelope.task ≡ name)
        × (envelope.dedup ≡ dedup)
        × ((open_payload structs env' task envelope v).0
            ≡ returned (map (λ field. (field, value field)) task.payload_fields))
  unfolding enqueue
  open_payload-enqueue name ttl dedup job_id w w' v found kept faithful stores decoders e =
      let e0 = asks-returned _ _ w w' job_id e in
      let e1 = lift-known _ _ task w w' job_id found e0 in
      let e2 = asks-returned _ _ w w' job_id e1 in
      let (enqueuer, chosen, e3) = lift-returned _ _ w w' job_id e2 in
      let (i, constructed, e4) = lift-returned _ _ w w' job_id e3 in
      let e5 = asks-returned _ _ w w' job_id e4 in
      let e6 = asks-returned _ _ w w' job_id e5 in
      let (encoded, json, e7) = lift-returned _ _ w w' job_id e6 in
      let ((body, reference), w1, put, e8) = bind-returned _ _ w w' job_id e7 in
      let (same_id, (envelope, announced)) =
        announce-IsAnnounced env enqueuer task.queue name (env.uuid w.trace) job_id
          (body, reference) ttl dedup w1 w' e8 in
      let (before, last, id, of_task, key, holds) = announced in
      (
        enqueuer,
        envelope,
        before,
        last,
        id ∙ same_id,
        of_task,
        key,
        open_payload-carried envelope w.state.registry (env.uuid w.trace) encoded i kept faithful
            (or_raise-some _ _ i constructed) json
            (subst (λ c. IsCarried env w.state.registry.payloads (env.uuid w.trace) encoded c.0 c.1)
              (sym holds)
              (offload-IsCarried env (env.uuid w.trace) encoded body reference w w1 put))
            v stores decoders,
      )
