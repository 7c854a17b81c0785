-- ===== src/Core/Scripts/Keeping/Steps.antt =====
-- What single commands, and the scripts for acknowledging and sweeping, do to an entry.
use litestar_rs.Prelude.{
  Text, Bytes, Bool-cases, true, false, ◌&&◌, Option-cases, some, List, [], ◌∷◌, ◌≡◌, ◌≢◌, ◌⊎◌, inl,
  inr, refl, sym, ◌∙◌, arith, All, All-imp, same, eq→same, member,
}
use litestar_rs.Prelude.Int.{ℤ, pos, ◌+ℤ◌}
use litestar_rs.Core.Envelope.{Fields}
use litestar_rs.Core.Scripts.{
  Streams, nothing_described, describe, is_zero, is_at_least, is_empty, ack, sweep_listed, set_all,
  expire_all,
}
use litestar_rs.Core.Scripts.Keeping.Described.{describe-listed}
use litestar_rs.Core.Scripts.Keeping.{Untouched, IsKept, IsTold, IsDocumented}

pub same_false→ne : (s t : Text) → same s t ≡ false → s ≢ t
same_false→ne s t h e = absurd (ground (arith, h, eq→same e))

module _ {R : Type 0} (redis : Streams R) (stream group : Text) (id : Bytes)
    (laws : IsDocumented redis stream group id) where
  abbrev Same : R → R → Type 0
  Same r r' = Untouched redis stream group id r r'

  pub Same-Kept :
      (r r' : R) → Same r r' → IsKept redis stream group id r → IsKept redis stream group id r'
  Same-Kept r r' (a, b, c) (there, inl new) = (a ∙ there, inl (b ∙ new))
  Same-Kept r r' (a, b, c) (there, inr (consumer, held)) = (a ∙ there, inr (consumer, c ∙ held))

  Same-trans : (r s t : R) → Same r s → Same s t → Same r t
  Same-trans r s t (a, b, c) (d, e, f) = (d ∙ a, e ∙ b, f ∙ c)

  pub set_all-Same :
      (keys : List Text) (consumer : Text) (ttl : ℤ) (r : R)
      → All (λ key. key ≢ stream) keys
      → Same r (set_all redis keys consumer ttl r)
  unfolding set_all
  set_all-Same [] consumer ttl r h = (refl, refl, refl)
  set_all-Same (key ∷ keys) consumer ttl r (first, rest) =
      Same-trans r (redis.set_px key consumer ttl r) _ (laws.set_apart key consumer ttl r first)
        (set_all-Same keys consumer ttl (redis.set_px key consumer ttl r) rest)

  pub expire_all-Same :
      (keys : List Text) (ttl : ℤ) (r : R)
      → All (λ key. key ≢ stream) keys
      → Same r (expire_all redis keys ttl r)
  unfolding expire_all
  expire_all-Same [] ttl r h = (refl, refl, refl)
  expire_all-Same (key ∷ keys) ttl r (first, rest) =
      Same-trans r (redis.expire key ttl r) _ (laws.expire_apart key ttl r first)
        (expire_all-Same keys ttl (redis.expire key ttl r) rest)

  pub ack-Same :
      (s : Text) (keys : List Text) (g : Text) (ids : List Bytes) (r : R)
      → (s ≢ stream) ⊎ (member id ids ≡ false)
      → All (λ key. key ≢ stream) keys
      → Same r (ack redis s keys g ids r).1
  unfolding ack
  ack-Same s keys g [] r spared apart = (refl, refl, refl)
  ack-Same s keys g (one ∷ ids) r spared apart =
      let acked = redis.xack s g (one ∷ ids) r in
      let gone = redis.xdel s (one ∷ ids) acked.1 in
      let both =
        Same-trans r acked.1 gone (laws.xack_apart s g (one ∷ ids) r spared)
          (laws.xdel_apart s (one ∷ ids) acked.1 spared) in
      elim (Bool-cases (is_empty keys)) [
        | inl nothing ↦ rw nothing both
        | inr some_keys ↦
            rw some_keys
              (Same-trans r gone (redis.del keys gone) both (laws.del_apart keys gone apart))
      ]

  -- A sweep of this group drops no consumer that holds the entry, or it is of another.
  abbrev pub IsHarmless : Text → Text → R → Fields → Type 0
  IsHarmless s g r consumer = (s ≢ stream) ⊎ ((g ≢ group) ⊎ IsTold redis stream group id r consumer)

  Harmless-Same :
      (s g : Text) (r r' : R) (consumers : List Fields)
      → Same r r'
      → All (IsHarmless s g r) consumers
      → All (IsHarmless s g r') consumers
  Harmless-Same s g r r' consumers (_, _, held) h =
      All-imp consumers
        (λ consumer one. elim one [
          | inl other ↦ inl other
          | inr (inl other) ↦ inr (inl other)
          | inr (inr (distinct, busy)) ↦ inr (
              inr (
                distinct,
                λ name pending named some_pending now.
                    busy name pending named some_pending (sym held ∙ now),
              ))
        ])
        h

  drop-Same :
      (s g name : Text) (consumer : Fields) (r : R)
      → IsHarmless s g r consumer
      → is_zero redis (describe redis consumer nothing_described).pending ≡ true
      → (describe redis consumer nothing_described).name ≡ some name
      → Same r (redis.delconsumer s g name r)
  drop-Same s g name consumer r (inl other) zero named =
      laws.delconsumer_apart s g name r (inl other)
  drop-Same s g name consumer r (inr (inl other)) zero named =
      laws.delconsumer_apart s g name r (inr (inl other))
  drop-Same s g name consumer r (inr (inr (distinct, busy))) zero named =
      let (by_name, (pending, listed, is_none)) =
        describe-listed redis consumer name distinct zero named in
      laws.delconsumer_apart s g name r
        (inr (inr (λ held. busy name pending by_name listed held is_none)))

  pub sweep_listed-Same :
      (s g : Text) (min_idle : ℤ) (consumers : List Fields) (deleted : ℤ) (r : R)
      → All (IsHarmless s g r) consumers
      → Same r (sweep_listed redis s g min_idle consumers deleted r).1
  unfolding sweep_listed
  sweep_listed-Same s g min_idle [] deleted r h = (refl, refl, refl)
  sweep_listed-Same s g min_idle (consumer ∷ more) deleted r (first, rest) =
      let d = describe redis consumer nothing_described in
      elim (Option-cases d.name) [
        | inl unnamed ↦
            rw (unnamed, sweep_listed) (sweep_listed-Same s g min_idle more deleted r rest)
        | inr (name, named) ↦
            elim (Bool-cases (is_zero redis d.pending && is_at_least redis min_idle d.idle)) [
              | inr stays ↦
                  rw (named, sweep_listed)
                    (rw (stays, sweep_listed) (sweep_listed-Same s g min_idle more deleted r rest))
              | inl goes ↦
                  let r' = redis.delconsumer s g name r in
                  let dropped = drop-Same s g name consumer r first (ground (arith, goes)) named in
                  rw (named, sweep_listed)
                    (rw (goes, sweep_listed)
                      (Same-trans r r' _ dropped (
                        sweep_listed-Same s g min_idle more (deleted +ℤ pos 1) r'
                          (Harmless-Same s g r r' more dropped rest))))
            ]
      ]
