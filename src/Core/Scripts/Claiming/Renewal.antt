-- ===== src/Core/Scripts/Claiming/Renewal.antt =====
-- What the scripts and the pipelines do to the time that a key has left.
use litestar_rs.Prelude.{
  ℕ, ◌<◌, Text, Bytes, Bool-cases, true, false, ◌&&◌, Option-cases, some, inl, inr, List, [], ◌∷◌,
  ◌≡◌, refl, ◌∙◌, arith, same, same→eq, member,
}
use litestar_rs.Prelude.Int.{ℤ, pos, ◌+ℤ◌}
use litestar_rs.Core.Envelope.{Fields}
use litestar_rs.Core.Scripts.{
  Streams, nothing_described, describe, is_zero, is_at_least, is_empty, ack, reclaim, sweep_listed,
  set_all, expire_all,
}
use litestar_rs.Core.Scripts.Claiming.{IsExpiring}

module _ {R : Type 0} (redis : Streams R) (key : Text) (laws : IsExpiring redis key) where
  abbrev pub Left : ℕ → R → Type 0
  Left n r = redis.left key r ≡ some n

  pub set_all_apart :
      (keys : List Text) (consumer : Text) (ttl : ℤ) (r : R)
      → member key keys ≡ false
      → redis.left key (set_all redis keys consumer ttl r) ≡ redis.left key r
  unfolding set_all member
  set_all_apart [] consumer ttl r h = refl
  set_all_apart (k ∷ keys) consumer ttl r h =
      set_all_apart keys consumer ttl (redis.set_px k consumer ttl r) (ground arith)
      ∙ laws.left-set_px_other k consumer ttl r (ground arith)

  pub set_all-Left :
      (keys : List Text) (consumer : Text) (ttl : ℕ) (r : R)
      → 0 < ttl
      → member key keys ≡ true
      → Left ttl (set_all redis keys consumer (pos ttl) r)
  unfolding set_all member
  set_all-Left [] consumer ttl r h m = cc
  set_all-Left (k ∷ keys) consumer ttl r h m = elim (Bool-cases (member key keys)) [
    | inl again ↦ set_all-Left keys consumer ttl (redis.set_px k consumer (pos ttl) r) h again
    | inr last ↦
        set_all_apart keys consumer (pos ttl) (redis.set_px k consumer (pos ttl) r) last
        ∙ rw (same→eq k key (ground arith)) (laws.left-set_px consumer ttl r h)
  ]

  pub expire_all_apart :
      (keys : List Text) (ttl : ℤ) (r : R)
      → member key keys ≡ false
      → redis.left key (expire_all redis keys ttl r) ≡ redis.left key r
  unfolding expire_all member
  expire_all_apart [] ttl r h = refl
  expire_all_apart (k ∷ keys) ttl r h =
      expire_all_apart keys ttl (redis.expire k ttl r) (ground arith)
      ∙ laws.left-expire_other k ttl r (ground arith)

  expire_step :
      (k : Text) (ttl n : ℕ) (r : R)
      → 0 < ttl
      → Left n r
      → (m : ℕ) × Left m (redis.expire k (pos ttl) r)
  expire_step k ttl n r h now = elim (Bool-cases (same k key)) [
    | inl own ↦ (ttl, rw (same→eq k key own) (laws.left-expire ttl n r h now))
    | inr other ↦ (n, laws.left-expire_other k (pos ttl) r other ∙ now)
  ]

  pub expire_all-Left :
      (keys : List Text) (ttl n : ℕ) (r : R)
      → 0 < ttl
      → member key keys ≡ true
      → Left n r
      → Left ttl (expire_all redis keys (pos ttl) r)
  unfolding expire_all member
  expire_all-Left [] ttl n r h m now = cc
  expire_all-Left (k ∷ keys) ttl n r h m now =
      let r' = redis.expire k (pos ttl) r in
      elim (Bool-cases (member key keys)) [
        | inl again ↦
            let step = expire_step k ttl n r h now in
            expire_all-Left keys ttl step.0 r' h again step.1
        | inr last ↦
            expire_all_apart keys (pos ttl) r' last
            ∙ rw (same→eq k key (ground arith)) (laws.left-expire ttl n r h now)
      ]

  pub left-sweep_listed :
      (s g : Text) (min_idle : ℤ) (consumers : List Fields) (deleted : ℤ) (r : R)
      → redis.left key (sweep_listed redis s g min_idle consumers deleted r).1 ≡ redis.left key r
  unfolding sweep_listed
  left-sweep_listed s g min_idle [] deleted r = refl
  left-sweep_listed s g min_idle (consumer ∷ more) deleted r =
      let d = describe redis consumer nothing_described in
      elim (Option-cases d.name) [
        | inl unnamed ↦ rw (unnamed, sweep_listed) (left-sweep_listed s g min_idle more deleted r)
        | inr (name, named) ↦
            elim (Bool-cases (is_zero redis d.pending && is_at_least redis min_idle d.idle)) [
              | inr stays ↦
                  rw (named, sweep_listed)
                    (rw (stays, sweep_listed) (left-sweep_listed s g min_idle more deleted r))
              | inl goes ↦
                  rw (named, sweep_listed)
                    (rw (goes, sweep_listed)
                      (left-sweep_listed s g min_idle more (deleted +ℤ pos 1)
                          (redis.delconsumer s g name r)
                        ∙ laws.left-delconsumer s g name r))
            ]
      ]

  pub left-ack :
      (s : Text) (keys : List Text) (g : Text) (ids : List Bytes) (r : R)
      → member key keys ≡ false
      → redis.left key (ack redis s keys g ids r).1 ≡ redis.left key r
  unfolding ack
  left-ack s keys g [] r h = refl
  left-ack s keys g (one ∷ ids) r h =
      let acked = (redis.xack s g (one ∷ ids) r).1 in
      let gone = redis.xdel s (one ∷ ids) acked in
      let both = laws.left-xdel s (one ∷ ids) acked ∙ laws.left-xack s g (one ∷ ids) r in
      elim (Bool-cases (is_empty keys)) [
        | inl nothing ↦ rw nothing both
        | inr some_keys ↦ rw some_keys (laws.left-del keys gone h ∙ both)
      ]

  -- A reclaim under the key finds it there.
  pub reclaim_denied :
      (s g c : Text) (min_idle : ℤ) (id : Bytes) (ttl : ℤ) (n : ℕ) (r : R)
      → Left n r
      → reclaim redis s key g c min_idle id ttl r ≡ ([], r)
  unfolding reclaim
  reclaim_denied s g c min_idle id ttl n r now = rw (laws.exists_left r n now, reclaim)

  left-reclaim_other :
      (s k g c : Text) (min_idle : ℤ) (id : Bytes) (ttl : ℤ) (r : R)
      → same k key ≡ false
      → redis.left key (reclaim redis s k g c min_idle id ttl r).1 ≡ redis.left key r
  unfolding reclaim
  left-reclaim_other s k g c min_idle id ttl r other = elim (Bool-cases (redis.exists k r)) [
    | inl alive ↦ rw (alive, reclaim) refl
    | inr dead ↦
        let r' = (redis.xclaim s g c min_idle id r).1 in
        let moved = laws.left-xclaim s g c min_idle id r in
        elim (Bool-cases (is_empty (redis.xclaim s g c min_idle id r).0)) [
          | inl nothing ↦ rw (dead, reclaim) (rw (nothing, reclaim) moved)
          | inr got ↦
              rw (dead, reclaim)
                (rw (got, reclaim) (laws.left-set_px_other k c ttl r' other ∙ moved))
        ]
  ]

  pub reclaim-Left :
      (s k g c : Text) (min_idle : ℤ) (id : Bytes) (ttl : ℤ) (n : ℕ) (r : R)
      → Left n r
      → Left n (reclaim redis s k g c min_idle id ttl r).1
  reclaim-Left s k g c min_idle id ttl n r now = elim (Bool-cases (same k key)) [
    | inl own ↦ rw (same→eq k key own) (rw (reclaim_denied s g c min_idle id ttl n r now) now)
    | inr other ↦ left-reclaim_other s k g c min_idle id ttl r other ∙ now
  ]
