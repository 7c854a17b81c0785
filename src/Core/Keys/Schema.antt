-- ===== src/Core/Keys/Schema.antt =====
-- Keys that are meant to differ do differ, and all keys of a namespace share its hash tag.
use litestar_rs.Prelude.{
  ℕ, zero, suc, ◌+◌, ◌%◌, ◌<◌, Text, Bytes, true, false, some, [], ◌∷◌, ◌++◌, map, length,
  get_elem?, has_char, ◌==◌, ◌≡◌, ◌≢◌, refl, ap, arith, length-map, Bool-cases, ◌⊎◌, inl, inr,
  if◌then◌else◌,
}
use litestar_rs.Prelude.Int.{ℤ, pos, ltb_ℤ, pos_part}
use litestar_rs.Python.{Python, configuration_error}
use litestar_rs.Effect.{returned, raised}
use litestar_rs.Core.Keys.{
  validate, range_from, tagged, stream_key, stream_keys, stream_for, alive_key, dedup_key,
  sched_key, sched_job_key, leader_key, result_key, result_wait_key, dlq_key,
}

tail_of : Text → Text
tail_of [] = []
tail_of (c ∷ s) = s

head_of : Text → ℕ
head_of [] = 0
head_of (c ∷ s) = c

-- Where a separator ends a text that does not hold it, the text and what follows are determined.
split_unique :
    (c : ℕ) (s t u v : Text)
    → has_char c s ≡ false
    → has_char c t ≡ false
    → s ++ (c ∷ u) ≡ t ++ (c ∷ v)
    → (s ≡ t) × (u ≡ v)
unfolding has_char head_of tail_of
split_unique c [] [] u v hs ht e = (refl, ap tail_of e)
split_unique c [] (b ∷ t) u v hs ht e = absurd (let h : c ≡ b = ap head_of e in ground arith)
split_unique c (a ∷ s) [] u v hs ht e = absurd (let h : a ≡ c = ap head_of e in ground arith)
split_unique c (a ∷ s) (b ∷ t) u v hs ht e =
    let h : a ≡ b = ap head_of e in
    let (rest, after) = split_unique c s t u v (ground arith) (ground arith) (ap tail_of e) in
    (cc, after)

pub str_int-injective : (py : Python) (a b : ℤ) → py.str_int a ≡ py.str_int b → a ≡ b
str_int-injective py a b e = cc (py.int-str a, py.int-str b)

-- A name that the schema accepts.
abbrev pub IsValid : Text → Type 0
IsValid name = validate name ≡ returned name

IsValid-free :
    (name : Text)
    → IsValid name
    → (has_char b'{' name ≡ false) × (has_char b'}' name ≡ false) × (has_char b':' name ≡ false)
unfolding validate
IsValid-free name h = ground arith

-- The part of a key that decides its Cluster slot: what stands between the first `{` and the next
-- `}`, as the Redis Cluster specification says.
until : ℕ → Text → Text
until c [] = []
until c (a ∷ s) = let rest = until c s in if a == c then [] else a ∷ rest

pub hash_tag : Text → Text
hash_tag [] = []
hash_tag (c ∷ s) = let rest = hash_tag s in if c == b'{' then until b'}' s else rest

until-append : (c : ℕ) (s t : Text) → has_char c s ≡ false → until c (s ++ (c ∷ t)) ≡ s
unfolding until has_char
until-append c [] t h = ground arith
until-append c (a ∷ s) t h = ground (arith, until-append c s t)

hash_tag-tagged :
    (namespace rest : Text) → IsValid namespace → hash_tag (tagged namespace rest) ≡ namespace
unfolding hash_tag tagged
hash_tag-tagged namespace rest ok =
    until-append b'}' namespace (b':' ∷ rest) (IsValid-free namespace ok).1

first_differs : (a b : ℕ) → a ≡ b → (a == b) ≡ false → ⊥
first_differs a b e differ = absurd (ground arith)

module _ (py : Python) where
  -- Two streams of accepted namespaces and queues have one key only where they are of the same
  -- namespace, the same queue and the same shard.
  pub stream_key-injective :
      (n m q r : Text) (i j : ℕ)
      → IsValid n
      → IsValid m
      → IsValid q
      → IsValid r
      → stream_key py n q i ≡ stream_key py m r j
      → (n ≡ m) × (q ≡ r) × (i ≡ j)
  unfolding stream_key tail_of
  stream_key-injective n m q r i j vn vm vq vr e =
      let (same_name, rest) =
        split_unique b'}' n m _ _ (IsValid-free n vn).1 (IsValid-free m vm).1 (ap tail_of e) in
      let (same_queue, shards) =
        split_unique b':' q r _ _ (IsValid-free q vq).2 (IsValid-free r vr).2
          (ap (λ s. tail_of (tail_of (tail_of s))) rest) in
      (same_name, same_queue, ap pos_part (str_int-injective py (pos i) (pos j) shards))

  -- What stands behind the namespace tells a stream from the other keys.
  pub alive_key-ne-stream_key :
      (n m q : Text) (entry_id : Bytes) (i : ℕ)
      → IsValid n
      → IsValid m
      → alive_key m entry_id ≢ stream_key py n q i
  unfolding stream_key alive_key tail_of head_of
  alive_key-ne-stream_key n m q entry_id i vn vm e =
      let (same_name, rest) =
        split_unique b'}' m n _ _ (IsValid-free m vm).1 (IsValid-free n vn).1 (ap tail_of e) in
      first_differs b'a' b'q' (ap (λ s. head_of (tail_of s)) rest) refl

  pub dedup_key-ne-stream_key :
      (n m q key : Text) (i : ℕ) → IsValid n → IsValid m → dedup_key m key ≢ stream_key py n q i
  unfolding stream_key dedup_key tail_of head_of
  dedup_key-ne-stream_key n m q key i vn vm e =
      let (same_name, rest) =
        split_unique b'}' m n _ _ (IsValid-free m vm).1 (IsValid-free n vn).1 (ap tail_of e) in
      first_differs b'd' b'q' (ap (λ s. head_of (tail_of s)) rest) refl

  -- Every key of an accepted namespace has the namespace for its hash tag, so all of them land in
  -- one Cluster slot, whatever queue, id or key they are built from.
  pub hash_tag_shared :
      (namespace name : Text) (shard : ℕ)
      → IsValid namespace
      → (hash_tag (stream_key py namespace name shard) ≡ namespace)
        × (hash_tag (alive_key namespace name) ≡ namespace)
        × (hash_tag (dedup_key namespace name) ≡ namespace)
        × (hash_tag (sched_key namespace) ≡ namespace)
        × (hash_tag (sched_job_key namespace name) ≡ namespace)
        × (hash_tag (leader_key namespace) ≡ namespace)
        × (hash_tag (result_key namespace name) ≡ namespace)
        × (hash_tag (result_wait_key namespace name) ≡ namespace)
        × (hash_tag (dlq_key namespace) ≡ namespace)
  unfolding stream_key alive_key dedup_key sched_key sched_job_key leader_key result_key
      result_wait_key dlq_key
  hash_tag_shared namespace name shard ok =
      (tag _, tag _, tag _, tag _, tag _, tag _, tag _, tag _, tag _)
    where
      tag : (rest : Text) → hash_tag (tagged namespace rest) ≡ namespace
      tag rest = hash_tag-tagged namespace rest ok

length-range_from : (start n : ℕ) → length (range_from start n) ≡ n
unfolding range_from
length-range_from start zero = refl
length-range_from start (suc n) = ap suc (length-range_from (suc start) n)

get_elem?-range :
    (f : ℕ → Text) (start n i : ℕ)
    → i < n
    → get_elem? (map f (range_from start n)) i ≡ some (f (start + i))
unfolding range_from
get_elem?-range f start zero i h = elim h [ ]
get_elem?-range f start (suc n) zero h = let e : start + 0 ≡ start = omega arith in rw e
get_elem?-range f start (suc n) (suc i) h =
    let e : start + suc i ≡ suc start + i = omega arith in
    rw e (get_elem?-range f (suc start) n i (omega arith))

module _ (py : Python) (crc32 : Bytes → ℕ) (namespace queue : Text) (shards : ℤ)
    (routing_key : Text) where
  -- With at least one shard a routing key is sent to the stream of a shard below the count, which
  -- its checksum alone decides; with fewer it is refused.
  pub stream_for_cases :
      ((ltb_ℤ shards (pos 1) ≡ false)
        × (stream_for py crc32 namespace queue shards routing_key
            ≡ returned
                (stream_key py namespace queue (crc32 (py.encode routing_key) % pos_part shards)))
        × (crc32 (py.encode routing_key) % pos_part shards < pos_part shards))
      ⊎ ((ltb_ℤ shards (pos 1) ≡ true)
          × (stream_for py crc32 namespace queue shards routing_key ≡ raised configuration_error))
  unfolding stream_for stream_keys
  stream_for_cases = elim (Bool-cases (ltb_ℤ shards (pos 1))) [
    | inl few ↦ inr (few, rw few)
    | inr many ↦
        let below : crc32 (py.encode routing_key) % pos_part shards < pos_part shards =
          ground arith in
        inl (
          many,
          rw many (
              rw length-map (
                rw length-range_from (
                  rw (get_elem?-range (stream_key py namespace queue) 0 (pos_part shards) _ below)
                    (ap (λ i. returned (stream_key py namespace queue i)) (omega arith))))),
          below,
        )
  ]
