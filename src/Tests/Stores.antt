-- ===== src/Tests/Stores.antt =====
-- A result store on a Redis that keeps what was written, and an enqueuer that collects.
use litestar_rs.Prelude.{
  zero, suc, Bytes, text, Bool, true, false, Option, some, none, [], ◌∷◌, ◌++◌, ◌≡◌, refl, map,
  ◌==◌, if◌then◌else◌,
}
use litestar_rs.Prelude.Int.{ℤ, pos}
use litestar_rs.Effect.{returned, perform}
use litestar_rs.Core.Envelope.{TaskResult}
use litestar_rs.Core.Results.{Msgpack, RedisResultStore, Replies, store, get, wait}
use litestar_rs.Core.Results.Stored.{last_written, get-store}

-- A text that ends at the first zero, and what follows.
abbrev split : Bytes → Bytes × Bytes
split [] = ([], [])
split (zero ∷ s) = ([], s)
split (suc n ∷ s) = let (value, rest) = split s in (n ∷ value, rest)

split-shifted : (value rest : Bytes) → split (map suc value ++ zero ∷ rest) ≡ (value, rest)
split-shifted [] rest = refl
split-shifted (n ∷ value) rest = rw (split-shifted value rest) refl

abbrev flag : Bool → Bytes
flag true = 1 ∷ []
flag false = 0 ∷ []

abbrev encode : TaskResult → Bytes
encode r = (if r.success then 1 else 0) ∷ (map suc r.value ++ zero ∷ r.error)

abbrev decode : Bytes → Option TaskResult
decode [] = none
decode (b ∷ s) =
    let (value, rest) = split s in some (record { success = b == 1; value = value; error = rest })

flag_read : (b : Bool) → ((if b then 1 else 0) == 1) ≡ b
flag_read true = refl
flag_read false = refl

decode-encode : (r : TaskResult) → decode (encode r) ≡ some r
decode-encode r = rw (split-shifted r.value r.error) (rw (flag_read r.success) refl)

abbrev packed : Msgpack
packed = record { encode = encode; decode = decode; decode-encode = decode-encode }

abbrev replies : Replies ℤ
replies = record {
  done = λ t. returned tt;
  value_of = λ key t. returned (last_written key t);
  woken = λ t. returned false;
}

abbrev results : RedisResultStore
results = record { namespace = text "lrs"; default_ttl_ms = pos 3600000 }

abbrev receipt : TaskResult
receipt = record { success = true; value = text "42"; error = [] }

get-store_example :
    ((get packed replies results
        (text "j1")
        (store packed replies results
          (text "j1")
          receipt
          none
          (record { state = tt; trace = [] })).1).0
      ≡ returned (some receipt))
    × (wait packed replies results
          (text "j1")
          (pos 5)
          (store packed replies results
            (text "j1")
            receipt
            none
            (record { state = tt; trace = [] })).1
        ≡ get packed replies results
            (text "j1")
            (store packed replies results
              (text "j1")
              receipt
              none
              (record { state = tt; trace = [] })).1)
unfolding store perform
get-store_example =
    get-store packed replies results (text "j1") receipt none (pos 5)
      (record { state = tt; trace = [] }) (λ key t. refl) refl
