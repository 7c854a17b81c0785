-- ===== src/Tests/KeyNames.antt =====
-- The keys of one namespace.
use litestar_rs.Prelude.{ℕ, ◌≡◌, refl, text, has_char}
use litestar_rs.Python.{plain}
use litestar_rs.Core.Keys.{
  validate, stream_key, alive_key, dedup_key, sched_key, sched_job_key, leader_key, result_key,
  result_wait_key, dlq_key,
}
use litestar_rs.Core.Keys.Schema.{hash_tag, stream_key-injective, hash_tag_shared}

stream_key-injective_example :
    (text "lrs" ≡ text "lrs") × (text "default" ≡ text "default") × (◌≡◌ {A = ℕ} 1 1)
unfolding validate has_char
stream_key-injective_example =
    stream_key-injective plain (text "lrs") (text "lrs") (text "default") (text "default") 1 1 refl
      refl refl refl refl

hash_tag_shared_example :
    (hash_tag (stream_key plain (text "lrs") (text "default") 1) ≡ text "lrs")
    × (hash_tag (alive_key (text "lrs") (text "default")) ≡ text "lrs")
    × (hash_tag (dedup_key (text "lrs") (text "default")) ≡ text "lrs")
    × (hash_tag (sched_key (text "lrs")) ≡ text "lrs")
    × (hash_tag (sched_job_key (text "lrs") (text "default")) ≡ text "lrs")
    × (hash_tag (leader_key (text "lrs")) ≡ text "lrs")
    × (hash_tag (result_key (text "lrs") (text "default")) ≡ text "lrs")
    × (hash_tag (result_wait_key (text "lrs") (text "default")) ≡ text "lrs")
    × (hash_tag (dlq_key (text "lrs")) ≡ text "lrs")
unfolding validate has_char
hash_tag_shared_example = hash_tag_shared plain (text "lrs") (text "default") 1 refl
