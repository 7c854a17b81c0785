-- ===== src/Core/Scripts/Keeping/Always.antt =====
-- What any sequence of commands does to an entry.
use litestar_rs.Prelude.{
  Text, Bytes, Bool-cases, List, [], ◌∷◌, ◌≢◌, inl, inr, ◌∙◌, All, All-imp, All-any, same, same→eq,
}
use litestar_rs.Prelude.Int.{ℤ, pos}
use litestar_rs.Core.Transport.Commands.{
  Command, xgroup_create, xadd, xreadgroup, set_alive, pexpire, delete, set_nx, run_ack,
  xpending_range, time, run_reclaim, run_sweep, xpending, xtrim, xinfo_groups,
}
use litestar_rs.Core.Scripts.{
  Streams, is_empty, reclaim, sweep_consumers, serve, Turn, command, pass, after_all,
}
use litestar_rs.Core.Scripts.Keeping.{IsKept, IsDocumented, IsSparing}
use litestar_rs.Core.Scripts.Keeping.Steps.{
  Same-Kept, set_all-Same, expire_all-Same, ack-Same, IsHarmless, sweep_listed-Same, same_false→ne,
}

module _ {R : Type 0} (redis : Streams R) (stream group : Text) (id : Bytes)
    (laws : IsDocumented redis stream group id) where
  listed-Harmless :
      (s g : Text) (r : R)
      → All (IsHarmless redis stream group id laws s g r) (redis.xinfo_consumers s g r)
  listed-Harmless s g r = elim (Bool-cases (same s stream)) [
    | inr other ↦
        All-any (redis.xinfo_consumers s g r) (λ consumer. inl (same_false→ne s stream other))
    | inl one ↦ elim (Bool-cases (same g group)) [
      | inr other ↦
          All-any (redis.xinfo_consumers s g r)
            (λ consumer. inr (inl (same_false→ne g group other)))
      | inl two ↦ rw (same→eq s stream one) (
          rw (same→eq g group two) (
            All-imp (redis.xinfo_consumers stream group r) (λ consumer t. inr (inr t))
              (laws.told r)))
    ]
  ]

  move-Kept :
      (s g c : Text) (min_idle : ℤ) (other : Bytes) (r : R)
      → IsKept redis stream group id r
      → IsKept redis stream group id (redis.xclaim s g c min_idle other r).1
  move-Kept s g c min_idle other r (there, kept) =
      elim (laws.xclaim_moves s g c min_idle other r there) [
        | inl same_r ↦
            Same-Kept redis stream group id laws r (redis.xclaim s g c min_idle other r).1 same_r
              (there, kept)
        | inr (still, held) ↦ (still, inr (c, held))
      ]

  reclaim-IsKept :
      (s key g c : Text) (min_idle : ℤ) (other : Bytes) (ttl : ℤ) (r : R)
      → key ≢ stream
      → IsKept redis stream group id r
      → IsKept redis stream group id (reclaim redis s key g c min_idle other ttl r).1
  unfolding reclaim
  reclaim-IsKept s key g c min_idle other ttl r apart kept =
      elim (Bool-cases (redis.exists key r)) [
        | inl alive ↦ rw (alive, reclaim) kept
        | inr dead ↦
            let r' = (redis.xclaim s g c min_idle other r).1 in
            let moved = move-Kept s g c min_idle other r kept in
            elim (Bool-cases (is_empty (redis.xclaim s g c min_idle other r).0)) [
              | inl nothing ↦ rw (dead, reclaim) (rw (nothing, reclaim) moved)
              | inr claimed ↦
                  rw (dead, reclaim)
                    (rw (claimed, reclaim)
                      (Same-Kept redis stream group id laws r' (redis.set_px key c ttl r')
                        (laws.set_apart key c ttl r' apart) moved))
            ]
      ]

  serve-IsKept :
      (c : Command) (r : R)
      → IsSparing redis stream group id (command c)
      → IsKept redis stream group id r
      → IsKept redis stream group id (serve redis c r).1
  unfolding serve sweep_consumers
  serve-IsKept (xgroup_create s g) r h kept =
      Same-Kept redis stream group id laws r _ (laws.create_apart s g r) kept
  serve-IsKept (xadd s fields) r h kept =
      Same-Kept redis stream group id laws r _ (laws.add_apart s fields r kept.0) kept
  serve-IsKept (xreadgroup g c streams count block) r h (there, kept) =
      elim (laws.read_delivers g c streams count r) [
        | inl same_r ↦ Same-Kept redis stream group id laws r _ same_r (there, kept)
        | inr (still, new, held) ↦ (still ∙ there, inr (c, held))
      ]
  serve-IsKept (set_alive keys c ttl) r h kept =
      Same-Kept redis stream group id laws r _
        (set_all-Same redis stream group id laws keys c ttl r h) kept
  serve-IsKept (pexpire keys ttl) r h kept =
      Same-Kept redis stream group id laws r _
        (expire_all-Same redis stream group id laws keys ttl r h) kept
  serve-IsKept (delete keys) r h kept =
      Same-Kept redis stream group id laws r _ (laws.del_apart keys r h) kept
  serve-IsKept (set_nx key value ttl) r h kept =
      Same-Kept redis stream group id laws r _ (laws.set_nx_apart key value ttl r h) kept
  serve-IsKept (run_ack s keys g ids) r (spared, apart) kept =
      Same-Kept redis stream group id laws r _
        (ack-Same redis stream group id laws s keys g ids r spared apart) kept
  serve-IsKept (run_reclaim s key g c min_idle other ttl) r h kept =
      reclaim-IsKept s key g c min_idle other ttl r h kept
  serve-IsKept (run_sweep s g min_idle) r h kept =
      Same-Kept redis stream group id laws r _
        (sweep_listed-Same redis stream group id laws s g min_idle (redis.xinfo_consumers s g r)
          (pos 0) r (listed-Harmless s g r))
        kept
  serve-IsKept (xtrim s limit) r h kept =
      Same-Kept redis stream group id laws r _ (laws.trim_apart s limit r h) kept
  serve-IsKept (xpending_range s g count idle) r h kept = kept
  serve-IsKept time r h kept = kept
  serve-IsKept (xpending s g) r h kept = kept
  serve-IsKept (xinfo_groups s) r h kept = kept

  -- Whatever commands any number of workers and enqueuers give, in whatever order and with whatever
  -- time between them, an entry that is in its stream stays there, with the group still to deliver it
  -- or holding it as pending for some consumer, as long as no acknowledgement names it, no trim goes
  -- as far as it, and no key that is set, expired or deleted is the stream's: under the documented
  -- behaviour of Redis, no reclaim and no sweep of consumers loses an entry.
  pub after_all-IsKept :
      (turns : List Turn) (r : R)
      → All (IsSparing redis stream group id) turns
      → IsKept redis stream group id r
      → IsKept redis stream group id (after_all redis turns r)
  unfolding after_all
  after_all-IsKept [] r h kept = kept
  after_all-IsKept (command c ∷ turns) r (first, rest) kept =
      after_all-IsKept turns (serve redis c r).1 rest (serve-IsKept c r first kept)
  after_all-IsKept (pass n ∷ turns) r (first, rest) kept =
      after_all-IsKept turns (redis.pass n r) rest
        (Same-Kept redis stream group id laws r _ (laws.pass_apart n r) kept)
