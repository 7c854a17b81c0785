-- ===== src/Core/Scripts/Claiming/Winner.antt =====
-- Who gets an entry that is reclaimed.
use litestar_rs.Prelude.{
  ℕ, ◌<◌, ◌-◌, Text, Bytes, Bool-cases, false, some, inl, inr, List, [], ◌∷◌, ◌≡◌, refl, ◌∙◌, arith,
  same, same→eq, member,
}
use litestar_rs.Prelude.Int.{ℤ, pos, negsuc, pos_part}
use litestar_rs.Core.Transport.Commands.{
  Command, xgroup_create, xadd, xreadgroup, set_alive, pexpire, delete, set_nx, run_ack,
  xpending_range, time, run_reclaim, run_sweep, xpending, xtrim, xinfo_groups,
}
use litestar_rs.Core.Scripts.{
  Streams, is_empty, reclaim, sweep_consumers, serve, Turn, command, pass,
}
use litestar_rs.Core.Scripts.Claiming.{remaining, Lasts, IsExpiring, claimed}
use litestar_rs.Core.Scripts.Claiming.Renewal.{
  Left, set_all_apart, set_all-Left, expire_all_apart, expire_all-Left, left-sweep_listed, left-ack,
  reclaim_denied, reclaim-Left,
}

pos-pos_part : (ttl : ℤ) → 0 < pos_part ttl → pos (pos_part ttl) ≡ ttl
pos-pos_part (pos n) h = refl
pos-pos_part (negsuc n) h = absurd (omega arith)

module _ {R : Type 0} (redis : Streams R) (key : Text) (laws : IsExpiring redis key) where
  serve-Left :
      (c : Command) (n : ℕ) (r : R)
      → Left redis key laws n r
      → 0 < remaining key n (command c)
      → Left redis key laws (remaining key n (command c)) (serve redis c r).1
  unfolding serve sweep_consumers
  serve-Left (xgroup_create s g) n r now h = laws.left-create s g r ∙ now
  serve-Left (xadd s fields) n r now h = laws.left-add s fields r ∙ now
  serve-Left (xreadgroup g c streams count block) n r now h =
      laws.left-read g c streams count r ∙ now
  serve-Left (set_alive keys c ttl) n r now h = elim (Bool-cases (member key keys)) [
    | inl own ↦
        let lasting : 0 < pos_part ttl = ground arith in
        rw (own, ← pos-pos_part ttl lasting)
          (set_all-Left redis key laws keys c (pos_part ttl) r lasting own)
    | inr other ↦ rw other (set_all_apart redis key laws keys c ttl r other ∙ now)
  ]
  serve-Left (pexpire keys ttl) n r now h = elim (Bool-cases (member key keys)) [
    | inl own ↦
        let lasting : 0 < pos_part ttl = ground arith in
        rw (own, ← pos-pos_part ttl lasting)
          (expire_all-Left redis key laws keys (pos_part ttl) n r lasting own now)
    | inr other ↦ rw other (expire_all_apart redis key laws keys ttl r other ∙ now)
  ]
  serve-Left (delete keys) n r now h = elim (Bool-cases (member key keys)) [
    | inl own ↦ absurd (ground arith)
    | inr other ↦ rw other (laws.left-del keys r other ∙ now)
  ]
  serve-Left (set_nx k value ttl) n r now h = laws.left-set_nx k value ttl n r now
  serve-Left (run_ack s keys g ids) n r now h = elim (Bool-cases (member key keys)) [
    | inl own ↦ absurd (ground arith)
    | inr other ↦ rw other (left-ack redis key laws s keys g ids r other ∙ now)
  ]
  serve-Left (run_reclaim s k g c min_idle id ttl) n r now h =
      reclaim-Left redis key laws s k g c min_idle id ttl n r now
  serve-Left (run_sweep s g min_idle) n r now h =
      left-sweep_listed redis key laws s g min_idle (redis.xinfo_consumers s g r) (pos 0) r ∙ now
  serve-Left (xtrim s limit) n r now h = laws.left-trim s limit r ∙ now
  serve-Left (xpending_range s g count idle) n r now h = now
  serve-Left time n r now h = now
  serve-Left (xpending s g) n r now h = now
  serve-Left (xinfo_groups s) n r now h = now

  Lasts-pos : (n : ℕ) (turns : List Turn) → Lasts key n turns → 0 < n
  Lasts-pos n [] h = h
  Lasts-pos n (turn ∷ turns) h = h.0

  -- As long as the liveness key of an entry is there with time left, no reclaim under it gets
  -- anything, whichever workers ask and whatever other commands and passing of time come between:
  -- the key stays through every turn that leaves it milliseconds, as the heartbeat does that sets its
  -- time anew before it has run out.
  pub claimed-alive :
      (n : ℕ) (turns : List Turn) (r : R)
      → redis.left key r ≡ some n
      → Lasts key n turns
      → claimed redis key turns r ≡ []
  unfolding claimed
  claimed-alive n [] r now h = refl
  claimed-alive n (command (run_reclaim s k g c min_idle id ttl) ∷ turns) r now (first, rest) =
      let r' = (reclaim redis s k g c min_idle id ttl r).1 in
      let later =
        claimed-alive n turns r' (reclaim-Left redis key laws s k g c min_idle id ttl n r now)
          rest in
      elim (Bool-cases (same k key)) [
        | inr other ↦ rw other later
        | inl own ↦
            let denied : (reclaim redis s k g c min_idle id ttl r).0 ≡ [] =
              rw (same→eq k key own)
                (rw (reclaim_denied redis key laws s g c min_idle id ttl n r now) refl) in
            rw own (rw denied later)
      ]
  claimed-alive n (pass m ∷ turns) r now (first, rest) =
      let lasting = Lasts-pos (n - m) turns rest in
      claimed-alive (n - m) turns (redis.pass m r) (laws.left-pass m n r (omega arith) now) rest
  claimed-alive n (command c ∷ turns) r now (first, rest) =
      claimed-alive (remaining key n (command c)) turns (serve redis c r).1
        (serve-Left c n r now (Lasts-pos (remaining key n (command c)) turns rest)) rest

  -- Of the workers that try to take the entry of a worker that is gone, one wins: after a reclaim
  -- under the key that got something, no other under it gets anything while the key lasts, which the
  -- reclaim itself has set.
  pub claimed-reclaim :
      (s g c : Text) (min_idle : ℤ) (id : Bytes) (ttl : ℕ) (turns : List Turn) (r : R)
      → is_empty (reclaim redis s key g c min_idle id (pos ttl) r).0 ≡ false
      → Lasts key ttl turns
      → claimed redis key turns (reclaim redis s key g c min_idle id (pos ttl) r).1 ≡ []
  unfolding reclaim
  claimed-reclaim s g c min_idle id ttl turns r won h = elim (Bool-cases (redis.exists key r)) [
    | inl alive ↦ absurd (ground arith)
    | inr dead ↦
        let r' = (redis.xclaim s g c min_idle id r).1 in
        elim (Bool-cases (is_empty (redis.xclaim s g c min_idle id r).0)) [
          | inl nothing ↦ absurd (ground arith)
          | inr got ↦
              rw (dead, reclaim)
                (rw (got, reclaim)
                  (claimed-alive ttl turns (redis.set_px key c (pos ttl) r')
                    (laws.left-set_px c ttl r' (Lasts-pos ttl turns h)) h))
        ]
  ]
