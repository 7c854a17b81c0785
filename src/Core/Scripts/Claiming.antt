-- ===== src/Core/Scripts/Claiming.antt =====
-- An entry under its liveness key: reclaim.lua beside what the heartbeats of workers do to the key.
pub mod Renewal
pub mod Winner
use litestar_rs.Prelude.{
  ℕ, zero, ◌<◌, ◌-◌, Text, Bytes, Bool, Bool-cases, true, false, ◌&&◌, Option, Option-cases, some,
  ◌⊎◌, inl, inr, List, [], ◌∷◌, ◌++◌, ◌≡◌, refl, sym, ap, ◌∙◌, arith, same, same_refl, same→eq,
  member, if◌then◌else◌,
}
use litestar_rs.Prelude.Int.{ℤ, pos, negsuc, ◌+ℤ◌, pos_part}
use litestar_rs.Core.Envelope.{Fields}
use litestar_rs.Core.Transport.Commands.{
  Command, Entry, xgroup_create, xadd, xreadgroup, set_alive, pexpire, delete, set_nx, run_ack,
  xpending_range, time, run_reclaim, run_sweep, xpending, xtrim, xinfo_groups,
}
use litestar_rs.Core.Scripts.{
  Streams, nothing_described, describe, is_zero, is_at_least, is_empty, ack, reclaim, sweep_listed,
  sweep_consumers, set_all, expire_all, serve, Turn, command, pass, answer, after_all,
}

module _ (key : Text) where
  -- The milliseconds that the key has left after a turn, of `n` before it: none, once it is deleted.
  abbrev pub remaining : ℕ → Turn → ℕ
  remaining n (command (set_alive keys consumer ttl)) = if member key keys then pos_part ttl else n
  remaining n (command (pexpire keys ttl)) = if member key keys then pos_part ttl else n
  remaining n (command (delete keys)) = if member key keys then 0 else n
  remaining n (command (run_ack stream keys group ids)) = if member key keys then 0 else n
  remaining n (command other) = n
  remaining n (pass m) = n - m

  -- The key is there all the time.
  abbrev pub Lasts : ℕ → List Turn → Type 0
  Lasts n [] = 0 < n
  Lasts n (turn ∷ turns) = (0 < n) × Lasts (remaining n turn) turns

module _ {R : Type 0} (redis : Streams R) (key : Text) where
  -- What Redis documents of a key that expires.
  pub record IsExpiring : Type 0 where
    pub exists_left : (r : R) (n : ℕ) → redis.left key r ≡ some n → redis.exists key r ≡ true
    pub left-set_px :
        (value : Text) (ttl : ℕ) (r : R)
        → 0 < ttl
        → redis.left key (redis.set_px key value (pos ttl) r) ≡ some ttl
    pub left-set_px_other :
        (k value : Text) (ttl : ℤ) (r : R)
        → same k key ≡ false
        → redis.left key (redis.set_px k value ttl r) ≡ redis.left key r
    pub left-expire :
        (ttl n : ℕ) (r : R)
        → 0 < ttl
        → redis.left key r ≡ some n
        → redis.left key (redis.expire key (pos ttl) r) ≡ some ttl
    pub left-expire_other :
        (k : Text) (ttl : ℤ) (r : R)
        → same k key ≡ false
        → redis.left key (redis.expire k ttl r) ≡ redis.left key r
    pub left-set_nx :
        (k value : Text) (ttl : ℤ) (n : ℕ) (r : R)
        → redis.left key r ≡ some n
        → redis.left key (redis.set_nx_px k value ttl r) ≡ some n
    pub left-del :
        (keys : List Text) (r : R)
        → member key keys ≡ false
        → redis.left key (redis.del keys r) ≡ redis.left key r
    pub left-pass :
        (m n : ℕ) (r : R)
        → m < n
        → redis.left key r ≡ some n
        → redis.left key (redis.pass m r) ≡ some (n - m)
    pub left-create :
        (s g : Text) (r : R) → redis.left key (redis.create_group s g r) ≡ redis.left key r
    pub left-add :
        (s : Text) (fields : Fields) (r : R)
        → redis.left key (redis.add s fields r) ≡ redis.left key r
    pub left-read :
        (g c : Text) (streams : List Text) (count : ℤ) (r : R)
        → redis.left key (redis.read_group g c streams count r) ≡ redis.left key r
    pub left-xack :
        (s g : Text) (ids : List Bytes) (r : R)
        → redis.left key (redis.xack s g ids r).1 ≡ redis.left key r
    pub left-xdel :
        (s : Text) (ids : List Bytes) (r : R)
        → redis.left key (redis.xdel s ids r) ≡ redis.left key r
    pub left-xclaim :
        (s g c : Text) (min_idle : ℤ) (id : Bytes) (r : R)
        → redis.left key (redis.xclaim s g c min_idle id r).1 ≡ redis.left key r
    pub left-trim :
        (s : Text) (limit : ℤ) (r : R) → redis.left key (redis.trim s limit r) ≡ redis.left key r
    pub left-delconsumer :
        (s g name : Text) (r : R) → redis.left key (redis.delconsumer s g name r) ≡ redis.left key r

  -- The entries that the reclaims under the key get, in order.
  unfoldable pub claimed : List Turn → R → List Entry
  claimed [] r = []
  claimed (command (run_reclaim s k g c min_idle id ttl) ∷ turns) r =
      let (got, r') = reclaim redis s k g c min_idle id ttl r in
      let rest = claimed turns r' in if same k key then got ++ rest else rest
  claimed (turn ∷ turns) r = claimed turns (answer redis turn r).1
