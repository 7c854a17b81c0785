-- ===== src/Core/Transport/Order.antt =====
-- The order in which a read tries the queues.
use mathlib.Core.List.Perm
use mathlib.Core.List.{reverse, Perm, reverse_perm}
use native.Mathlib.Nat.{div-add-mod, mod-lt, mul-mod_right}
use litestar_rs.Prelude.{
  ℕ, suc, ◌+◌, ◌-◌, ◌*◌, ◌/◌, ◌%◌, ◌<◌, ◌≡◌, arith, ◌==◌, Bool, true, false, not, ◌&&◌,
  if◌then◌else◌,
}
use litestar_rs.Python.{Python}
use litestar_rs.Core.Transport.{Transport, priority_order}
use litestar_rs.Core.Transport.Commands.{Redis}

-- The pass of a window of `k` passes on which the number of passes is a multiple of `k`.
abbrev pub turn : ℕ → ℕ → ℕ
turn passes k = k - 1 - passes % k

suc-turn : (passes k : ℕ) → 0 < k → suc (passes + turn passes k) ≡ k * (passes / k + 1)
suc-turn passes k h = omega (arith, div-add-mod passes k, mod-lt passes h)

module _ (py : Python) (redis : Redis) (self : Transport) where
  -- With fairness on, among any `fairness_every` passes in a row there is one on which the queues
  -- are tried in reverse, so that the lowest gets first refusal.
  pub priority_order_fair :
      (passes : ℕ)
      → 0 < self.fairness_every
      → (i : ℕ) × (i < self.fairness_every)
        × (priority_order py redis self (passes + i) ≡ reverse self.queues)
  unfolding priority_order
  priority_order_fair passes on = (turn passes k, omega (arith, mod-lt passes on), reversed)
    where
      open self use {fairness_every as k}

      zero_mod : suc (passes + turn passes k) % k ≡ 0
      zero_mod = rw (suc-turn passes k on) (mul-mod_right k (passes / k + 1))

      reversed :
          (if not (k == 0) && suc (passes + turn passes k) % k == 0
            then reverse self.queues
            else self.queues)
          ≡ reverse self.queues
      reversed = rw zero_mod (ground arith)

  -- Every pass tries each queue, as often as it was configured.
  pub priority_order-perm : (passes : ℕ) → Perm (priority_order py redis self passes) self.queues
  unfolding priority_order
  priority_order-perm passes = go _
    where
      go : (b : Bool) → Perm (if b then reverse self.queues else self.queues) self.queues
      go true = reverse_perm self.queues
      go false = Perm.refl self.queues
