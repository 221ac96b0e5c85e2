-- ===== src/Queue/Grow.antt =====
-- The loop of `extend` and `extendStr`: it ends, and what it reaches is large enough.
use circle.Prelude.{ℕ, zero, suc, ◌+◌, ◌^◌, ◌≤◌, ◌<◌, ◌≡◌, ◌⊎◌, inl, arith}
use circle.Queue.{u64, grow}

-- With a positive step, no wrap-around and enough fuel the loop has ended by its own test: the size
-- it returns covers the amount, is no smaller than the old one, and is either the old size or less
-- than one step above the amount.
pub grow_bounds :
    (fuel step size amount : ℕ)
    → 0 < step
    → amount + step ≤ 2 ^ 64
    → amount < size + fuel
    → (amount ≤ grow fuel step size amount)
      × (size ≤ grow fuel step size amount)
      × ((grow fuel step size amount ≡ size) ⊎ (grow fuel step size amount < amount + step))
unfolding grow
grow_bounds zero step size amount pos room enough = (omega arith, omega arith, inl (omega arith))
grow_bounds (suc fuel) step size amount pos room enough =
    ground (arith, grow_bounds fuel step (u64 (size + step)) amount pos room)
