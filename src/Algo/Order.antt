-- ===== src/Algo/Order.antt =====
-- `cmp_lock` of libs/algo.c on numbers below 2 ^ 31, where the difference does not wrap.
use mips_os.Common.{ℕ, ◌^◌, ◌≤◌, ◌<◌, ◌≡◌, true, false, arith}
use mips_os.Algo.{cmp_lock}

module _ (lock_id : ℕ → ℕ) (small : (a : ℕ) → lock_id a < 2 ^ 31) where
  pub cmp_lock-lt : (x y : ℕ) → cmp_lock lock_id x y ≡ true → lock_id x < lock_id y
  unfolding cmp_lock
  cmp_lock-lt x y h = ground (arith, small x, small y, h)

  pub cmp_lock_less : (x y : ℕ) → lock_id x < lock_id y → cmp_lock lock_id x y ≡ true
  unfolding cmp_lock
  cmp_lock_less x y h = ground (arith, small x, small y, h)

  pub cmp_lock_not_less : (x y : ℕ) → lock_id y ≤ lock_id x → cmp_lock lock_id x y ≡ false
  unfolding cmp_lock
  cmp_lock_not_less x y h = ground (arith, small x, small y, h)
