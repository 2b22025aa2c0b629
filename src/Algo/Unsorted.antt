-- ===== src/Algo/Unsorted.antt =====
-- That `qsort` of libs/algo.c does not sort: the element it compares with moves along with `last`.
use mips_os.Common.{ℕ, suc, ◌+◌, ◌-◌, ◌≤◌, ◌<◌, ◌≡◌, refl}
use mips_os.Common.{Bool, true, false}
use mips_os.Common.{arith, leb}
use mips_os.Common.{ok, ◌>>=◌, Ends}
use mips_os.Common.{Ends}
use mips_os.Common.{◌^◌}
use mips_os.Algo.Order.{cmp_lock_less, cmp_lock_not_less}
use mips_os.Algo.{swap, partition_from, qsort, cmp_lock}

first_pass :
    (lock_id : ℕ → ℕ) (small : (a : ℕ) → lock_id a < 2 ^ 31) (b : ℕ → ℕ)
    → lock_id (b 1) < lock_id (b 0)
    → lock_id (b 1) ≤ lock_id (b 2)
    → partition_from (cmp_lock lock_id) 3 0 0 b ≡ (swap b 1 1, 1)
unfolding partition_from swap
first_pass lock_id small b low high =
    rw
      (
        cmp_lock_not_less lock_id small (b 0) (b 0) (omega arith),
        cmp_lock_less lock_id small (b 1) (b 0) low,
        cmp_lock_not_less lock_id small (b 2) (b 1) high,
        partition_from,
      )
      refl

second_pass :
    (lock_id : ℕ → ℕ) (small : (a : ℕ) → lock_id a < 2 ^ 31) (b : ℕ → ℕ)
    → lock_id (b 0) ≤ lock_id (b 1)
    → partition_from (cmp_lock lock_id) 2 0 0 b ≡ (b, 0)
unfolding partition_from swap
second_pass lock_id small b le =
    rw
      (
        cmp_lock_not_less lock_id small (b 0) (b 0) (omega arith),
        cmp_lock_not_less lock_id small (b 1) (b 0) le,
        partition_from,
      )
      refl

level :
    (cmp : ℕ → ℕ → Bool) (fuel left right end : ℕ) (b part : ℕ → ℕ)
    → leb right left ≡ false
    → partition_from cmp (right + 1 - left) left left b ≡ (part, end)
    → qsort (suc fuel) cmp b left right
      ≡ (do b ← qsort fuel cmp (swap part left end) left end; qsort fuel cmp b (end + 1) right)
unfolding qsort
level cmp fuel left right end b part more e = rw (more, e, qsort) refl

stop :
    (cmp : ℕ → ℕ → Bool) (fuel left right : ℕ) (b : ℕ → ℕ)
    → leb right left ≡ true
    → qsort (suc fuel) cmp b left right ≡ ok b
unfolding qsort
stop cmp fuel left right b here = rw (here, qsort) refl

-- Of three locks of which the first has the greatest number and the second the least, all below
-- 2 ^ 31, the last two come out in the wrong order.
pub qsort_unsorted :
    (lock_id : ℕ → ℕ) (small : (a : ℕ) → lock_id a < 2 ^ 31) (fuel : ℕ) (b : ℕ → ℕ)
    → lock_id (b 1) < lock_id (b 2)
    → lock_id (b 2) < lock_id (b 0)
    → Ends
        (λ new. (new 0 ≡ b 1) × (new 1 ≡ b 0) × (new 2 ≡ b 2) × (lock_id (new 2) < lock_id (new 1)))
        (qsort (suc (suc (suc fuel))) (cmp_lock lock_id) b 0 2)
unfolding swap
qsort_unsorted lock_id small fuel b low high =
    let cmp = cmp_lock lock_id in
    let once = swap (swap b 1 1) 0 1 in
    let twice = swap once 0 0 in
    rw
      (
        level cmp (suc (suc fuel)) 0 2 1 b (swap b 1 1) refl
            (first_pass lock_id small b (omega arith) (omega arith)),
        level cmp (suc fuel) 0 1 0 once once refl (second_pass lock_id small once (omega arith)),
        stop cmp fuel 0 0 twice refl,
        stop cmp fuel 1 1 twice refl,
        stop cmp (suc fuel) 2 2 twice refl,
      )
      (refl, refl, refl, high)
