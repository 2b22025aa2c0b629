-- ===== src/Algo/Sort.antt =====
-- `qsort` of libs/algo.c: that it comes to an end with the same elements.
use mips_os.Common.{ℕ, zero, suc, ◌+◌, ◌-◌, ◌*◌, ◌≤◌, ◌<◌, ◌≡◌, refl}
use mips_os.Common.{◌^◌}
use mips_os.Common.{inl, inr, true, false}
use mips_os.Common.{arith, ltb, leb, ◌==◌}
use mips_os.Common.{ltb→lt, ltb→le, ==_iff, Bool-cases}
use mips_os.Common.{◌>>=◌, Ends, Ends-bind}
use mips_os.Common.{Ends, Ends-bind, Ends-map}
use mips_os.Algo.{swap, partition_from, qsort, cmp_lock}
use mips_os.Algo.Rearranged.{Rearranged, Rearranged-refl, Rearranged-trans, Rearranged-widen}
use mips_os.Algo.Partition.{partition_from-Parted, first_round, exchanged, next_short}

module _ (lock_id : ℕ → ℕ) (small : (a : ℕ) → lock_id a < 2 ^ 31) where
  -- One level of the sort, where the loop ends short of the right end, with sorts for both parts.
  split_sort :
      (fuel left right : ℕ) (b : ℕ → ℕ)
      → ((left right : ℕ) (b : ℕ → ℕ)
          → 2 * (right - left) < fuel
          → Ends (Rearranged left right b) (qsort fuel (cmp_lock lock_id) b left right))
      → left < right
      → 2 * (right - left) ≤ suc fuel
      → (partition_from (cmp_lock lock_id) (right - left) (left + 1) left b).1 < right
      → Ends (Rearranged left right b) (qsort (suc fuel) (cmp_lock lock_id) b left right)
  unfolding qsort
  split_sort fuel left right b rec lt enough short =
      let rounds : right + 1 - left ≡ suc (right - left) = omega arith in
      let parted =
        partition_from-Parted lock_id small (right - left) (left + 1) left left right b
          (omega arith) (omega arith) (omega arith) in
      let more : leb right left ≡ false = ground arith in
      let r = partition_from (cmp_lock lock_id) (right - left) (left + 1) left b in
      rw (more, rounds, first_round lock_id small (right - left) left b, qsort)
        (Ends-bind (Rearranged left r.1 (swap r.0 left r.1)) _
          (qsort fuel (cmp_lock lock_id) (swap r.0 left r.1) left r.1) _
          (rec left r.1 (swap r.0 left r.1) (omega (arith, parted.1)))
          λ mid p.
            Ends-map (Rearranged (r.1 + 1) right mid) _
              (qsort fuel (cmp_lock lock_id) mid (r.1 + 1) right)
              (rec (r.1 + 1) right mid (omega (arith, parted.1)))
              λ new q.
                Rearranged-trans left right b mid new
                  (exchanged lock_id small left right r.1 b r.0 mid parted p)
                  (Rearranged-widen (r.1 + 1) right left right mid new (omega (arith, parted.1))
                    (omega arith) q))

  done :
      (fuel left right : ℕ) (b : ℕ → ℕ)
      → right ≤ left
      → Ends (Rearranged left right b) (qsort (suc fuel) (cmp_lock lock_id) b left right)
  unfolding qsort
  done fuel left right b le =
      let here : leb right left ≡ true = ground arith in
      rw (here, qsort) (Rearranged-refl left right b)

  one_level :
      (fuel left right : ℕ) (b : ℕ → ℕ)
      → left < right
      → let r = partition_from (cmp_lock lock_id) (right - left) (left + 1) left b in
        qsort (suc fuel) (cmp_lock lock_id) b left right ≡ (do
          b ← qsort fuel (cmp_lock lock_id) (swap r.0 left r.1) left r.1
          qsort fuel (cmp_lock lock_id) b (r.1 + 1) right)
  unfolding qsort
  one_level fuel left right b lt =
      let rounds : right + 1 - left ≡ suc (right - left) = omega arith in
      let more : leb right left ≡ false = ground arith in
      rw (more, rounds, first_round lock_id small (right - left) left b, qsort) refl

  -- A level that ends at the right end: the sort goes over the same range once more.
  full_sort :
      (fuel left right : ℕ) (b : ℕ → ℕ)
      → ((left right : ℕ) (b : ℕ → ℕ)
          → 2 * (right - left) < fuel
          → Ends (Rearranged left right b) (qsort fuel (cmp_lock lock_id) b left right))
      → left < right
      → 2 * (right - left) < suc (suc fuel)
      → (partition_from (cmp_lock lock_id) (right - left) (left + 1) left b).1 ≡ right
      → Ends (Rearranged left right b) (qsort (suc (suc fuel)) (cmp_lock lock_id) b left right)
  full_sort zero left right b rec lt enough e = absurd (omega arith)
  full_sort (suc fuel) left right b rec lt enough e =
      let parted =
        partition_from-Parted lock_id small (right - left) (left + 1) left left right b
          (omega arith) (omega arith) (omega arith) in
      let r = partition_from (cmp_lock lock_id) (right - left) (left + 1) left b in
      rw (one_level (suc (suc fuel)) left right b lt, e)
        (Ends-bind (Rearranged left right (swap r.0 left right)) _
          (qsort (suc (suc fuel)) (cmp_lock lock_id) (swap r.0 left right) left right) _
          (split_sort (suc fuel) left right (swap r.0 left right) rec lt (omega arith)
            (next_short lock_id small left right b lt e))
          λ mid p.
            Ends-map (Rearranged (right + 1) right mid) _
              (qsort (suc (suc fuel)) (cmp_lock lock_id) mid (right + 1) right)
              (done (suc fuel) (right + 1) right mid (omega arith))
              λ new q.
                Rearranged-trans left right b mid new
                  (exchanged lock_id small left right right b r.0 mid
                    (parted.0, omega arith, omega arith) p)
                  (Rearranged-widen (right + 1) right left right mid new (omega arith) (omega arith)
                    q))

  -- The sort of locks whose numbers are all below 2 ^ 31 comes to an end, within a fuel of twice the length of the range, and the range
  -- then holds the same elements, each as often as before, while nothing outside it is moved.
  pub qsort-Rearranged :
      (fuel left right : ℕ) (b : ℕ → ℕ)
      → 2 * (right - left) < fuel
      → Ends (Rearranged left right b) (qsort fuel (cmp_lock lock_id) b left right)
  qsort-Rearranged zero left right b enough = absurd (omega arith)
  qsort-Rearranged (suc zero) left right b enough = done zero left right b (omega arith)
  qsort-Rearranged (suc (suc fuel)) left right b enough = elim (Bool-cases (ltb left right)) [
    | inr none_left ↦ done (suc fuel) left right b (ltb→le left right none_left)
    | inl some_left ↦
        let lt = ltb→lt left right some_left in
        elim (Bool-cases
          ((partition_from (cmp_lock lock_id) (right - left) (left + 1) left b).1 == right)) [
            | inl full ↦
                full_sort fuel left right b (λ l r b h. qsort-Rearranged fuel l r b h) lt enough
                  ((==_iff _ right).0 full)
            | inr short ↦
                split_sort (suc fuel) left right b (λ l r b h. qsort-Rearranged (suc fuel) l r b h)
                  lt (omega arith)
                  (ground (
                    arith,
                    partition_from-Parted lock_id small (right - left) (left + 1) left left right b
                        (omega arith) (omega arith) (omega arith),
                  ))
          ]
  ]
