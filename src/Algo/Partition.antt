-- ===== src/Algo/Partition.antt =====
-- The loop of `qsort` of libs/algo.c: what it does to the array, and how far `last` goes.
use mips_os.Common.{ℕ, zero, suc, ◌+◌, ◌-◌, ◌≤◌, ◌<◌, ◌≡◌, refl, sym, ap, ◌∙◌, subst}
use mips_os.Common.{◌≢◌, inl, inr, true, false}
use mips_os.Common.{arith, ◌==◌}
use mips_os.Common.{Bool-cases}
use mips_os.Common.{◌^◌}
use mips_os.Algo.{swap, partition_from, cmp_lock}
use mips_os.Algo.Order.{cmp_lock-lt, cmp_lock_not_less}
use mips_os.Algo.Rearranged.{
  Rearranged, Rearranged-refl, Rearranged-trans, Rearranged-widen, Rearranged-swap,
}

module _ (lock_id : ℕ → ℕ) (small : (a : ℕ) → lock_id a < 2 ^ 31) where
  -- What the loop makes of the array and of `last`, from index `i` up to `right`.
  abbrev pub Parted : (left right last : ℕ) → (ℕ → ℕ) → (ℕ → ℕ) × ℕ → Type 0
  Parted left right last b (new, end) = Rearranged left right b new × (last ≤ end) × (end ≤ right)

  pub partition_from-Parted :
      (n i last left right : ℕ) (b : ℕ → ℕ)
      → i + n ≡ right + 1
      → last < i
      → left ≤ last
      → Parted left right last b (partition_from (cmp_lock lock_id) n i last b)
  unfolding partition_from
  partition_from-Parted zero i last left right b e lt le =
      (Rearranged-refl left right b, omega arith, omega arith)
  partition_from-Parted (suc n) i last left right b e lt le =
      elim (Bool-cases (cmp_lock lock_id (b i) (b last))) [
        | inl less ↦
            let rest =
              partition_from-Parted n (i + 1) (last + 1) left right (swap b i (last + 1))
                (omega arith) (omega arith) (omega arith) in
            rw (less, partition_from)
              (
                Rearranged-trans left right b (swap b i (last + 1)) _
                    (Rearranged-swap left right i (last + 1) b (omega arith) (omega arith)
                      (omega arith) (omega arith))
                    rest.0,
                omega (arith, rest.1),
                rest.2,
              )
        | inr more ↦
            rw (more, partition_from)
              (partition_from-Parted n (i + 1) last left right b (omega arith) (omega arith) le)
      ]

  -- An element is not less than itself, so that the first round changes nothing.
  pub first_round :
      (n left : ℕ) (b : ℕ → ℕ)
      → partition_from (cmp_lock lock_id) (suc n) left left b
        ≡ partition_from (cmp_lock lock_id) n (left + 1) left b
  unfolding partition_from
  first_round n left b =
      rw (cmp_lock_not_less lock_id small (b left) (b left) (omega arith), partition_from) refl

  -- `last` moves at each round only when each element is less than the one before it, and then
  -- nothing is exchanged.
  abbrev Falling : (last n : ℕ) → (b new : ℕ → ℕ) → Type 0
  Falling last n b new =
      ((k : ℕ) → new k ≡ b k)
      × (lock_id (b (last + n)) ≤ lock_id (b last))
      × (n ≢ 0 → lock_id (b (last + n)) ≤ lock_id (b (last + 1)))

  -- `last` moves by one at most in each round.
  partition_from-end :
      (n i last : ℕ) (b : ℕ → ℕ) → (partition_from (cmp_lock lock_id) n i last b).1 ≤ last + n
  unfolding partition_from
  partition_from-end zero i last b = omega arith
  partition_from-end (suc n) i last b = elim (Bool-cases (cmp_lock lock_id (b i) (b last))) [
    | inl less ↦
        rw (less, partition_from)
          (omega (arith, partition_from-end n (i + 1) (last + 1) (swap b i (last + 1))))
    | inr more ↦ rw (more, partition_from) (omega (arith, partition_from-end n (i + 1) last b))
  ]

  stay :
      (n last : ℕ) (b : ℕ → ℕ)
      → cmp_lock lock_id (b (last + 1)) (b last) ≡ false
      → (partition_from (cmp_lock lock_id) (suc n) (last + 1) last b).1 ≤ last + n
  unfolding partition_from
  stay n last b more = rw (more, partition_from) (partition_from-end n (last + 1 + 1) last b)

  go_on :
      (n last : ℕ) (b : ℕ → ℕ)
      → cmp_lock lock_id (b (last + 1)) (b last) ≡ true
      → partition_from (cmp_lock lock_id) (suc n) (last + 1) last b
        ≡ partition_from
            (cmp_lock lock_id)
            n
            (last + 1 + 1)
            (last + 1)
            (swap b (last + 1) (last + 1))
  unfolding partition_from
  go_on n last b less = rw (less, partition_from) refl

  -- Exchanging an element with itself.
  swap_self : (b : ℕ → ℕ) (i k : ℕ) → swap b i i k ≡ b k
  unfolding swap
  swap_self b i k = ground (arith, ap b)

  partition_from-Falling :
      (n last : ℕ) (b : ℕ → ℕ)
      → (partition_from (cmp_lock lock_id) n (last + 1) last b).1 ≡ last + n
      → Falling last n b (partition_from (cmp_lock lock_id) n (last + 1) last b).0
  unfolding partition_from
  partition_from-Falling zero last b e =
      let at : last + 0 ≡ last = omega arith in
      (λ k. refl, rw at (omega arith), λ c. absurd (c refl))
  partition_from-Falling (suc n) last b e =
      elim (Bool-cases (cmp_lock lock_id (b (last + 1)) (b last))) [
        | inr more ↦ absurd (omega (arith, stay n last b more, e))
        | inl less ↦
            rw (less, partition_from)
              (falling less
                (partition_from-Falling n (last + 1) (swap b (last + 1) (last + 1)) (moved less e)))
      ]
    where
      moved :
          cmp_lock lock_id (b (last + 1)) (b last) ≡ true
          → (partition_from (cmp_lock lock_id) (suc n) (last + 1) last b).1 ≡ last + suc n
          → (partition_from
              (cmp_lock lock_id)
              n
              (last + 1 + 1)
              (last + 1)
              (swap b (last + 1) (last + 1))).1
            ≡ last + 1 + n
      moved less e = sym (ap (λ r. r.1) (go_on n last b less)) ∙ e ∙ omega arith

      falling :
          {new : ℕ → ℕ}
          → cmp_lock lock_id (b (last + 1)) (b last) ≡ true
          → Falling (last + 1) n (swap b (last + 1) (last + 1)) new
          → Falling last (suc n) b new
      falling less (same, low, _) =
          let far : last + suc n ≡ last + 1 + n = omega arith in
          let less' = cmp_lock-lt lock_id small (b (last + 1)) (b last) less in
          let at_end = ap lock_id (swap_self b (last + 1) (last + 1 + n)) in
          let at_next = ap lock_id (swap_self b (last + 1) (last + 1)) in
          (
            λ k. same k ∙ swap_self b (last + 1) k,
            rw far (omega (arith, low, less', at_end, at_next)),
            λ _. rw far (omega (arith, low, at_end, at_next)),
          )

  pub exchanged :
      (left right end : ℕ) (b part mid : ℕ → ℕ)
      → Parted left right left b (part, end)
      → Rearranged left end (swap part left end) mid
      → Rearranged left right b mid
  exchanged left right end b part mid (order, low, high) p =
      Rearranged-trans left right b (swap part left end) mid
        (Rearranged-trans left right b part (swap part left end) order (
          Rearranged-swap left right left end part (omega arith) (omega arith) (omega arith)
            (omega arith)))
        (Rearranged-widen left end left right (swap part left end) mid (omega arith) high p)

  least :
      (left right : ℕ) (b new : ℕ → ℕ)
      → left < right
      → ((k : ℕ) → new k ≡ b k)
      → lock_id (b right) ≤ lock_id (b left)
      → lock_id (b right) ≤ lock_id (b (left + 1))
      → cmp_lock lock_id (swap new left right (left + 1)) (swap new left right left) ≡ false
  unfolding swap
  least left right b new lt same low low' =
      let front : swap new left right left ≡ b right = ground (arith, same right) in
      elim (Bool-cases (left + 1 == right)) [
        | inl next ↦
            let second : swap new left right (left + 1) ≡ b left = ground (arith, same left) in
            rw (front, second) (cmp_lock_not_less lock_id small _ _ low)
        | inr far ↦
            let second : swap new left right (left + 1) ≡ b (left + 1) =
              ground (arith, same (left + 1)) in
            rw (front, second) (cmp_lock_not_less lock_id small _ _ low')
      ]

  -- After a level that ends at the right end, the next one does not: the least element is in front.
  pub next_short :
      (left right : ℕ) (b : ℕ → ℕ)
      → left < right
      → (partition_from (cmp_lock lock_id) (right - left) (left + 1) left b).1 ≡ right
      → (partition_from (cmp_lock lock_id) (right - left) (left + 1) left (
          swap (partition_from (cmp_lock lock_id) (right - left) (left + 1) left b).0 left right)).1
        < right
  next_short left right b lt e =
      let rounds : right - left ≡ suc (right - left - 1) = omega arith in
      let f = partition_from-Falling (right - left) left b (e ∙ omega arith) in
      let new = (partition_from (cmp_lock lock_id) (right - left) (left + 1) left b).0 in
      let back : left + (right - left) ≡ right = omega arith in
      let low =
        subst
          (λ i.
            (lock_id (b i) ≤ lock_id (b left))
            × (right - left ≢ 0 → lock_id (b i) ≤ lock_id (b (left + 1))))
          back (f.1, f.2) in
      let short =
        stay (right - left - 1) left (swap new left right)
          (least left right b new lt f.0 low.0 (low.1 (λ z. absurd (omega arith)))) in
      omega (
        arith,
        subst
            (λ m.
              (partition_from (cmp_lock lock_id) m (left + 1) left (swap new left right)).1
              ≤ left + (right - left - 1))
            (sym rounds) short,
      )
