-- ===== src/Algo/Rearranged.antt =====
-- Arrays with the same elements in another order, inside a range.
use mips_os.Common.{ℕ, ◌≤◌, ◌<◌, ◌≡◌, refl, ap, ◌∙◌}
use mips_os.Common.{◌⊎◌}
use mips_os.Common.{arith, ◌==◌, if◌then◌else◌}
use mips_os.Algo.{swap}

-- `new` has the elements of `b`, each once, in an order given by `to` and `back`, which are inverse
-- to each other and move nothing outside the range.
pub record Rearranged (left right : ℕ) (b new : ℕ → ℕ) : Type 0 where
  pub to : ℕ → ℕ
  pub back : ℕ → ℕ
  pub to_back : (i : ℕ) → to (back i) ≡ i
  pub back_to : (i : ℕ) → back (to i) ≡ i
  pub outside : (i : ℕ) → (i < left) ⊎ (right < i) → to i ≡ i
  pub same : (i : ℕ) → new i ≡ b (to i)

pub Rearranged-refl : (left right : ℕ) (b : ℕ → ℕ) → Rearranged left right b b
Rearranged-refl left right b = record {
  to = λ i. i;
  back = λ i. i;
  to_back = λ i. refl;
  back_to = λ i. refl;
  outside = λ i h. refl;
  same = λ i. refl;
}

pub Rearranged-trans :
    (left right : ℕ) (a b c : ℕ → ℕ)
    → Rearranged left right a b
    → Rearranged left right b c
    → Rearranged left right a c
Rearranged-trans left right a b c p q = record {
  to = λ i. p.to (q.to i);
  back = λ i. q.back (p.back i);
  to_back = λ i. ap p.to (q.to_back (p.back i)) ∙ p.to_back i;
  back_to = λ i. ap q.back (p.back_to (q.to i)) ∙ q.back_to i;
  outside = λ i h. ap p.to (q.outside i h) ∙ p.outside i h;
  same = λ i. q.same i ∙ p.same (q.to i);
}

pub Rearranged-widen :
    (left right low high : ℕ) (b new : ℕ → ℕ)
    → low ≤ left
    → right ≤ high
    → Rearranged left right b new
    → Rearranged low high b new
Rearranged-widen left right low high b new le le' p = record {
  to = p.to;
  back = p.back;
  to_back = p.to_back;
  back_to = p.back_to;
  outside = λ i h. p.outside i (ground arith);
  same = p.same;
}

exchange : ℕ → ℕ → ℕ → ℕ
exchange i j k = if k == j then i else if k == i then j else k

exchange_twice : (i j k : ℕ) → exchange i j (exchange i j k) ≡ k
unfolding exchange
exchange_twice i j k = ground arith

-- Exchanging two elements of the range.
pub Rearranged-swap :
    (left right i j : ℕ) (b : ℕ → ℕ)
    → left ≤ i
    → i ≤ right
    → left ≤ j
    → j ≤ right
    → Rearranged left right b (swap b i j)
unfolding swap exchange
Rearranged-swap left right i j b a c a' c' = record {
  to = exchange i j;
  back = exchange i j;
  to_back = exchange_twice i j;
  back_to = exchange_twice i j;
  outside = λ k h. ground arith;
  same = λ k. ground arith;
}
