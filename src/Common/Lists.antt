-- ===== src/Common/Lists.antt =====
-- Lists measured and indexed by native numbers, and membership as a Boolean.
use Prim.Native.Nat.{ℕ, zero, suc, ◌+◌, ◌≤◌, ◌<◌}
use mathlib.Core.Path.{◌≡◌, refl, subst}
use mathlib.Core.Bool.{Bool, true, false, not, ◌&&◌, ◌||◌}
use mathlib.Core.Logic.{inl, inr}
use mathlib.Core.List.{List, [], ◌∷◌, ◌++◌}
use mathlib.Core.Option.{Option, none, some}
use native.Mathlib.Omega.{arith}
use mips_os.Common.Tests.{◌==◌, ==_iff, if◌then◌else◌, Bool-cases}

module _ {ℓ} {A : Type ℓ} where
  abbrev pub length : List A → ℕ
  length [] = 0
  length (x ∷ xs) = suc (length xs)

  abbrev pub get_elem? : List A → ℕ → Option A
  get_elem? [] i = none
  get_elem? (x ∷ xs) zero = some x
  get_elem? (x ∷ xs) (suc i) = get_elem? xs i

  abbrev pub set : List A → ℕ → A → List A
  set [] i v = []
  set (x ∷ xs) zero v = v ∷ xs
  set (x ∷ xs) (suc i) v = x ∷ set xs i v

  abbrev pub first : List A → Option A
  first [] = none
  first (x ∷ xs) = some x

  -- The last element, or the given one.
  abbrev pub last_from : Option A → List A → Option A
  last_from o [] = o
  last_from o (x ∷ xs) = last_from (some x) xs

  pub length-append : (xs ys : List A) → length (xs ++ ys) ≡ length xs + length ys
  length-append [] ys = omega arith
  length-append (x ∷ xs) ys = omega (arith, length-append xs ys)

abbrev pub has : ℕ → List ℕ → Bool
has a [] = false
has a (x ∷ xs) = (a == x) || has a xs

-- Each element is there once.
abbrev pub Distinct : List ℕ → Type 0
Distinct [] = Unit
Distinct (x ∷ xs) = (has x xs ≡ false) × Distinct xs

pub has-append : (a : ℕ) (xs ys : List ℕ) → has a (xs ++ ys) ≡ (has a xs || has a ys)
has-append a [] ys = refl
has-append a (x ∷ xs) ys = ground (arith, has-append a xs ys)

-- The list without `n`.
without : ℕ → List ℕ → List ℕ
without n [] = []
without n (x ∷ xs) = let rest = without n xs in if x == n then rest else x ∷ rest

has-without : (n a : ℕ) (xs : List ℕ) → has a (without n xs) ≡ (not (a == n) && has a xs)
unfolding without
has-without n a [] = ground arith
has-without n a (x ∷ xs) = elim (Bool-cases (x == n)) [
  | inl same ↦ rw (same, without, has-without n a xs) (ground arith)
  | inr other ↦ rw (other, without, has-without n a xs) (ground arith)
]

Distinct-without : (n : ℕ) (xs : List ℕ) → Distinct xs → Distinct (without n xs)
unfolding without
Distinct-without n [] d = tt
Distinct-without n (x ∷ xs) d = elim (Bool-cases (x == n)) [
  | inl same ↦ rw same (Distinct-without n xs d.1)
  | inr other ↦ rw other (ground (arith, has-without n x xs), Distinct-without n xs d.1)
]

without_absent : (n : ℕ) (xs : List ℕ) → has n xs ≡ false → length (without n xs) ≡ length xs
unfolding without
without_absent n [] h = refl
without_absent n (x ∷ xs) h =
    let e : (x == n) ≡ false = ground arith in
    rw e (omega (arith, without_absent n xs (ground arith)))

length-without : (n : ℕ) (xs : List ℕ) → Distinct xs → length xs ≤ suc (length (without n xs))
unfolding without
length-without n [] d = omega arith
length-without n (x ∷ xs) d = elim (Bool-cases (x == n)) [
  | inl same ↦
      rw same (
        omega
          (arith, without_absent n xs (subst (λ m. has m xs ≡ false) ((==_iff x n).0 same) d.0)))
  | inr other ↦ rw other (omega (arith, length-without n xs d.1))
]

-- Distinct numbers below `n` are at most `n` many.
pub length-Distinct :
    (n : ℕ) (xs : List ℕ) → Distinct xs → ((a : ℕ) → has a xs ≡ true → a < n) → length xs ≤ n
length-Distinct zero [] d h = omega arith
length-Distinct zero (x ∷ xs) d h = absurd (omega (arith, h x (ground arith)))
length-Distinct (suc n) xs d h = omega (
  arith,
  length-without n xs d,
  length-Distinct n (without n xs) (Distinct-without n xs d)
      (λ a m. ground (arith, has-without n a xs, h a)),
)
