-- ===== src/Common/Bits.antt =====
-- One bit of a byte: `x & (1 << r)`, `x |= 1 << r` and `x &= ~(1 << r)`, and their laws, which are
-- checked at every byte and every bit.
use Prim.Native.Nat.{
  ℕ, zero, suc, ◌-◌, ◌/◌, ◌^◌, min, digits, bit_and-bitwise, ◌<◌, bit_and, bit_or,
}
use mathlib.Core.Path.{◌≡◌, refl, ◌∙◌}
use mathlib.Core.Bool.{Bool, true, false, not, ◌&&◌}
use native.Mathlib.Omega.{arith}
use mips_os.Common.Tests.{◌==◌, ltb, if◌then◌else◌}

unfoldable pub test_bit : ℕ → ℕ → Bool
test_bit x r = not (bit_and x (2 ^ r) == 0)

unfoldable pub raise_bit : ℕ → ℕ → ℕ
raise_bit x r = bit_or x (2 ^ r)

unfoldable pub drop_bit : ℕ → ℕ → ℕ
drop_bit x r = bit_and x (255 - 2 ^ r)

digits-zero : (n a : ℕ) → digits (λ b. zero) min n a 0 ≡ 0
digits-zero zero a = refl
digits-zero (suc n) zero = refl
digits-zero (suc n) (suc a) = omega (arith, digits-zero n (suc a / 2))

-- A mask of no bits, for every word.
pub bit_and-zero : (a : ℕ) → bit_and a 0 ≡ 0
bit_and-zero a = bit_and-bitwise a 0 ∙ digits-zero a a

-- A Boolean check at each number under a bound.
checked : (ℕ → Bool) → ℕ → Bool
checked check zero = true
checked check (suc bound) = if check bound then checked check bound else false

checked_sound :
    (check : ℕ → Bool) (bound k : ℕ) → k < bound → checked check bound ≡ true → check k ≡ true
unfolding checked
checked_sound check zero k lt h = absurd (omega arith)
checked_sound check (suc bound) k lt h = ground (arith, checked_sound check bound k)

same : Bool → Bool → Bool
same true b = b
same false b = not b

same_sound : (a b : Bool) → same a b ≡ true → a ≡ b
unfolding same
same_sound true true h = refl
same_sound true false h = cc
same_sound false true h = cc
same_sound false false h = refl

raise_row : ℕ → ℕ → ℕ → Bool
unfolding same test_bit raise_bit
raise_row x r s = same (test_bit (raise_bit x r) s) (if s == r then true else test_bit x s)

drop_row : ℕ → ℕ → ℕ → Bool
unfolding same test_bit drop_bit
drop_row x r s = same (test_bit (drop_bit x r) s) (if s == r then false else test_bit x s)

table : (ℕ → ℕ → ℕ → Bool) → Bool
unfolding checked
table p = checked (λ x. checked (λ r. checked (p x r) 8) 8) 256

table_sound :
    (p : ℕ → ℕ → ℕ → Bool) (x r s : ℕ) → table p ≡ true → x < 256 → r < 8 → s < 8 → p x r s ≡ true
unfolding table
table_sound p x r s h hx hr hs = checked_sound (p x r) 8 s hs (
    checked_sound (λ r. checked (p x r) 8) 8 r hr
      (checked_sound (λ x. checked (λ r. checked (p x r) 8) 8) 256 x hx h))

raise_table : table raise_row ≡ true
unfolding table raise_row
raise_table = refl

drop_table : table drop_row ≡ true
unfolding table drop_row
drop_table = refl

-- Raising a bit sets that bit and no other.
pub test_bit-raise_bit :
    (x r s : ℕ)
    → x < 256
    → r < 8
    → s < 8
    → test_bit (raise_bit x r) s ≡ (if s == r then true else test_bit x s)
unfolding raise_row
test_bit-raise_bit x r s hx hr hs =
    same_sound _ _ (table_sound raise_row x r s raise_table hx hr hs)

-- Dropping a bit clears that bit and no other.
pub test_bit-drop_bit :
    (x r s : ℕ)
    → x < 256
    → r < 8
    → s < 8
    → test_bit (drop_bit x r) s ≡ (if s == r then false else test_bit x s)
unfolding drop_row
test_bit-drop_bit x r s hx hr hs = same_sound _ _ (table_sound drop_row x r s drop_table hx hr hs)

byte_row : ℕ → ℕ → Bool
unfolding raise_bit drop_bit
byte_row x r = ltb (raise_bit x r) 256 && ltb (drop_bit x r) 256

byte_table : checked (λ x. checked (byte_row x) 8) 256 ≡ true
unfolding checked byte_row
byte_table = refl

byte_bounds : (x r : ℕ) → x < 256 → r < 8 → (raise_bit x r < 256) × (drop_bit x r < 256)
byte_bounds x r hx hr = split (
    checked_sound (byte_row x) 8 r hr
      (checked_sound (λ x. checked (byte_row x) 8) 256 x hx byte_table))
  where
    split : byte_row x r ≡ true → (raise_bit x r < 256) × (drop_bit x r < 256)
    split h = unfold byte_row in ground arith

pub raise_bit-lt : (x r : ℕ) → x < 256 → r < 8 → raise_bit x r < 256
raise_bit-lt x r hx hr = (byte_bounds x r hx hr).0

pub drop_bit-lt : (x r : ℕ) → x < 256 → r < 8 → drop_bit x r < 256
drop_bit-lt x r hx hr = (byte_bounds x r hx hr).1
