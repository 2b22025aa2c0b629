-- ===== src/Text/Walk.antt =====
-- libs/string.c on strings that end: lengths, comparison and copies.
use mips_os.Common.{ℕ, zero, suc, ◌+◌, ◌≤◌, ◌<◌, ◌≡◌, refl, ◌∙◌}
use mips_os.Common.{◌⊎◌, inl, inr, Bool, true, false, ◌&&◌}
use mips_os.Common.{List, [], ◌∷◌, arith, ◌==◌, update}
use mips_os.Common.{update_self, update_other, Bool-cases}
use mips_os.Common.{Ends, length}
use mips_os.Common.{Ends, Ends-map, update_self, update_other}
use mips_os.Text.{strcmp, strcpy}

-- From `s` the memory has the characters `xs`, none of them NUL, and then NUL.
abbrev pub IsString : (ℕ → ℕ) → ℕ → List ℕ → Type 0
IsString mem s [] = mem s ≡ 0
IsString mem s (x ∷ xs) = (mem s ≡ x) × (0 < x) × (x < 256) × IsString mem (s + 1) xs

abbrev pub same_list : List ℕ → List ℕ → Bool
same_list [] [] = true
same_list [] (y ∷ ys) = false
same_list (x ∷ xs) [] = false
same_list (x ∷ xs) (y ∷ ys) = (x == y) && same_list xs ys

-- Comparing two strings ends within the length of the first, and gives 0 exactly when they are the
-- same.
pub strcmp-same_list :
    (fuel : ℕ) (mem : ℕ → ℕ) (a b : ℕ) (xs ys : List ℕ)
    → IsString mem a xs
    → IsString mem b ys
    → length xs < fuel
    → Ends (λ r. (r == 0) ≡ same_list xs ys) (strcmp fuel mem a b)
unfolding strcmp
strcmp-same_list zero mem a b xs ys h k small = absurd (omega arith)
strcmp-same_list (suc fuel) mem a b [] [] h k small = rw (h, k, strcmp) refl
strcmp-same_list (suc fuel) mem a b [] (y ∷ ys) h (e, low, high, _) small =
    rw (h, e, strcmp) (ground arith)
strcmp-same_list (suc fuel) mem a b (x ∷ xs) [] (e, low, high, _) k small =
    let ne : (x == 0) ≡ false = ground arith in rw (k, e, ne, strcmp) (ground arith)
strcmp-same_list (suc fuel) mem a b (x ∷ xs) (y ∷ ys) (e, low, high, h) (f, low', high', k) small =
    let ne : (x == 0) ≡ false = ground arith in
    let ne' : (y == 0) ≡ false = ground arith in
    elim (Bool-cases (x == y)) [
      | inl same ↦
          rw (e, f, ne, ne', same, strcmp)
            (Ends-map _ _ (strcmp fuel mem (a + 1) (b + 1))
              (strcmp-same_list fuel mem (a + 1) (b + 1) xs ys h k (omega arith)) (λ r g. g))
      | inr other ↦ rw (e, f, ne, ne', other, strcmp) (ground arith)
    ]

pub IsString-frame :
    (mem new : ℕ → ℕ) (s : ℕ) (xs : List ℕ)
    → IsString mem s xs
    → ((a : ℕ) → s ≤ a → a ≤ s + length xs → new a ≡ mem a)
    → IsString new s xs
IsString-frame mem new s [] h same = same s (omega arith) (omega arith) ∙ h
IsString-frame mem new s (x ∷ xs) (e, low, high, h) same = (
  same s (omega arith) (omega arith) ∙ e,
  low,
  high,
  IsString-frame mem new (s + 1) xs h (λ a le most. same a (omega arith) (omega arith)),
)

-- Copying a string to a place that it does not overlap ends, leaves the string there, NUL included,
-- and writes nothing else.
pub strcpy-IsString :
    (fuel dest src : ℕ) (mem : ℕ → ℕ) (xs : List ℕ)
    → IsString mem src xs
    → length xs < fuel
    → (dest + length xs < src) ⊎ (src + length xs < dest)
    → Ends
        (λ new.
          IsString new dest xs × ((a : ℕ) → (a < dest) ⊎ (dest + length xs < a) → new a ≡ mem a))
        (strcpy fuel dest src mem)
unfolding strcpy
strcpy-IsString zero dest src mem xs h small far = absurd (omega arith)
strcpy-IsString (suc fuel) dest src mem [] h small far =
    rw (h, strcpy) (update_self mem dest 0, λ a out. update_other mem dest 0 a (ground arith))
strcpy-IsString (suc fuel) dest src mem (x ∷ xs) (e, low, high, h) small far =
    let ne : (x == 0) ≡ false = ground arith in
    rw (e, ne, strcpy)
      (Ends-map _ _ (strcpy fuel (dest + 1) (src + 1) (update mem dest x))
        (strcpy-IsString fuel (dest + 1) (src + 1) (update mem dest x) xs
          (IsString-frame mem (update mem dest x) (src + 1) xs h
            (λ a le most. update_other mem dest x a (ground arith)))
          (omega arith) (ground arith))
        (λ new (copied, same). (
          (same dest (inl (omega arith)) ∙ update_self mem dest x, low, high, copied),
          λ a out. same a (ground arith) ∙ update_other mem dest x a (ground arith),
        )))
