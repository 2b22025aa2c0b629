-- ===== src/Text/Examples.antt =====
-- The string theorems at a memory with the string "ab" at 10 and at 20.
use mips_os.Common.{ℕ, ◌≡◌, refl}
use mips_os.Common.{◌||◌}
use mips_os.Common.{[], ◌∷◌, arith, ◌==◌, if◌then◌else◌}
use mips_os.Common.{Ends}
use mips_os.Common.{Ends}
use mips_os.Text.{strcmp}
use mips_os.Text.Walk.{same_list, strcmp-same_list}

abbrev memory : ℕ → ℕ
memory a = if (a == 10) || (a == 20) then 97 else if (a == 11) || (a == 21) then 98 else 0

strcmp-same_list_example :
    Ends (λ r. (r == 0) ≡ same_list (97 ∷ 98 ∷ []) (97 ∷ 98 ∷ [])) (strcmp 3 memory 10 20)
strcmp-same_list_example =
    strcmp-same_list 3 memory 10 20 (97 ∷ 98 ∷ []) (97 ∷ 98 ∷ [])
      (refl, omega arith, omega arith, (refl, omega arith, omega arith, refl))
      (refl, omega arith, omega arith, (refl, omega arith, omega arith, refl)) (omega arith)
