-- ===== src/Fs/Directory/Spelling.antt =====
-- What a name of kernel/fs/fs.c is to `name_str_standrize` and to the loop that looks for a slash.
use mips_os.Common.{ℕ, zero, suc, ◌+◌, ◌-◌, ◌<◌, ◌≡◌, refl, ap, ◌∙◌, subst}
use mips_os.Common.{inl, inr, true, false}
use mips_os.Common.{List, [], ◌∷◌, arith, ◌==◌}
use mips_os.Common.{Bool-cases}
use mips_os.Common.{ok, length, has}
use mips_os.Text.Walk.{IsString}
use mips_os.Text.{strlen_from, strlen}
use mips_os.Fs.Directory.{name_str_standrize, has_slash}

strlen_from-IsString :
    (fuel : ℕ) (mem : ℕ → ℕ) (src i : ℕ) (xs : List ℕ)
    → IsString mem (src + i) xs
    → length xs < fuel
    → strlen_from fuel mem src i ≡ ok (i + length xs)
unfolding strlen_from
strlen_from-IsString zero mem src i xs h enough = absurd (omega arith)
strlen_from-IsString (suc fuel) mem src i [] h enough = rw (h, strlen_from) (ap ok (omega arith))
strlen_from-IsString (suc fuel) mem src i (x ∷ xs) (e, low, high, h) enough =
    let ne : (mem (src + i) == 0) ≡ false = ground arith in
    let at : src + i + 1 ≡ src + (i + 1) = omega arith in
    rw (ne, strlen_from)
      (strlen_from-IsString fuel mem src (i + 1) xs (subst (λ a. IsString mem a xs) at h)
          (omega arith)
        ∙ ap ok (omega arith))

-- `strlen` of a string is its length.
pub strlen-IsString :
    (fuel : ℕ) (mem : ℕ → ℕ) (src : ℕ) (xs : List ℕ)
    → IsString mem src xs
    → length xs < fuel
    → strlen fuel mem src ≡ ok (length xs)
unfolding strlen
strlen-IsString fuel mem src xs h enough =
    strlen_from-IsString fuel mem src 0 xs (subst (λ a. IsString mem a xs) (omega arith) h) enough
    ∙ ap ok (omega arith)

pub char_of :
    (mem : ℕ → ℕ) (s k : ℕ) (xs : List ℕ)
    → IsString mem s xs
    → has 47 xs ≡ false
    → k < length xs
    → (mem (s + k) == 47) ≡ false
char_of mem s k [] h plain lt = absurd (omega arith)
char_of mem s zero (x ∷ xs) (e, _, _, h) plain lt =
    let at : s + 0 ≡ s = omega arith in rw at (ground arith)
char_of mem s (suc k) (x ∷ xs) (e, _, _, h) plain lt =
    let at : s + suc k ≡ s + 1 + k = omega arith in
    rw at (char_of mem (s + 1) k xs h (ground arith) (omega arith))

-- A name without a slash that is not empty is left as it is.
pub name_str_standrize-IsString :
    (fuel : ℕ) (name : ℕ → ℕ) (xs : List ℕ)
    → IsString name 0 xs
    → has 47 xs ≡ false
    → 0 < length xs
    → length xs < fuel
    → name_str_standrize fuel name ≡ ok name
unfolding name_str_standrize
name_str_standrize-IsString fuel name xs h plain long enough =
    let last : (name (0 + (length xs - 1)) == 47) ≡ false =
      char_of name 0 (length xs - 1) xs h plain (omega arith) in
    let at : 0 + (length xs - 1) ≡ length xs - 1 = omega arith in
    let some_char : (length xs == 0) ≡ false = ground arith in
    rw
      (
        strlen-IsString fuel name 0 xs h enough,
        some_char,
        subst (λ k. (name k == 47) ≡ false) at last,
      )
      refl

pub has_slash-IsString :
    (fuel : ℕ) (name : ℕ → ℕ) (i : ℕ) (xs : List ℕ)
    → IsString name i xs
    → length xs < fuel
    → has_slash fuel name i ≡ ok (has 47 xs)
unfolding has_slash
has_slash-IsString zero name i xs h enough = absurd (omega arith)
has_slash-IsString (suc fuel) name i [] h enough = rw (h, has_slash) refl
has_slash-IsString (suc fuel) name i (x ∷ xs) (e, low, high, h) enough =
    let ne : (name i == 0) ≡ false = ground arith in
    elim (Bool-cases (x == 47)) [
      | inl is ↦
          let here : (name i == 47) ≡ true = ground arith in
          rw (ne, here, has_slash) (ap ok (ground arith))
      | inr other ↦
          let here : (name i == 47) ≡ false = ground arith in
          rw (ne, here, has_slash)
            (has_slash-IsString fuel name (i + 1) xs h (omega arith) ∙ ap ok (ground arith))
    ]
