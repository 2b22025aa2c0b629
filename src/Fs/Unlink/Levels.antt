-- ===== src/Fs/Unlink/Levels.antt =====
-- Which directory `do_rm` of kernel/fs/fs.c takes the entry from, by the slashes of the name.
use mips_os.Common.{ℕ, zero, suc, ◌+◌, ◌<◌, ◌≡◌, refl, ◌∙◌}
use mips_os.Common.{true, false, none, some}
use mips_os.Common.{List, [], ◌∷◌, ◌++◌, arith, ◌==◌, if◌then◌else◌}
use mips_os.Common.{ok, Ends, Ends-bind, length, has, has-append}
use mips_os.Common.{Ends, Ends-bind}
use mips_os.Text.Walk.{IsString, same_list}
use mips_os.Fs.Card.{Card}
use mips_os.Fs.Path.Resolve.{Directory, Shows}
use mips_os.Fs.Directory.{Session}
use mips_os.Fs.Unlink.{count_slashes, is_multi_level, unlink_entry, remove_from_parent}
use mips_os.Fs.Unlink.Shift.{position, delete}
use mips_os.Fs.Unlink.Entries.{IsHolder, unlink_entry-delete, unlink_entry-absent}

abbrev slashes : List ℕ → ℕ
slashes [] = 0
slashes (x ∷ xs) = if x == 47 then suc (slashes xs) else slashes xs

count_slashes-IsString :
    (fuel : ℕ) (name : ℕ → ℕ) (i : ℕ) (xs : List ℕ)
    → IsString name i xs
    → length xs < fuel
    → count_slashes fuel name i ≡ ok (slashes xs)
unfolding count_slashes
count_slashes-IsString zero name i xs h enough = absurd (omega arith)
count_slashes-IsString (suc fuel) name i [] h enough = rw (h, count_slashes) refl
count_slashes-IsString (suc fuel) name i (x ∷ xs) (e, low, high, h) enough =
    let ne : (name i == 0) ≡ false = ground arith in
    rw (ne, count_slashes, count_slashes-IsString fuel name (i + 1) xs h (omega arith))
      (ground (arith, e))

slashes-has : (xs : List ℕ) → has 47 xs ≡ false → slashes xs ≡ 0
slashes-has [] plain = refl
slashes-has (x ∷ xs) plain = ground (arith, slashes-has xs)

slashes-append : (xs ys : List ℕ) → slashes (xs ++ ys) ≡ slashes xs + slashes ys
slashes-append [] ys = omega arith
slashes-append (x ∷ xs) ys = ground (arith, slashes-append xs ys)

-- No entry's name has a slash in it.
abbrev pub IsPlain : Directory → Type 0
IsPlain [] = Unit
IsPlain (e ∷ es) = (has 47 e.0 ≡ false) × IsPlain es

same_list-has : (xs ys : List ℕ) → has 47 xs ≡ true → has 47 ys ≡ false → same_list xs ys ≡ false
same_list-has [] ys h plain = absurd cc
same_list-has (x ∷ xs) [] h plain = refl
same_list-has (x ∷ xs) (y ∷ ys) h plain = ground (arith, same_list-has xs ys)

position-IsPlain :
    (es : Directory) (xs : List ℕ) (i : ℕ) → has 47 xs ≡ true → IsPlain es → position es xs i ≡ none
position-IsPlain [] xs i h plain = refl
position-IsPlain (e ∷ es) xs i h (p, plain) =
    rw (same_list-has xs e.0 h p) (position-IsPlain es xs (i + 1) h plain)

first_of :
    (name : ℕ → ℕ) (xs ys : List ℕ)
    → IsString name 0 (xs ++ ys)
    → 0 < length xs
    → has 47 xs ≡ false
    → (name 0 == 47) ≡ false
first_of name [] ys h long plain = absurd (omega arith)
first_of name (x ∷ xs) ys h long plain = ground arith

module _ (card : Card) (now stack : ℕ → ℕ) where
  -- A name without a slash, of fewer than 4096 characters, that an entry of the working directory has
  -- from the third on: the first entry of that name is taken out, and the others keep their order. The
  -- volume is one of `do_mkfs`, and the directory's block is in its data area.
  pub remove_from_parent-plain :
      (fuel : ℕ) (s : Session card.Disk) (d u : List ℕ × ℕ) (es : Directory) (name : ℕ → ℕ)
      (xs : List ℕ) (th : ℕ)
      → IsHolder card now stack s.fs s.cwd d u es
      → IsString name 0 xs
      → has 47 xs ≡ false
      → length xs < 4096
      → length xs < fuel
      → position es xs 2 ≡ some th
      → Ends
          (λ new. Shows card stack new.fs s.cwd (d ∷ u ∷ delete xs es) × (new.cwd ≡ s.cwd))
          (remove_from_parent card now stack fuel s name)
  unfolding remove_from_parent is_multi_level
  remove_from_parent-plain fuel s d u es name xs th holder h plain small enough is =
      rw (count_slashes-IsString fuel name 0 xs h enough, slashes-has xs plain)
        (Ends-bind _ _ (unlink_entry card now stack fuel s.fs s.cwd name 0) _
          (unlink_entry-delete card now stack fuel s.fs s.cwd d u es name 0 xs th holder h small is)
          λ new shows. (shows, refl))

  -- A name of two levels, `xs` and `ys` with one slash between them, is looked for in the working
  -- directory, where no name has a slash: the last entry of the working directory is lost, whatever
  -- it is.
  pub remove_from_parent-two_levels :
      (fuel : ℕ) (s : Session card.Disk) (d u e : List ℕ × ℕ) (es : Directory) (name : ℕ → ℕ)
      (xs ys : List ℕ)
      → IsHolder card now stack s.fs s.cwd d u (es ++ e ∷ [])
      → IsPlain (es ++ e ∷ [])
      → IsString name 0 (xs ++ 47 ∷ ys)
      → has 47 xs ≡ false
      → has 47 ys ≡ false
      → 0 < length xs
      → length (xs ++ 47 ∷ ys) < 4096
      → length (xs ++ 47 ∷ ys) < fuel
      → Ends
          (λ new. Shows card stack new.fs s.cwd (d ∷ u ∷ es))
          (remove_from_parent card now stack fuel s name)
  unfolding remove_from_parent is_multi_level
  remove_from_parent-two_levels fuel s d u e es name xs ys holder names h plain plain' long small
        enough =
      let one : slashes (xs ++ 47 ∷ ys) ≡ 1 =
        slashes-append xs (47 ∷ ys) ∙ omega (arith, slashes-has xs plain, slashes-has ys plain') in
      let in_it : has 47 (xs ++ 47 ∷ ys) ≡ true = ground (arith, has-append 47 xs (47 ∷ ys)) in
      rw
        (
          count_slashes-IsString fuel name 0 (xs ++ 47 ∷ ys) h enough,
          one,
          first_of name xs (47 ∷ ys) h long plain,
        )
        (Ends-bind _ _ (unlink_entry card now stack fuel s.fs s.cwd name 0) _
          (unlink_entry-absent card now stack fuel s.fs s.cwd d u e es name 0 (xs ++ 47 ∷ ys) holder
            h small (position-IsPlain (es ++ e ∷ []) (xs ++ 47 ∷ ys) 2 in_it names))
          λ new shows. shows)
