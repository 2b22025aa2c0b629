-- ===== src/Fs/Change/Down.antt =====
-- `cd` of kernel/fs/fs.c to one name: where it leads, and what becomes of the string of the working
-- directory.
use mips_os.Common.{ℕ, suc, ◌+◌, ◌≤◌, ◌<◌, ◌≡◌, refl, ◌∙◌, subst}
use mips_os.Common.{◌⊎◌, inl, false, Option, none, some}
use mips_os.Common.{List, [], ◌∷◌, ◌++◌, arith, if◌then◌else◌, update}
use mips_os.Common.{lt→ltb}
use mips_os.Common.{Outcome, ok, fault, hang, ◌>>=◌, Ends, Ends-bind, length, has}
use mips_os.Common.{Ends, Ends-bind}
use mips_os.Text.Walk.{IsString, same_list}
use mips_os.Fs.{Fs}
use mips_os.Fs.Card.{Card}
use mips_os.Fs.Remove.{entry_inode}
use mips_os.Fs.Path.{copy_name, search_entries, check_inode, follow_link, read_block}
use mips_os.Fs.Path.Names.{same_name-same_list, copy_name-IsString, component_end-last}
use mips_os.Fs.Path.Resolve.{
  through, first_char, Directory, lookup, Shows, Found, searched, name_parse-resolve,
}
use mips_os.Fs.Directory.{Session}
use mips_os.Fs.Directory.Spelling.{strlen-IsString, name_str_standrize-IsString}
use mips_os.Fs.Change.{
  put_char, end_with_slash, leave_dir, enter_dir, dot, dot_dot, change_str, change_components,
  update_cwd_str, change_to, do_cd,
}

abbrev pub dot_name : List ℕ
dot_name = 46 ∷ []

abbrev pub dot_dot_name : List ℕ
dot_dot_name = 46 ∷ 46 ∷ []

pub change_str-name :
    (str : ℕ → ℕ) (len : ℕ) (name : ℕ → ℕ) (pos : ℕ) (xs : List ℕ)
    → IsString name pos xs
    → length xs < 240
    → change_str str len name pos ≡ (
        if same_list xs dot_name
        then ok (str, len)
        else if same_list xs dot_dot_name
        then leave_dir str len
        else enter_dir str len name pos)
unfolding change_str
change_str-name str len name pos xs h small =
    rw
      (
        same_name-same_list 241 name pos dot 0 xs dot_name h (refl, omega arith, omega arith, refl)
            (omega arith) (omega arith),
        same_name-same_list 241 name pos dot_dot 0 xs dot_dot_name h
            (refl, omega arith, omega arith, (refl, omega arith, omega arith, refl)) (omega arith)
            (omega arith),
      )
      refl

-- A string with more put after it.
pub IsString-join :
    (old new : ℕ → ℕ) (s : ℕ) (xs ys : List ℕ)
    → IsString old s xs
    → ((a : ℕ) → s ≤ a → a < s + length xs → new a ≡ old a)
    → IsString new (s + length xs) ys
    → IsString new s (xs ++ ys)
IsString-join old new s [] ys h same k = subst (λ a. IsString new a ys) (omega arith) k
IsString-join old new s (x ∷ xs) ys (e, low, high, h) same k = (
  same s (omega arith) (omega arith) ∙ e,
  low,
  high,
  IsString-join old new (s + 1) xs ys h (λ a le lt. same a (omega arith) (omega arith))
      (subst (λ a. IsString new a ys) (omega arith) k),
)

-- A string put at the end of another, with a slash.
enter_dir-IsString :
    (str : ℕ → ℕ) (name : ℕ → ℕ) (pos : ℕ) (ys xs : List ℕ)
    → IsString str 0 ys
    → IsString name pos xs
    → length ys + length xs < 239
    → Ends (λ r. IsString r.0 0 (ys ++ (xs ++ 47 ∷ []))) (enter_dir str (length ys) name pos)
unfolding enter_dir end_with_slash put_char
enter_dir-IsString str name pos ys xs hs h small =
    Ends-bind _ _ (copy_name 241 240 str (length ys) name pos) _
      (copy_name-IsString 241 240 str (length ys) name pos xs h (omega arith) (omega arith))
      λ new (copied, same).
        rw
          (
            strlen-IsString 241 name pos xs h (omega arith),
            lt→ltb (length ys + length xs) 240 (omega arith),
            lt→ltb (length ys + length xs + 1) 240 (omega arith),
          )
          (joined new copied same)
  where
    slashed : (ℕ → ℕ) → ℕ → ℕ
    slashed new = update (update new (length ys + length xs) 47) (length ys + length xs + 1) 0

    joined :
        (new : ℕ → ℕ)
        → IsString new (length ys) xs
        → ((a : ℕ) → (a < length ys) ⊎ (length ys + length xs < a) → new a ≡ str a)
        → IsString (slashed new) 0 (ys ++ (xs ++ 47 ∷ []))
    joined new copied same =
        IsString-join str (slashed new) 0 ys (xs ++ 47 ∷ []) hs
          (λ a le lt. ground (arith, same a (inl (omega arith))))
          (IsString-join new (slashed new) (0 + length ys) xs (47 ∷ [])
            (subst (λ a. IsString new a xs) (omega arith) copied) (λ a le lt. ground arith)
            (ground arith, omega arith, omega arith, ground arith))

-- The result of a run that ends well.
Ends-ok : {A : Type 0} (P : A → Type 0) (r : Outcome A) → Ends P r → (a : A) × (r ≡ ok a) × P a
Ends-ok P (ok a) p = (a, refl, p)
Ends-ok P fault p = absurd p
Ends-ok P hang p = absurd p

-- One component, found in the directory.
module _ (card : Card) (stack : ℕ → ℕ) where
  Found-one :
      (P : ℕ → Outcome (ℕ → ℕ)) (buf str : ℕ → ℕ) (f : Option ℕ) (n : ℕ) (r : Outcome (ℕ → ℕ))
      → Found buf f (some n)
      → ((i : ℕ) → entry_inode buf i < 8192 → P i ≡ r)
      → (elim f [ none ↦ ok str | some i ↦ P i ]) ≡ r
  Found-one P buf str none n r e h = absurd cc
  Found-one P buf str (some i) n r (e, low) h = h i low

  dropped :
      {A : Type 0} (r : Outcome A) (f : A → (ℕ → ℕ)) (n : ℕ)
      → n < 8192
      → (r >>= λ a. check_inode n >>= λ _. ok (f a)) ≡ (r >>= λ a. ok (f a))
  unfolding check_inode
  dropped (ok a) f n low = rw (lt→ltb n 8192 low) refl
  dropped fault f n low = refl
  dropped hang f n low = refl

  change_components-last :
      (fuel : ℕ) (fs : Fs card.Disk) (name : ℕ → ℕ) (target n : ℕ) (str : ℕ → ℕ) (len : ℕ)
      (xs : List ℕ) (es : Directory)
      → Shows card stack fs target es
      → lookup es xs ≡ some n
      → IsString name 0 xs
      → has 47 xs ≡ false
      → length xs < 240
      → change_components card stack (suc fuel) fs name 0 target str len
        ≡ (change_str str len name 0 >>= λ r. ok r.0)
  unfolding change_components
  change_components-last fuel fs name target n str len xs es shows is h plain small =
      rw (component_end-last 241 name 0 xs h plain (omega arith) (omega arith)) (
        through
          (search_entries (fs.nodes target).entry_num name 0 (read_block card stack fs target) 0) _
          _ (searched card stack fs name 0 target xs es shows h small)
          λ f found.
            Found-one _ (read_block card stack fs target) str f n _
              (subst (Found (read_block card stack fs target) f) is found)
              λ i low.
                dropped (change_str str len name 0) (λ r. r.0)
                  (entry_inode (read_block card stack fs target) i) low)

  -- `cd` to a name of the working directory: `name_parse` gives its inode, and the rest is what the
  -- name does to the string.
  pub do_cd-name :
      (fuel : ℕ) (s : Session card.Disk) (name : ℕ → ℕ) (n : ℕ) (xs ys : List ℕ) (es : Directory)
      → Shows card stack s.fs s.cwd es
      → lookup es xs ≡ some n
      → follow_link s.fs.nodes (some n) ≡ ok (some n)
      → IsString name 0 xs
      → has 47 xs ≡ false
      → 0 < length xs
      → length xs < 240
      → length xs < fuel
      → IsString s.cwd_str 0 ys
      → length ys < 240
      → (copy : ℕ → ℕ) × IsString copy 0 xs
        × (do_cd card stack fuel (some name) s ≡ (
            change_str s.cwd_str (length ys) copy 0 >>= λ r.
            ok (record s { cwd = n; cwd_str = r.0 })))
  unfolding do_cd change_to update_cwd_str
  do_cd-name fuel s name n xs ys es shows is linked h plain long small enough at room =
      let made =
        Ends-ok _ (copy_name 241 240 stack 0 name 0)
          (copy_name-IsString 241 240 stack 0 name 0 xs h (omega arith) (omega arith)) in
      (
        made.0,
        made.2.0,
        rw
            (
              name_str_standrize-IsString fuel name xs h plain long enough,
              name_parse-resolve card stack (λ _. es) s.fs s.cwd name false xs [] shows h plain
                  (λ _. long) small,
              is,
              linked,
              strlen-IsString 241 s.cwd_str 0 ys at (omega arith),
              made.1,
              first_char made.0 xs [] made.2.0 plain long,
              change_components-last 240 s.fs made.0 s.cwd n s.cwd_str (length ys) xs es shows is
                  made.2.0 plain small,
            )
            (after (change_str s.cwd_str (length ys) made.0 0) (λ r. r.0)
              (λ str. record s { cwd = n; cwd_str = str })),
      )
    where
      after :
          {A B C : Type 0} (r : Outcome A) (f : A → B) (g : B → C)
          → ((r >>= λ a. ok (f a)) >>= λ b. ok (g b)) ≡ (r >>= λ a. ok (g (f a)))
      after (ok a) f g = refl
      after fault f g = refl
      after hang f g = refl

  -- `cd` to a directory below ends well: `cwd` is its inode, and its name and a slash are put at the
  -- end of the string. The name is an entry of the working directory, of 1 to 239 characters without
  -- a slash, not "." or "..", for an inode that is no soft link, and the string stays below 240 bytes.
  pub do_cd_down :
      (fuel : ℕ) (s : Session card.Disk) (name : ℕ → ℕ) (n : ℕ) (xs ys : List ℕ) (es : Directory)
      → Shows card stack s.fs s.cwd es
      → lookup es xs ≡ some n
      → follow_link s.fs.nodes (some n) ≡ ok (some n)
      → IsString name 0 xs
      → has 47 xs ≡ false
      → 0 < length xs
      → length xs < fuel
      → same_list xs dot_name ≡ false
      → same_list xs dot_dot_name ≡ false
      → IsString s.cwd_str 0 ys
      → length ys + length xs < 239
      → Ends
          (λ (new : Session card.Disk).
            (new.cwd ≡ n) × (new.fs ≡ s.fs) × IsString new.cwd_str 0 (ys ++ (xs ++ 47 ∷ [])))
          (do_cd card stack fuel (some name) s)
  do_cd_down fuel s name n xs ys es shows is linked h plain long enough here up at room =
      let run =
        do_cd-name fuel s name n xs ys es shows is linked h plain long (omega arith) enough at
          (omega arith) in
      rw (run.2, change_str-name s.cwd_str (length ys) run.0 0 xs run.1 (omega arith), here, up)
        (Ends-bind _ _ (enter_dir s.cwd_str (length ys) run.0 0) _
          (enter_dir-IsString s.cwd_str run.0 0 ys xs at run.1 room) λ r p. (refl, refl, p))
