-- ===== src/Fs/Change/Up.antt =====
-- `cd` to ".." of kernel/fs/fs.c: the last directory of the string goes away.
use mips_os.Common.{ℕ, zero, suc, ◌+◌, ◌-◌, ◌≤◌, ◌<◌, ◌≡◌, refl, sym, ap, ◌∙◌, subst}
use mips_os.Common.{inl, inr, true, false, some}
use mips_os.Common.{List, [], ◌∷◌, ◌++◌, arith, ◌==◌, update}
use mips_os.Common.{lt→ltb, ==_iff, update_other, Bool-cases}
use mips_os.Common.{ok, fault, ◌>>=◌, Ends, Ends-bind, length, length-append, has}
use mips_os.Common.{Ends, Ends-bind, Ends-map, update_other}
use mips_os.Text.Walk.{IsString, same_list}
use mips_os.Fs.{Fs}
use mips_os.Fs.Card.{Card}
use mips_os.Fs.Path.{follow_link}
use mips_os.Fs.Path.Resolve.{Directory, lookup, Shows}
use mips_os.Fs.Directory.{Session}
use mips_os.Fs.Change.{put_char, end_with_slash, back_to_slash, leave_dir, do_cd}
use mips_os.Fs.Directory.Spelling.{char_of}
use mips_os.Fs.Path.Names.{IsString-cut}
use mips_os.Fs.Change.Down.{
  dot_name, dot_dot_name, IsString-join, change_str-name, do_cd-name, do_cd_down,
}

back_to_slash_at :
    (str : ℕ → ℕ) (k i : ℕ)
    → k ≤ i
    → str k ≡ 47
    → ((a : ℕ) → k < a → a ≤ i → (str a == 47) ≡ false)
    → back_to_slash str i ≡ ok k
unfolding back_to_slash
back_to_slash_at str k zero le at others =
    let e : k ≡ 0 = omega arith in
    let here : (str 0 == 47) ≡ true = ground (arith, ap str e) in rw here (ap ok (omega arith))
back_to_slash_at str k (suc i) le at others = elim (Bool-cases (k == suc i)) [
  | inl same ↦
      let e : k ≡ suc i = (==_iff k (suc i)).0 same in
      let here : (str (suc i) == 47) ≡ true = ground (arith, ap str e) in
      rw (here, back_to_slash) (ap ok (sym e))
  | inr other ↦
      rw (others (suc i) (ground arith) (omega arith), back_to_slash)
        (back_to_slash_at str k i (ground arith) at (λ a lt le. others a lt (omega arith)))
]

char_at :
    (mem : ℕ → ℕ) (s : ℕ) (xs : List ℕ) (y : ℕ) (rest : List ℕ)
    → IsString mem s (xs ++ y ∷ rest)
    → mem (s + length xs) ≡ y
char_at mem s [] y rest h = ap mem (omega arith) ∙ h.0
char_at mem s (x ∷ xs) y rest h = ap mem (omega arith) ∙ char_at mem (s + 1) xs y rest h.3

leave_dir-IsString :
    (str : ℕ → ℕ) (ys xs : List ℕ)
    → IsString str 0 (ys ++ 47 ∷ (xs ++ 47 ∷ []))
    → has 47 xs ≡ false
    → length ys + length xs < 237
    → Ends (λ r. IsString r.0 0 (ys ++ 47 ∷ [])) (leave_dir str (suc (length ys + 1 + length xs)))
unfolding leave_dir put_char end_with_slash
leave_dir-IsString str ys xs h plain room =
    rw
      (
        lt→ltb m 240 (omega arith),
        back_to_slash_at cut k (suc m) (omega arith) slash others,
        lt→ltb k 240 (omega arith),
        lt→ltb (k + 1) 240 (omega arith),
      )
      (IsString-join (update str k 0) (update (update cut k 47) (k + 1) 0) 0 ys (47 ∷ []) front.0
        (λ a le lt. ground arith) (ground arith, omega arith, omega arith, ground arith))
  where
    k : ℕ
    k = length ys

    m : ℕ
    m = length ys + 1 + length xs

    cut : ℕ → ℕ
    cut = update str m 0

    front : IsString (update str k 0) 0 ys × IsString (update str k 0) (k + 1) (xs ++ 47 ∷ [])
    front = IsString-cut str 0 k ys (xs ++ 47 ∷ []) (omega arith) h

    back :
        IsString (update (update str k 0) m 0) (k + 1) xs
        × IsString (update (update str k 0) m 0) (m + 1) []
    back = IsString-cut (update str k 0) (k + 1) m xs [] (omega arith) front.1

    slash : cut k ≡ 47
    slash =
        update_other str m 0 k (omega arith)
        ∙ ap str (omega arith)
        ∙ char_at str 0 ys 47 (xs ++ 47 ∷ []) h

    agree : (a : ℕ) → k < a → update (update str k 0) m 0 a ≡ cut a
    agree a lt = ground arith

    inside : (j : ℕ) → j < length xs → (cut (k + 1 + j) == 47) ≡ false
    inside j lt =
        subst (λ v. (v == 47) ≡ false) (agree (k + 1 + j) (omega arith))
          (char_of (update (update str k 0) m 0) (k + 1) j xs back.0 plain lt)

    others : (a : ℕ) → k < a → a ≤ suc m → (cut a == 47) ≡ false
    others a lt le = elim (Bool-cases (a == m)) [
      | inl same ↦ rw same refl
      | inr other ↦ elim (Bool-cases (a == m + 1)) [
        | inl same ↦
            let end : cut (m + 1) ≡ 0 = sym (agree (m + 1) (omega arith)) ∙ back.1 in
            ground (arith, end)
        | inr other' ↦
            subst (λ b. (cut b == 47) ≡ false) (omega (arith, lt))
              (inside (a - (k + 1)) (ground arith))
      ]
    ]

leave_root : (str : ℕ → ℕ) → str 1 ≡ 0 → leave_dir str 1 ≡ fault
unfolding leave_dir put_char back_to_slash
leave_root str end =
    let none_there : (str 1 == 47) ≡ false = ground (arith, end) in
    rw (none_there, back_to_slash) refl

regroup : (ys zs : List ℕ) → ((ys ++ 47 ∷ []) ++ zs) ≡ (ys ++ 47 ∷ zs)
regroup [] zs = refl
regroup (y ∷ ys) zs = ap (λ l. y ∷ l) (regroup ys zs)

module _ (card : Card) (stack : ℕ → ℕ) where
  -- `cd` to ".." ends well: `cwd` is the inode of that entry, and the string loses its last component.
  pub do_cd_up :
      (fuel : ℕ) (s : Session card.Disk) (name : ℕ → ℕ) (n : ℕ) (xs ys : List ℕ) (es : Directory)
      → Shows card stack s.fs s.cwd es
      → lookup es dot_dot_name ≡ some n
      → follow_link s.fs.nodes (some n) ≡ ok (some n)
      → IsString name 0 dot_dot_name
      → 2 < fuel
      → IsString s.cwd_str 0 (ys ++ 47 ∷ (xs ++ 47 ∷ []))
      → has 47 xs ≡ false
      → length ys + length xs < 237
      → Ends
          (λ (new : Session card.Disk).
            (new.cwd ≡ n) × (new.fs ≡ s.fs) × IsString new.cwd_str 0 (ys ++ 47 ∷ []))
          (do_cd card stack fuel (some name) s)
  do_cd_up fuel s name n xs ys es shows is linked h enough at plain room =
      let run =
        do_cd-name card stack fuel s name n dot_dot_name (ys ++ 47 ∷ (xs ++ 47 ∷ [])) es shows is
          linked h refl (omega arith) (omega arith) enough at (omega (arith, len)) in
      rw
        (
          run.2,
          change_str-name s.cwd_str (length (ys ++ 47 ∷ (xs ++ 47 ∷ []))) run.0 0 dot_dot_name run.1
              (omega arith),
          len,
        )
        (Ends-bind _ _ (leave_dir s.cwd_str (suc (length ys + 1 + length xs))) _
          (leave_dir-IsString s.cwd_str ys xs at plain room) λ r p. (refl, refl, p))
    where
      long : length (ys ++ 47 ∷ (xs ++ 47 ∷ [])) ≡ length ys + suc (length (xs ++ 47 ∷ []))
      long = length-append ys (47 ∷ (xs ++ 47 ∷ []))

      len : length (ys ++ 47 ∷ (xs ++ 47 ∷ [])) ≡ suc (length ys + 1 + length xs)
      len = omega (arith, long, length-append xs (47 ∷ []))

  -- `cd` to ".." where the string is "/" walks back past the start of the string, a wild access. The
  -- working directory has an entry "..", as the root that `do_mkfs` makes has.
  pub do_cd_root_faults :
      (fuel : ℕ) (s : Session card.Disk) (name : ℕ → ℕ) (n : ℕ) (es : Directory)
      → Shows card stack s.fs s.cwd es
      → lookup es dot_dot_name ≡ some n
      → follow_link s.fs.nodes (some n) ≡ ok (some n)
      → IsString name 0 dot_dot_name
      → 2 < fuel
      → IsString s.cwd_str 0 (47 ∷ [])
      → do_cd card stack fuel (some name) s ≡ fault
  do_cd_root_faults fuel s name n es shows is linked h enough at =
      let run =
        do_cd-name card stack fuel s name n dot_dot_name (47 ∷ []) es shows is linked h refl
          (omega arith) (omega arith) enough at (omega arith) in
      run.2
      ∙ rw
          (
            change_str-name s.cwd_str 1 run.0 0 dot_dot_name run.1 (omega arith),
            leave_root s.cwd_str at.3,
          )
          refl

  -- `cd` to a directory below and `cd` to ".." come back: `cwd` and the string are as before. The
  -- directory has an entry ".." for the one that it is in.
  pub cd_and_back :
      (fuel : ℕ) (s : Session card.Disk) (name up : ℕ → ℕ) (n : ℕ) (xs ys : List ℕ)
      (es below : Directory)
      → Shows card stack s.fs s.cwd es
      → lookup es xs ≡ some n
      → follow_link s.fs.nodes (some n) ≡ ok (some n)
      → Shows card stack s.fs n below
      → lookup below dot_dot_name ≡ some s.cwd
      → follow_link s.fs.nodes (some s.cwd) ≡ ok (some s.cwd)
      → IsString name 0 xs
      → has 47 xs ≡ false
      → 0 < length xs
      → length xs < fuel
      → same_list xs dot_name ≡ false
      → same_list xs dot_dot_name ≡ false
      → IsString up 0 dot_dot_name
      → 2 < fuel
      → IsString s.cwd_str 0 (ys ++ 47 ∷ [])
      → length ys + length xs < 237
      → Ends
          (λ (new : Session card.Disk).
            (new.cwd ≡ s.cwd) × (new.fs ≡ s.fs) × IsString new.cwd_str 0 (ys ++ 47 ∷ []))
          (do mid ← do_cd card stack fuel (some name) s; do_cd card stack fuel (some up) mid)
  cd_and_back fuel s name up n xs ys es below shows is linked shows' is' linked' h plain long enough
        here above h' enough' at room =
      Ends-bind _ _ (do_cd card stack fuel (some name) s) _
        (do_cd_down card stack fuel s name n xs (ys ++ 47 ∷ []) es shows is linked h plain long
          enough here above at (omega (arith, length-append ys (47 ∷ []))))
        λ mid (cwd, same, str).
          Ends-map _ _ (do_cd card stack fuel (some up) mid)
            (do_cd_up fuel mid up s.cwd xs ys below
              (subst (λ f. Shows card stack f mid.cwd below) (sym same)
                (subst (λ m. Shows card stack s.fs m below) (sym cwd) shows'))
              is'
              (subst (λ (f : Fs card.Disk). follow_link f.nodes (some s.cwd) ≡ ok (some s.cwd))
                (sym same) linked')
              h' enough' (subst (IsString mid.cwd_str 0) (regroup ys (xs ++ 47 ∷ [])) str) plain
              room)
            λ new (a, b, c). (a, b ∙ same, c)
