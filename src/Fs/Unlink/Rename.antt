-- ===== src/Fs/Unlink/Rename.antt =====
-- What `do_rename` of kernel/fs/fs.c does to the list of entries of the working directory.
use mips_os.Common.{ℕ, suc, ◌+◌, ◌-◌, ◌*◌, ◌≤◌, ◌<◌, ◌≡◌, refl, ap, ◌∙◌, subst}
use mips_os.Common.{◌⊎◌, inl, inr, false, some}
use mips_os.Common.{List, [], ◌∷◌, arith, if◌then◌else◌}
use mips_os.Common.{Bool-cases}
use mips_os.Common.{Ends, Ends-bind, length, has}
use mips_os.Common.{Ends, Ends-bind}
use mips_os.Text.Walk.{IsString, IsString-frame, same_list}
use mips_os.Fs.{Fs, mkfs_super_block}
use mips_os.Fs.Card.{Card}
use mips_os.Fs.Inodes.Frame.{Spares}
use mips_os.Fs.Path.{name_at, copy_name, read_block}
use mips_os.Fs.Path.Names.{copy_name-IsString}
use mips_os.Fs.Path.Resolve.{Directory, Lists, Shows}
use mips_os.Fs.Directory.{Session, write_block, rename_entry, do_rename}
use mips_os.Fs.Directory.Entry.{Lists-frame}
use mips_os.Fs.Directory.Spelling.{name_str_standrize-IsString}
use mips_os.Fs.Directory.Stored.{read_block-write_block}
use mips_os.Fs.Unlink.Entries.{with_front}
use mips_os.Fs.Unlink.Shift.{position, later, found_after, search_entries-position, word_at-move}

-- The directory with the first entry of that name renamed.
abbrev pub renamed : (old new : List ℕ) → Directory → Directory
renamed old new [] = []
renamed old new (e ∷ es) = if same_list old e.0 then (new, e.1) ∷ es else e ∷ renamed old new es

pub length-renamed : (old new : List ℕ) (es : Directory) → length (renamed old new es) ≡ length es
length-renamed old new [] = refl
length-renamed old new (e ∷ es) = elim (Bool-cases (same_list old e.0)) [
  | inl same ↦ rw same refl
  | inr other ↦ rw other (ap suc (length-renamed old new es))
]

Lists-after :
    (buf new : ℕ → ℕ) (i : ℕ) (es : Directory)
    → Lists buf i es
    → ((a : ℕ) → 32 * i ≤ a → new a ≡ buf a)
    → Lists new i es
Lists-after buf new i [] l same = tt
Lists-after buf new i (e ∷ es) (s, short, at, low, l) same = (
  IsString-frame buf new (name_at i) e.0 s (λ a le most. same a (omega arith)),
  short,
  word_at-move buf new (32 * i + 4) (32 * i + 4) (λ j lt. same (32 * i + 4 + j) (omega arith)) ∙ at,
  low,
  Lists-after buf new (i + 1) es l (λ a le. same a (omega arith)),
)

-- Writing a name into the place of the first entry of that name renames it.
Lists-renamed :
    (buf new : ℕ → ℕ) (i th : ℕ) (c ys : List ℕ) (es : Directory)
    → Lists buf i es
    → position es c i ≡ some th
    → IsString new (name_at th) ys
    → length ys < 24
    → ((a : ℕ) → (a < name_at th) ⊎ (name_at th + length ys < a) → new a ≡ buf a)
    → Lists new i (renamed c ys es)
Lists-renamed buf new i th c ys [] l is h fits same = absurd cc
Lists-renamed buf new i th c ys (d ∷ ds) (s, short, at, low, l) is h fits same =
    elim (Bool-cases (same_list c d.0)) [
      | inl equal ↦
          let here : th ≡ i = ground (arith, equal) in
          rw equal (
            subst (λ k. IsString new (name_at k) ys) here h,
            fits,
            word_at-move buf new (32 * i + 4) (32 * i + 4)
                  (λ j lt. same (32 * i + 4 + j) (inl (omega (arith, here))))
                ∙ at,
            low,
            Lists-after buf new (i + 1) ds l (λ a le. same a (inr (omega (arith, here)))),
          )
      | inr other ↦
          let after = later d ds c i th other is in
          let bounds = found_after ds c (i + 1) th after in
          rw other (
            IsString-frame buf new (name_at i) d.0 s
                (λ a le most. same a (inl (omega (arith, bounds.0)))),
            short,
            word_at-move buf new (32 * i + 4) (32 * i + 4)
                  (λ j lt. same (32 * i + 4 + j) (inl (omega (arith, bounds.0))))
                ∙ at,
            low,
            Lists-renamed buf new (i + 1) th c ys ds l after h fits same,
          )
    ]

module _ (card : Card) (now stack : ℕ → ℕ) where
  written_back :
      (fuel : ℕ) (fs : Fs card.Disk) (cwd : ℕ) (ds : Directory) (buf : ℕ → ℕ)
      → mkfs_super_block.data_start ≤ (fs.nodes cwd).direct 0
      → (fs.nodes cwd).entry_num ≡ length ds
      → length ds ≤ 128
      → Lists buf 0 ds
      → Shows card stack (write_block card now stack fuel fs cwd buf) cwd ds
  unfolding write_block
  written_back fuel fs cwd ds buf at count room l =
      let same : Spares card (λ a. mkfs_super_block.data_start ≤ a)
          (write_block card now stack fuel fs cwd buf)
          (write_block card now stack fuel fs cwd buf) =
        record { nodes = refl; fd = refl; super_block = refl; card_same = λ a h. refl } in
      (
        count,
        room,
        Lists-frame buf _ 0 ds l (λ a lt.
            read_block-write_block card now stack fuel fs
              (write_block card now stack fuel fs cwd buf) cwd buf same at a (omega (arith, room))),
      )

  -- Renaming an entry of the working directory, from the third on, ends well, and its list of entries
  -- has the new name in the place of the old, for the same inode. Both names have no slash; the new
  -- one has 1 to 23 characters, and the old one fewer than 4096.
  pub do_rename-renamed :
      (fuel : ℕ) (s : Session card.Disk) (d u : List ℕ × ℕ) (es : Directory) (old new : ℕ → ℕ)
      (xs ys : List ℕ) (th : ℕ)
      → Shows card stack s.fs s.cwd (d ∷ u ∷ es)
      → mkfs_super_block.data_start ≤ (s.fs.nodes s.cwd).direct 0
      → IsString old 0 xs
      → has 47 xs ≡ false
      → 0 < length xs
      → length xs < 4096
      → length xs < fuel
      → IsString new 0 ys
      → has 47 ys ≡ false
      → 0 < length ys
      → length ys < 24
      → length ys < fuel
      → position es xs 2 ≡ some th
      → Ends
          (λ n. Shows card stack n.fs s.cwd (d ∷ u ∷ renamed xs ys es) × (n.cwd ≡ s.cwd))
          (do_rename card now stack fuel old new s)
  unfolding do_rename rename_entry
  do_rename-renamed fuel s d u es old new xs ys th shows in_data h plain long small enough h' plain'
        long' short enough' is =
      let left : (s.fs.nodes s.cwd).entry_num - 2 ≡ length es = omega (arith, shows.0) in
      let buf = read_block card stack s.fs s.cwd in
      let bounds = found_after es xs 2 th is in
      rw
        (
          name_str_standrize-IsString fuel old xs h plain long enough,
          name_str_standrize-IsString fuel new ys h' plain' long' enough',
          left,
          search_entries-position es old 0 buf 2 xs h small shows.2.4.4 (omega (arith, shows.1)),
          is,
        )
        (Ends-bind _ _ (copy_name fuel 4096 buf (name_at th) new 0) _
          (copy_name-IsString fuel 4096 buf (name_at th) new 0 ys h'
            (omega (arith, bounds.1, shows.1)) enough')
          λ after (copied, same). (
            written_back fuel s.fs s.cwd (d ∷ u ∷ renamed xs ys es) after in_data
                (shows.0 ∙ omega (arith, length-renamed xs ys es))
                (omega (arith, shows.1, length-renamed xs ys es))
                (with_front buf after d u es (renamed xs ys es) shows.2
                  (λ a lt. same a (inl (omega (arith, bounds.0))))
                  (Lists-renamed buf after 2 th xs ys es shows.2.4.4 is copied short same)),
            refl,
          ))
