-- ===== src/Fs/Unlink/Entries.antt =====
-- What the end of `do_rm` of kernel/fs/fs.c does to the directory's list of entries.
use mips_os.Common.{ℕ, suc, ◌+◌, ◌-◌, ◌≤◌, ◌<◌, ◌≡◌, refl, sym, ap, ◌∙◌, subst}
use mips_os.Common.{none, some}
use mips_os.Common.{List, [], ◌∷◌, ◌++◌, arith}
use mips_os.Common.{update_self}
use mips_os.Common.{Ends, Ends-bind, length, length-append}
use mips_os.Common.{Ends, Ends-bind, update_self}
use mips_os.Text.Walk.{IsString}
use mips_os.Fs.{Inode, Fs, mkfs_super_block}
use mips_os.Fs.Card.{Card}
use mips_os.Fs.Inodes.{update_inode, update_bit_map}
use mips_os.Fs.Inodes.Frame.{update_both-Spares}
use mips_os.Fs.Path.{read_block}
use mips_os.Fs.Path.Resolve.{Directory, Lists, Shows}
use mips_os.Fs.Directory.{write_block, set_node}
use mips_os.Fs.Directory.Entry.{Lists-frame}
use mips_os.Fs.Directory.Stored.{read_block-write_block}
use mips_os.Fs.Unlink.{shift_entries, drop_entry, fewer_entries, unlink_entry}
use mips_os.Fs.Unlink.Shift.{
  position, delete, search_entries-position, Shifted, shift_entries-Shifted, Lists-delete,
  found_after,
}

-- The first two entries kept, and other entries after them.
pub with_front :
    (buf new : ℕ → ℕ) (d u : List ℕ × ℕ) (es fs : Directory)
    → Lists buf 0 (d ∷ u ∷ es)
    → ((a : ℕ) → a < 64 → new a ≡ buf a)
    → Lists new 2 fs
    → Lists new 0 (d ∷ u ∷ fs)
with_front buf new d u es fs (a, b, c, e, (a', b', c', e', _)) same l =
    let two : Lists new 0 (d ∷ u ∷ []) =
      Lists-frame buf new 0 (d ∷ u ∷ []) (a, b, c, e, (a', b', c', e', tt)) same in
    (two.0, two.1, two.2, two.3, (two.4.0, two.4.1, two.4.2, two.4.3, l))

without_last :
    (buf : ℕ → ℕ) (i : ℕ) (es : Directory) (e : List ℕ × ℕ)
    → Lists buf i (es ++ e ∷ [])
    → Lists buf i es
without_last buf i [] e l = tt
without_last buf i (d ∷ ds) e (a, b, c, s, l) = (a, b, c, s, without_last buf (i + 1) ds e l)

keep :
    (th last : ℕ) (buf new : ℕ → ℕ)
    → Shifted th last buf new
    → 2 ≤ th
    → (a : ℕ) → a < 64
    → new a ≡ buf a
keep th last buf new sh le a lt = sh a ∙ ground arith

module _ (card : Card) (now stack : ℕ → ℕ) where
  -- A directory of a volume of `do_mkfs`, with its block in the data area: its two entries for itself
  -- and its parent, and the others.
  pub record IsHolder (fs : Fs card.Disk) (parent : ℕ) (d u : List ℕ × ℕ) (es : Directory)
      : Type 0 where
    pub volume : fs.super_block ≡ mkfs_super_block
    pub in_data : mkfs_super_block.data_start ≤ (fs.nodes parent).direct 0
    pub shows : Shows card stack fs parent (d ∷ u ∷ es)

  shrunk :
      (fuel : ℕ) (fs : Fs card.Disk) (parent : ℕ) (ds : Directory) (buf : ℕ → ℕ)
      → fs.super_block ≡ mkfs_super_block
      → mkfs_super_block.data_start ≤ (fs.nodes parent).direct 0
      → (fs.nodes parent).entry_num ≡ suc (length ds)
      → length ds < 128
      → Lists buf 0 ds
      → Shows card stack
          (update_inode card (
            update_bit_map card (
              write_block card now stack fuel
                (set_node fs parent (fewer_entries (fs.nodes parent)))
                parent
                buf)))
          parent
          ds
  unfolding write_block
  shrunk fuel fs parent ds buf volume at count room l =
      let node = update_self fs.nodes parent (fewer_entries (fs.nodes parent)) in
      let mid = set_node fs parent (fewer_entries (fs.nodes parent)) in
      let spares =
        update_both-Spares card (write_block card now stack fuel mid parent buf) volume in
      (
        ap (λ (nodes : ℕ → Inode). (nodes parent).entry_num) spares.nodes
            ∙ ap (λ (ind : Inode). ind.entry_num) node
            ∙ omega (arith, count, room),
        omega (arith, room),
        Lists-frame buf _ 0 ds l (λ a lt.
            read_block-write_block card now stack fuel mid _ parent buf spares
              (subst (λ (ind : Inode). mkfs_super_block.data_start ≤ ind.direct 0) (sym node) at) a
              (omega (arith, room))),
      )

  -- Removing the name of an entry, from the third on, takes that entry out of the directory's list and
  -- leaves the others in their order.
  pub unlink_entry-delete :
      (fuel : ℕ) (fs : Fs card.Disk) (parent : ℕ) (d u : List ℕ × ℕ) (es : Directory) (name : ℕ → ℕ)
      (pos : ℕ) (xs : List ℕ) (th : ℕ)
      → IsHolder fs parent d u es
      → IsString name pos xs
      → length xs < 4096
      → position es xs 2 ≡ some th
      → Ends
          (λ new. Shows card stack new parent (d ∷ u ∷ delete xs es))
          (unlink_entry card now stack fuel fs parent name pos)
  unfolding unlink_entry drop_entry
  unlink_entry-delete fuel fs parent d u es name pos xs th holder h small is =
      let shows = holder.shows in
      let bounds = found_after es xs 2 th is in
      let left : (fs.nodes parent).entry_num - 2 ≡ length es = omega (arith, shows.0) in
      let buf = read_block card stack fs parent in
      let l = shows.2 in
      let last : th + ((fs.nodes parent).entry_num - (th + 1)) ≡ 2 + length es - 1 =
        omega (arith, shows.0, bounds.1) in
      rw
        (
          left,
          search_entries-position es name pos buf 2 xs h small l.4.4 (omega (arith, shows.1)),
          is,
        )
        (Ends-bind (Shifted th (2 + length es - 1) buf) _
          (shift_entries ((fs.nodes parent).entry_num - (th + 1)) (th + 1) buf) _
          (subst
            (λ m.
              Ends (Shifted th m buf)
                (shift_entries ((fs.nodes parent).entry_num - (th + 1)) (th + 1) buf))
            last
            (shift_entries-Shifted ((fs.nodes parent).entry_num - (th + 1)) th buf
              (omega (arith, shows.0, shows.1, bounds.1))))
          λ new sh.
            let tail = Lists-delete buf new 2 th xs es l.4.4 is sh in
            shrunk fuel fs parent (d ∷ u ∷ delete xs es) new holder.volume holder.in_data
              (omega (arith, shows.0, tail.1)) (omega (arith, shows.1, tail.1))
              (with_front buf new d u es (delete xs es) l
                (λ a lt. keep th (2 + length es - 1) buf new sh bounds.0 a lt) tail.0))

  -- When no entry has the name, the count of entries still goes down: the last entry is lost.
  pub unlink_entry-absent :
      (fuel : ℕ) (fs : Fs card.Disk) (parent : ℕ) (d u e : List ℕ × ℕ) (es : Directory)
      (name : ℕ → ℕ) (pos : ℕ) (xs : List ℕ)
      → IsHolder fs parent d u (es ++ e ∷ [])
      → IsString name pos xs
      → length xs < 4096
      → position (es ++ e ∷ []) xs 2 ≡ none
      → Ends
          (λ new. Shows card stack new parent (d ∷ u ∷ es))
          (unlink_entry card now stack fuel fs parent name pos)
  unfolding unlink_entry drop_entry shift_entries
  unlink_entry-absent fuel fs parent d u e es name pos xs holder h small is =
      let shows = holder.shows in
      let long = length-append es (e ∷ []) in
      let left : (fs.nodes parent).entry_num - 2 ≡ length (es ++ e ∷ []) = omega (arith, shows.0) in
      let none_left : (fs.nodes parent).entry_num - 1000001 ≡ 0 = omega (arith, shows.0, shows.1) in
      let buf = read_block card stack fs parent in
      let l = shows.2 in
      rw
        (
          left,
          search_entries-position (es ++ e ∷ []) name pos buf 2 xs h small l.4.4
              (omega (arith, shows.1)),
          is,
          none_left,
        )
        (shrunk fuel fs parent (d ∷ u ∷ es) buf holder.volume holder.in_data
          (omega (arith, shows.0, long)) (omega (arith, shows.1, long))
          (with_front buf buf d u (es ++ e ∷ []) es l (λ a lt. refl)
            (without_last buf 2 es e l.4.4)))
