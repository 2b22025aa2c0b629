-- ===== src/Fs/Directory/Stored.antt =====
-- A new entry in a directory of kernel/fs/fs.c once its block is on the card: the directory lists one
-- name more.
use mips_os.Common.{ℕ, ◌+◌, ◌≤◌, ◌<◌, ◌≡◌, refl, ap, ◌∙◌, subst}
use mips_os.Common.{inl, inr, true, none, some}
use mips_os.Common.{List, [], ◌∷◌, ◌++◌, arith, if◌then◌else◌}
use mips_os.Common.{lt→ltb, Bool-cases}
use mips_os.Common.{length, length-append}
use mips_os.Text.Walk.{same_list}
use mips_os.Fs.{Inode, Fs, mkfs_super_block}
use mips_os.Fs.Card.{Card, do_fs_read}
use mips_os.Fs.Bitmap.{is_set}
use mips_os.Fs.Inodes.{update_inode, update_bit_map}
use mips_os.Fs.Inodes.Frame.{do_fs_write-inside, Spares, table_then_maps-Spares}
use mips_os.Fs.Path.{read_block}
use mips_os.Fs.Path.Resolve.{Directory, lookup, Lists, Shows}
use mips_os.Fs.Directory.{write_block}
use mips_os.Fs.Directory.Entry.{HasEntry, Lists-frame, HasEntry-Lists}

same_list_self : (xs : List ℕ) → same_list xs xs ≡ true
same_list_self [] = refl
same_list_self (x ∷ xs) = ground (arith, same_list_self xs)

-- A name that was not there is found as the entry that is put at the end.
pub lookup-append :
    (es : Directory) (xs : List ℕ) (k : ℕ)
    → lookup es xs ≡ none
    → lookup (es ++ (xs, k) ∷ []) xs ≡ some k
lookup-append [] xs k e = rw (same_list_self xs) refl
lookup-append (d ∷ ds) xs k e = elim (Bool-cases (same_list xs d.0)) [
  | inl same ↦ absurd (cc)
  | inr other ↦
      rw other
        (lookup-append ds xs k (subst (λ b. (if b then some d.1 else lookup ds xs) ≡ none) other e))
]

module _ (card : Card) (now stack : ℕ → ℕ) where
  pub read_block-byte :
      (fs : Fs card.Disk) (n a : ℕ)
      → a < 4096
      → read_block card stack fs n a ≡ card.byte fs.disk ((fs.nodes n).direct 0 + a)
  unfolding read_block do_fs_read
  read_block-byte fs n a lt =
      rw (lt→ltb a 4096 lt) (card.sdread_byte fs.disk ((fs.nodes n).direct 0) 4096 a lt)

  -- A block that was written, in the data area, is what is read after updates of the rest.
  pub read_block-write_block :
      (fuel : ℕ) (fs new : Fs card.Disk) (n : ℕ) (buf : ℕ → ℕ)
      → Spares card
          (λ a. mkfs_super_block.data_start ≤ a)
          (write_block card now stack fuel fs n buf)
          new
      → mkfs_super_block.data_start ≤ (fs.nodes n).direct 0
      → (a : ℕ) → a < 4096
      → read_block card stack new n a ≡ buf a
  unfolding write_block mkfs_super_block
  read_block-write_block fuel fs new n buf s at a lt =
      read_block-byte new n a lt
      ∙ ap (λ (nodes : ℕ → Inode). card.byte new.disk ((nodes n).direct 0 + a)) s.nodes
      ∙ s.card_same ((fs.nodes n).direct 0 + a) (omega arith)
      ∙ do_fs_write-inside card fs.disk ((fs.nodes n).direct 0) buf 4096 a lt

  pub stored_nodes :
      (fuel : ℕ) (fs : Fs card.Disk) (n : ℕ) (buf : ℕ → ℕ)
      → fs.super_block ≡ mkfs_super_block
      → (update_bit_map card (update_inode card (write_block card now stack fuel fs n buf))).nodes
        ≡ fs.nodes
  unfolding write_block
  stored_nodes fuel fs n buf volume =
      (table_then_maps-Spares card (write_block card now stack fuel fs n buf) volume).nodes

  -- What both operations that make an entry rely on: a volume of `do_mkfs`, and `cwd` an inode in use
  -- whose block, in the data area, has the entries `es` and room for one more.
  pub record IsReady (fs : Fs card.Disk) (cwd : ℕ) (es : Directory) : Type 0 where
    pub volume : fs.super_block ≡ mkfs_super_block
    pub in_table : cwd < 8192
    pub in_use : is_set fs.inode_bit_map cwd ≡ true
    pub shows : Shows card stack fs cwd es
    pub room : length es < 128
    pub in_data : mkfs_super_block.data_start ≤ (fs.nodes cwd).direct 0

  -- The end of the operation: `fs` is the state before the block `buf` is written to `cwd`.
  pub grown :
      (fuel : ℕ) (fs : Fs card.Disk) (cwd k type : ℕ) (es : Directory) (xs : List ℕ)
      (old buf : ℕ → ℕ)
      → fs.super_block ≡ mkfs_super_block
      → mkfs_super_block.data_start ≤ (fs.nodes cwd).direct 0
      → (fs.nodes cwd).entry_num ≡ length es + 1
      → length es < 128
      → length xs < 24
      → k < 8192
      → Lists old 0 es
      → HasEntry old (length es) type k xs buf
      → Shows card stack
          (update_bit_map card (update_inode card (write_block card now stack fuel fs cwd buf)))
          cwd
          (es ++ (xs, k) ∷ [])
  unfolding write_block
  grown fuel fs cwd k type es xs old buf volume at count room short small l h =
      let spares =
        table_then_maps-Spares card (write_block card now stack fuel fs cwd buf) volume in
      let long = length-append es ((xs, k) ∷ []) in
      (
        ap (λ (nodes : ℕ → Inode). (nodes cwd).entry_num) spares.nodes
            ∙ count
            ∙ omega (arith, long),
        omega (arith, long),
        Lists-frame buf _ 0 (es ++ (xs, k) ∷ [])
            (HasEntry-Lists old buf type k xs es h short small l)
            (λ a lt. read_block-write_block fuel fs _ cwd buf spares at a (omega (arith, long))),
      )

  pub Shows-same :
      (fs new : Fs card.Disk) (n : ℕ) (es : Directory)
      → new.nodes n ≡ fs.nodes n
      → new.disk ≡ fs.disk
      → Shows card stack fs n es
      → Shows card stack new n es
  unfolding read_block
  Shows-same fs new n es node disk (count, few, l) =
      (ap (λ (ind : Inode). ind.entry_num) node ∙ count, few, rw (node, disk) l)
