-- ===== src/Fs/Directory/NewBlock.antt =====
-- The second half of `do_mkdir` of kernel/fs/fs.c: the block of the new directory, stored beside that of the
-- working directory.
use mips_os.Common.{ℕ, ◌+◌, ◌*◌, ◌/◌, ◌≤◌, ◌<◌, ◌≡◌, refl, sym, ap, ◌∙◌}
use mips_os.Common.{◌≢◌, inr, true, false}
use mips_os.Common.{[], ◌∷◌, arith, leb, update}
use mips_os.Common.{lt→ltb, update_self, update_other}
use mips_os.Common.{Ends, length}
use mips_os.Common.{Ends, update_self, update_other}
use mips_os.Fs.{Inode, Fs, mkfs_super_block}
use mips_os.Fs.Card.{Card}
use mips_os.Fs.Bitmap.{is_set}
use mips_os.Fs.Inodes.{allocate_data_block, mark_inode_dirty, update_inode, update_bit_map}
use mips_os.Fs.Inodes.Frame.{
  do_fs_write-outside, Spares, update_bit_map-Spares, update_inode-Spares,
}
use mips_os.Fs.Path.{read_block}
use mips_os.Fs.Path.Resolve.{Directory, Lists, Shows}
use mips_os.Fs.Directory.{write_block, mkdir_block, new_dir_block}
use mips_os.Fs.Directory.Entry.{Lists-frame}
use mips_os.Fs.Directory.Stored.{read_block-byte, read_block-write_block}

-- The entries of a new directory.
abbrev pub fresh_entries : (own parent : ℕ) → Directory
fresh_entries own parent = (46 ∷ [], own) ∷ (46 ∷ 46 ∷ [], parent) ∷ []

new_dir_block-Lists :
    (card : Card) (now stack : ℕ → ℕ) (fuel own parent : ℕ)
    → own < 8192
    → parent < 8192
    → Lists (new_dir_block card now stack fuel own parent) 0 (fresh_entries own parent)
unfolding new_dir_block
new_dir_block-Lists card now stack fuel own parent small small' = (
  (refl, omega arith, omega arith, refl),
  omega arith,
  omega arith,
  small,
  (
    (refl, omega arith, omega arith, (refl, omega arith, omega arith, refl)),
    omega arith,
    omega arith,
    small',
    tt,
  ),
)

module _ (card : Card) (now stack : ℕ → ℕ) where
  -- Before the block of the new directory: `cwd` has its new entry on the card, in the block `c`.
  pub record IsEntered (fs : Fs card.Disk) (cwd c : ℕ) (es : Directory) : Type 0 where
    pub volume : fs.super_block ≡ mkfs_super_block
    pub count_is : (fs.nodes cwd).entry_num ≡ length es
    pub few : length es ≤ 128
    pub block_is : (fs.nodes cwd).direct 0 ≡ mkfs_super_block.data_start + c * 4096
    pub lists : Lists (read_block card stack fs cwd) 0 es

  -- `mark_inode_dirty` for an inode of the table.
  abbrev dirtied : Fs card.Disk → ℕ → Fs card.Disk
  dirtied fs n = record fs { inode_dirty = update fs.inode_dirty (n / 32) true }

  flushed-Spares :
      (fs : Fs card.Disk) (m n : ℕ)
      → fs.super_block ≡ mkfs_super_block
      → Spares card
          (λ a. mkfs_super_block.data_start ≤ a)
          fs
          (update_inode card (dirtied (dirtied (update_bit_map card fs) m) n))
  unfolding mkfs_super_block
  flushed-Spares fs m n volume =
      let bits = update_bit_map-Spares card fs volume in
      let table =
        update_inode-Spares card 134252032 (dirtied (dirtied (update_bit_map card fs) m) n)
          (ap (λ sb. sb.ind_start) (bits.super_block ∙ volume)) (omega arith) in
      record {
        nodes = table.nodes ∙ bits.nodes;
        fd = table.fd ∙ bits.fd;
        super_block = table.super_block ∙ bits.super_block;
        card_same = λ a h. table.card_same a (inr (omega arith)) ∙ bits.card_same a h;
      }

  -- The fields of the inode `k` are set, and nothing is on the card yet.
  record IsNew (fs : Fs card.Disk) (cwd k b : ℕ) (mid : Fs card.Disk) : Type 0 where
    disk_same : mid.disk ≡ fs.disk
    volume_same : mid.super_block ≡ mkfs_super_block
    cwd_same : mid.nodes cwd ≡ fs.nodes cwd
    count_two : (mid.nodes k).entry_num ≡ 2
    is_dir : (mid.nodes k).type ≡ 2
    one_link : (mid.nodes k).link_cnt ≡ 1
    block_new : (mid.nodes k).direct 0 ≡ mkfs_super_block.data_start + b * 4096

  stored_beside :
      (fuel : ℕ) (fs mid new : Fs card.Disk) (cwd k b c : ℕ) (es : Directory) (blk : ℕ → ℕ)
      → IsEntered fs cwd c es
      → IsNew fs cwd k b mid
      → b ≢ c
      → Spares card
          (λ a. mkfs_super_block.data_start ≤ a)
          (write_block card now stack fuel mid k blk)
          new
      → (a : ℕ) → a < 4096
      → read_block card stack new cwd a ≡ read_block card stack fs cwd a
  unfolding write_block mkfs_super_block
  stored_beside fuel fs mid new cwd k b c es blk in_cwd made other s a lt =
      let p : (mid.nodes cwd).direct 0 ≡ 135300608 + c * 4096 =
        ap (λ (ind : Inode). ind.direct 0) made.cwd_same ∙ in_cwd.block_is in
      let q = made.block_new in
      read_block-byte card now stack new cwd a lt
      ∙ ap (λ (nodes : ℕ → Inode). card.byte new.disk ((nodes cwd).direct 0 + a)) s.nodes
      ∙ s.card_same ((mid.nodes cwd).direct 0 + a) (omega arith)
      ∙ do_fs_write-outside card mid.disk ((mid.nodes k).direct 0) blk 4096
          ((mid.nodes cwd).direct 0 + a) (ground arith)
      ∙ ap (λ d. card.byte d ((mid.nodes cwd).direct 0 + a)) made.disk_same
      ∙ ap (λ (ind : Inode). card.byte fs.disk (ind.direct 0 + a)) made.cwd_same
      ∙ sym (read_block-byte card now stack fs cwd a lt)

  built :
      (fuel : ℕ) (fs mid : Fs card.Disk) (cwd k b c : ℕ) (es : Directory)
      → IsEntered fs cwd c es
      → IsNew fs cwd k b mid
      → cwd < 8192
      → k < 8192
      → b ≢ c
      → let new = update_inode card (
          dirtied
            (dirtied
              (update_bit_map card
                (write_block card now stack fuel mid k (new_dir_block card now stack fuel k cwd)))
              cwd)
            k) in
        Shows card stack new cwd es
        × Shows card stack new k (fresh_entries k cwd)
        × ((new.nodes k).type ≡ 2)
        × ((new.nodes k).link_cnt ≡ 1)
  unfolding write_block
  built fuel fs mid cwd k b c es in_cwd made small small' other =
      let blk = new_dir_block card now stack fuel k cwd in
      let s = flushed-Spares (write_block card now stack fuel mid k blk) cwd k made.volume_same in
      let at = λ (n : ℕ). ap (λ (nodes : ℕ → Inode). nodes n) s.nodes in
      (
        (
          ap (λ (ind : Inode). ind.entry_num) (at cwd ∙ made.cwd_same) ∙ in_cwd.count_is,
          in_cwd.few,
          Lists-frame (read_block card stack fs cwd) _ 0 es in_cwd.lists (λ a lt.
              stored_beside fuel fs mid _ cwd k b c es blk in_cwd made other s a
                (omega (arith, in_cwd.few))),
        ),
        (
          ap (λ (ind : Inode). ind.entry_num) (at k) ∙ made.count_two,
          omega arith,
          Lists-frame blk _ 0 (fresh_entries k cwd)
              (new_dir_block-Lists card now stack fuel k cwd small' small)
              (λ a lt.
                read_block-write_block card now stack fuel mid _ k blk s
                  (omega (arith, made.block_new)) a (omega arith)),
        ),
        ap (λ (ind : Inode). ind.type) (at k) ∙ made.is_dir,
        ap (λ (ind : Inode). ind.link_cnt) (at k) ∙ made.one_link,
      )

  pub mkdir_block_lem :
      (fuel : ℕ) (fs : Fs card.Disk) (cwd k b c : ℕ) (es : Directory)
      → IsEntered fs cwd c es
      → cwd < 8192
      → k < 8192
      → cwd ≢ k
      → b < 262144
      → is_set fs.block_bit_map b ≡ false
      → b ≢ c
      → Ends
          (λ new.
            Shows card stack new cwd es
            × Shows card stack new k (fresh_entries k cwd)
            × ((new.nodes k).type ≡ 2)
            × ((new.nodes k).link_cnt ≡ 1))
          (mkdir_block card now stack fuel fs cwd k b)
  unfolding mkdir_block allocate_data_block mark_inode_dirty
  mkdir_block_lem fuel fs cwd k b c es in_cwd small small' ne low clear other =
      let big : leb 262144 b ≡ false = ground arith in
      rw (big, clear, lt→ltb (cwd / 32) 256 (omega arith), lt→ltb (k / 32) 256 (omega arith))
        (built fuel fs _ cwd k b c es in_cwd
          (record {
            disk_same = refl;
            volume_same = in_cwd.volume;
            cwd_same = update_other fs.nodes k _ cwd ne;
            count_two = ap (λ (ind : Inode). ind.entry_num) (update_self fs.nodes k _);
            is_dir = ap (λ (ind : Inode). ind.type) (update_self fs.nodes k _);
            one_link = ap (λ (ind : Inode). ind.link_cnt) (update_self fs.nodes k _);
            block_new =
                ap (λ (ind : Inode). ind.direct 0) (update_self fs.nodes k _)
                ∙ unfold mkfs_super_block in omega (arith, ap (λ sb. sb.data_start) in_cwd.volume);
          })
          small small' other)
