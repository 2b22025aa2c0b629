-- ===== src/Fs/File/Write.antt =====
-- `do_fwrite` and `do_resize`: what a write in place leaves on the card, and why no write that needs
-- another block ends well.
use mips_os.Common.{
  ℕ, zero, suc, ◌+◌, ◌-◌, ◌*◌, ◌/◌, ◌%◌, ◌^◌, ◌≤◌, ◌<◌, ◌≡◌, refl, sym, ap, ◌∙◌, subst,
}
use mips_os.Common.{◌≢◌, ◌⊎◌, inl, inr, true, false}
use mips_os.Common.{arith, ltb, update}
use mips_os.Common.{lt→ltb, le→ltb, ==_iff, ==_self, update_self, Bool-cases}
use mips_os.Common.{Outcome, ok, fault, hang, >>=-fault, >>=-returns}
use mips_os.Fs.{Inode, Fs, mkfs_super_block, inode_addr}
use mips_os.Fs.Card.{Card, do_fs_read, do_fs_write}
use mips_os.Fs.Bitmap.{
  find_first_zero_bit, find_first_zero_bit-FirstZero, FirstZero, get_inode_number-inode_addr,
}
use mips_os.Fs.Inodes.{mark_inode_dirty, update_inode, update_bit_map}
use mips_os.Fs.Inodes.Frame.{Spares, update_both-Spares, do_fs_write-inside}
use mips_os.Fs.File.{
  copy, blocks_of, grow_loop, grow_blocks, do_resize, write_within, transfer_out, do_fwrite,
}
use mips_os.Common.Bits.{bit_and-zero}
use mips_os.Fs.File.Read.{do_fs_read_byte, content, copy_inside, copy_outside, whole_copy}

find_returns : (buf : ℕ → ℕ) (sz : ℕ) → find_first_zero_bit buf sz ≢ hang
find_returns buf sz e = subst (FirstZero buf 0 (8 * sz)) e (find_first_zero_bit-FirstZero buf sz)

grow_loop_returns : {Disk : Type 0} (left i n : ℕ) (fs : Fs Disk) → grow_loop left i n fs ≢ hang
unfolding grow_loop
grow_loop_returns zero i n fs = λ e. cc
grow_loop_returns (suc left) i n fs =
    >>=-returns (find_first_zero_bit fs.block_bit_map 32768) _ (find_returns fs.block_bit_map 32768)
      (λ k. grow_loop_returns left (i + 1) n _)

grow_blocks_returns :
    {Disk : Type 0} (used_blk all_blk n : ℕ) (fs : Fs Disk)
    → grow_blocks used_blk all_blk n fs ≢ hang
unfolding grow_blocks
grow_blocks_returns used_blk all_blk n fs = elim (Bool-cases (ltb all_blk 16)) [
  | inl e ↦ rw e (grow_loop_returns (all_blk - used_blk) used_blk n fs)
  | inr e ↦ rw e (λ e. cc)
]

module _ (card : Card) (nodes_addr : ℕ) where
  -- `mark_inode_dirty` given the address of an inode writes beyond the array of marks.
  mark_address :
      (n : ℕ) (fs : Fs card.Disk)
      → 8192 ≤ nodes_addr
      → nodes_addr + 2 ^ 20 ≤ 2 ^ 32
      → n < 8192
      → mark_inode_dirty (inode_addr nodes_addr n) fs ≡ fault
  unfolding mark_inode_dirty
  mark_address n fs low high small =
      rw (le→ltb (inode_addr nodes_addr n / 32) 256 (omega arith)) refl

  -- Every call of `do_resize` that adds a block writes out of bounds, since it marks the address of
  -- the inode in place of its number; the table lies at or above 8192 and ends below 4 GB.
  pub do_resize_faults :
      (n sz : ℕ) (fs : Fs card.Disk)
      → 8192 ≤ nodes_addr
      → nodes_addr + 2 ^ 20 ≤ 2 ^ 32
      → n < 8192
      → blocks_of (fs.nodes n).size < blocks_of sz
      → do_resize card nodes_addr n sz fs ≡ fault
  unfolding do_resize
  do_resize_faults n sz fs low high small grows =
      rw (lt→ltb (blocks_of (fs.nodes n).size) (blocks_of sz) grows) (
        >>=-fault (grow_blocks (blocks_of (fs.nodes n).size) (blocks_of sz) n _) _
          (grow_blocks_returns (blocks_of (fs.nodes n).size) (blocks_of sz) n _)
          (λ fs. rw (mark_address n (update_bit_map card fs) low high small) refl))

  -- A write through `fd[0]` that needs a block more than the file has is a wild write, where the table
  -- of the inodes lies below 2 ^ 32 at an address of at least 8192, the file is one of the table, and
  -- the position after the write does not wrap.
  pub do_fwrite_grow_faults :
      (fuel at sz : ℕ) (user : ℕ → ℕ) (fs : Fs card.Disk)
      → 8192 ≤ nodes_addr
      → nodes_addr + 2 ^ 20 ≤ 2 ^ 32
      → fs.fd.node < 8192
      → fs.fd.pos + sz < 2 ^ 32
      → blocks_of (fs.nodes fs.fd.node).size < blocks_of (fs.fd.pos + sz)
      → do_fwrite card nodes_addr (suc fuel) 0 user at sz fs ≡ fault
  unfolding do_fwrite
  do_fwrite_grow_faults fuel at sz user fs low high small fits grows =
      let wrap : (fs.fd.pos + sz) % 2 ^ 32 ≡ fs.fd.pos + sz = omega arith in
      rw
        (
          wrap,
          lt→ltb (blocks_of (fs.nodes fs.fd.node).size) (blocks_of (fs.fd.pos + sz)) grows,
          do_resize_faults fs.fd.node (fs.fd.pos + sz) fs low high small grows,
        )
        refl

  -- A run that ends well with the bytes of the buffer in the file at the old position, the other
  -- bytes of the block as they were, the position advanced, the size of the file larger by `sz`, its
  -- blocks the same and the super block untouched.
  abbrev pub Wrote : (ℕ → ℕ) → (at sz : ℕ) → Fs card.Disk → Outcome (Fs card.Disk) → Type 0
  Wrote user at sz fs (ok new) =
      ((i : ℕ) → i < sz → content card new (fs.fd.pos + i) ≡ user (at + i))
      × ((p : ℕ)
          → p / 4096 ≡ fs.fd.pos / 4096
          → (p < fs.fd.pos) ⊎ (fs.fd.pos + sz ≤ p)
          → content card new p ≡ content card fs p)
      × (new.fd ≡ record (fs.fd) { pos = fs.fd.pos + sz })
      × ((new.nodes fs.fd.node).size ≡ ((fs.nodes fs.fd.node).size + sz) % 2 ^ 32)
      × ((new.nodes fs.fd.node).direct ≡ (fs.nodes fs.fd.node).direct)
      × (new.super_block ≡ fs.super_block)
  Wrote user at sz fs fault = ⊥
  Wrote user at sz fs hang = ⊥

  -- The buffer that goes to the card, and the state after the write and the mark.
  abbrev block_out : (ℕ → ℕ) → ℕ → ℕ → Fs card.Disk → ℕ → ℕ
  block_out user at sz fs =
      copy sz
        (do_fs_read card fs.disk ((fs.nodes fs.fd.node).direct (fs.fd.pos / 4096)) fs.fwrite_wbuf
          4096)
        (fs.fd.pos % 4096) user at

  abbrev written : (ℕ → ℕ) → ℕ → ℕ → Fs card.Disk → Fs card.Disk
  written user at sz fs = record fs {
    fwrite_wbuf = block_out user at sz fs;
    fd = record (fs.fd) { pos = fs.fd.pos + sz };
    nodes =
        update fs.nodes fs.fd.node
          (record (fs.nodes fs.fd.node) { size = ((fs.nodes fs.fd.node).size + sz) % 2 ^ 32 });
    disk =
        do_fs_write card fs.disk ((fs.nodes fs.fd.node).direct (fs.fd.pos / 4096))
          (block_out user at sz fs) 4096;
    inode_dirty = update fs.inode_dirty (fs.fd.node / 32) true;
  }

  write_within-written :
      (user : ℕ → ℕ) (at sz : ℕ) (fs : Fs card.Disk)
      → nodes_addr < 2 ^ 32
      → fs.fd.node < 8192
      → fs.fd.pos < 65536
      → fs.fd.pos / 4096 ≡ (fs.fd.pos + sz) / 4096
      → write_within card nodes_addr false user at sz fs
        ≡ ok (update_inode card (update_bit_map card (written user at sz fs)))
  unfolding write_within mark_inode_dirty
  write_within-written user at sz fs addr small low one =
      let wrap : (fs.fd.pos + sz) % 2 ^ 32 ≡ fs.fd.pos + sz = omega arith in
      rw
        (
          lt→ltb fs.fd.pos 65536 low,
          get_inode_number-inode_addr nodes_addr fs.fd.node addr small,
          lt→ltb (fs.fd.node / 32) 256 (omega arith),
          whole_copy fs.fd.pos sz one,
          wrap,
        )
        refl

  content-written :
      (user : ℕ → ℕ) (at sz p : ℕ) (fs : Fs card.Disk)
      → p / 4096 ≡ fs.fd.pos / 4096
      → content card (written user at sz fs) p ≡ block_out user at sz fs (p % 4096)
  content-written user at sz p fs e =
      let d = (written user at sz fs).disk in
      let direct = (fs.nodes fs.fd.node).direct in
      ap (λ (ind : Inode). card.byte d (ind.direct (p / 4096) + p % 4096))
        (update_self fs.nodes fs.fd.node _)
      ∙ ap (λ (b : ℕ). card.byte d (direct b + p % 4096)) e
      ∙ do_fs_write-inside card fs.disk (direct (fs.fd.pos / 4096)) (block_out user at sz fs) 4096
          (p % 4096) (omega arith)

  content-Spares :
      (fs new : Fs card.Disk) (p : ℕ)
      → Spares card (λ a. mkfs_super_block.data_start ≤ a) fs new
      → mkfs_super_block.data_start ≤ (fs.nodes fs.fd.node).direct (p / 4096)
      → content card new p ≡ content card fs p
  content-Spares fs new p s h = rw (s.nodes, s.fd) (s.card_same _ (omega arith))

  transfer_out-within :
      (call : (at sz : ℕ) → Fs card.Disk → Outcome (Fs card.Disk)) (user : ℕ → ℕ) (at sz : ℕ)
      (fs : Fs card.Disk)
      → fs.fd.pos < 65536
      → fs.fd.pos / 4096 ≡ (fs.fd.pos + sz) / 4096
      → transfer_out card nodes_addr call false user fs.fd.pos at sz fs
        ≡ write_within card nodes_addr false user at sz fs
  unfolding transfer_out
  transfer_out-within call user at sz fs low one =
      let wrap : (fs.fd.pos + sz) % 2 ^ 32 ≡ fs.fd.pos + sz = omega arith in
      rw
        (
          bit_and-zero fs.fd.file_access,
          le→ltb 4096 sz (omega arith),
          wrap,
          (==_iff (fs.fd.pos / 4096) ((fs.fd.pos + sz) / 4096)).1 one,
        )
        refl

  -- A write inside a block that the file has ends well whatever access the file was opened with: its
  -- bytes are on the card, the rest of the block is as it was, and the size grows by the length of the
  -- write even where it only overwrites. The volume is one of `do_mkfs`, the block lies in its data
  -- area, and the range begins and ends in one direct block.
  pub do_fwrite_within :
      (fuel at sz : ℕ) (user : ℕ → ℕ) (fs : Fs card.Disk)
      → fs.super_block ≡ mkfs_super_block
      → nodes_addr < 2 ^ 32
      → fs.fd.node < 8192
      → fs.fd.pos < 65536
      → mkfs_super_block.data_start ≤ (fs.nodes fs.fd.node).direct (fs.fd.pos / 4096)
      → fs.fd.pos / 4096 ≡ (fs.fd.pos + sz) / 4096
      → blocks_of (fs.fd.pos + sz) ≤ blocks_of (fs.nodes fs.fd.node).size
      → Wrote user at sz fs (do_fwrite card nodes_addr (suc fuel) 0 user at sz fs)
  unfolding do_fwrite
  do_fwrite_within fuel at sz user fs made addr small low placed one room =
      let wrap : (fs.fd.pos + sz) % 2 ^ 32 ≡ fs.fd.pos + sz = omega arith in
      let s = update_both-Spares card (written user at sz fs) made in
      rw
        (
          wrap,
          le→ltb (blocks_of (fs.nodes fs.fd.node).size) (blocks_of (fs.fd.pos + sz)) room,
          transfer_out-within (λ at' sz' fs'. do_fwrite card nodes_addr fuel 0 user at' sz' fs')
              user at sz fs low one,
          write_within-written user at sz fs addr small low one,
        )
        (
          λ i h. new_bytes i h,
          λ p e h. old_bytes p e h,
          s.fd,
          ap (λ (f : ℕ → Inode). (f fs.fd.node).size) s.nodes
              ∙ ap (λ (ind : Inode). ind.size) (update_self fs.nodes fs.fd.node _),
          ap (λ (f : ℕ → Inode). (f fs.fd.node).direct) s.nodes
              ∙ ap (λ (ind : Inode). ind.direct) (update_self fs.nodes fs.fd.node _),
          s.super_block,
        )
    where
      new : Fs card.Disk
      new = update_inode card (update_bit_map card (written user at sz fs))

      far :
          (p : ℕ)
          → p / 4096 ≡ fs.fd.pos / 4096
          → mkfs_super_block.data_start
            ≤ ((written user at sz fs).nodes fs.fd.node).direct (p / 4096)
      far p e = rw (==_self fs.fd.node, e) placed

      out_bytes :
          (p : ℕ)
          → p / 4096 ≡ fs.fd.pos / 4096
          → content card new p ≡ block_out user at sz fs (p % 4096)
      out_bytes p e =
          content-Spares (written user at sz fs) new p
            (update_both-Spares card (written user at sz fs) made) (far p e)
          ∙ content-written user at sz p fs e

      new_bytes : (i : ℕ) → i < sz → content card new (fs.fd.pos + i) ≡ user (at + i)
      new_bytes i h =
          let e : (fs.fd.pos + i) % 4096 ≡ fs.fd.pos % 4096 + i = omega arith in
          out_bytes (fs.fd.pos + i) (omega arith)
          ∙ ap (block_out user at sz fs) e
          ∙ copy_inside sz _ (fs.fd.pos % 4096) user at i h

      old_bytes :
          (p : ℕ)
          → p / 4096 ≡ fs.fd.pos / 4096
          → (p < fs.fd.pos) ⊎ (fs.fd.pos + sz ≤ p)
          → content card new p ≡ content card fs p
      old_bytes p e h =
          out_bytes p e
          ∙ copy_outside sz _ (fs.fd.pos % 4096) user at (p % 4096) (ground arith)
          ∙ do_fs_read_byte card fs.disk _ fs.fwrite_wbuf (p % 4096) (omega arith)
          ∙ ap (λ (b : ℕ). card.byte fs.disk ((fs.nodes fs.fd.node).direct b + p % 4096)) (sym e)
