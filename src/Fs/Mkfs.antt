-- ===== src/Fs/Mkfs.antt =====
-- `do_mkfs` and `mount_fs` of kernel/fs/fs.c. The pointers `root` and `cwd`, which both set to the
-- start of the table, and the path string are left out, with what is printed. `stack` is what the
-- local buffer holds at first.
pub mod Root
use mips_os.Common.{
  ℕ, zero, suc, ◌+◌, ◌-◌, ◌*◌, ◌/◌, ◌%◌, ◌^◌, ◌≤◌, ◌<◌, ◌≡◌, refl, sym, ap, ◌∙◌, subst, fun_ext,
}
use mips_os.Common.{◌≢◌, ◌↔◌, ◌⊎◌, inl, inr, Bool, true, false, not, ◌&&◌, ◌||◌, Option, none, some}
use mips_os.Common.{
  List, [], ◌∷◌, ◌++◌, map, arith, ltb, leb, ◌==◌, if◌then◌else◌, update, points_to,
}
use mips_os.Common.{
  ltb→lt, ltb→le, lt→ltb, le→ltb, ==_iff, ==_self, update_self, update_other, Bool-cases,
  Option-cases,
}
use mips_os.Common.{
  Outcome, ok, fault, hang, ◌>>=◌, >>=-fault, >>=-returns, Ends, Ends-bind, length, get_elem?, set,
  first, last_from, length-append, has, Distinct, has-append,
}
use mips_os.Common.{Ends, Ends-bind, Ends-map, update_self, update_other}
use mips_os.Fs.{
  Inode, SuperBlock, Fs, block_size, dir, fs_start, mkfs_super_block, inode_bit_map_size,
  data_block_bit_map_size, inode_max_number, sizeof_inode, get_data_block_offset,
}
use mips_os.Fs.Card.{Card, do_fs_read, do_fs_write}
use mips_os.Fs.Bitmap.{find_first_zero_bit}
use mips_os.Fs.Inodes.{
  word_byte, zero_below, allocate_inode, allocate_data_block, mark_inode_dirty, update_inode,
  update_bit_map,
}
use mips_os.Fs.Remove.{word_at}

-- The 36 bytes of a super block, and the super block of a buffer.
unfoldable pub super_block_byte : SuperBlock → ℕ → ℕ
super_block_byte sb k =
    let w =
      if ltb k 4
      then sb.magic
      else if ltb k 8
      then sb.data_block_num
      else if ltb k 12
      then sb.data_block_size
      else if ltb k 16
      then sb.inode_num
      else if ltb k 20
      then sb.inode_size
      else if ltb k 24
      then sb.blk_bit_map_start
      else if ltb k 28
      then sb.ind_bit_map_start
      else if ltb k 32
      then sb.ind_start
      else sb.data_start in
    word_byte w (k % 4)

unfoldable pub super_block_at : (ℕ → ℕ) → SuperBlock
super_block_at buf = record {
  magic = word_at buf 0;
  data_block_num = word_at buf 4;
  data_block_size = word_at buf 8;
  inode_num = word_at buf 12;
  inode_size = word_at buf 16;
  blk_bit_map_start = word_at buf 20;
  ind_bit_map_start = word_at buf 24;
  ind_start = word_at buf 28;
  data_start = word_at buf 32;
}

-- The inode at the start of a buffer of bytes of the table.
unfoldable pub inode_at : (ℕ → ℕ) → ℕ → Inode
inode_at buf n =
    let a = sizeof_inode * n in
    record {
      entry_num = word_at buf a;
      type = word_at buf (a + 4);
      size = word_at buf (a + 8);
      link_cnt = word_at buf (a + 12);
      link_to = word_at buf (a + 16);
      direct = λ i. word_at buf (a + 20 + 4 * i);
      indirect = word_at buf (a + 84);
      double_indirect = word_at buf (a + 88);
      triple_indirect = word_at buf (a + 92);
      owner = λ i. buf (a + 96 + i);
      hash = λ i. buf (a + 112 + i);
    }

-- The block of the root directory: the entries "." and "..", both of the inode `n`, and zeros.
unfoldable pub root_block : ℕ → ℕ → ℕ
root_block n k =
    let entry = k % 32 in
    if leb 64 k
    then 0
    else if ltb entry 4
    then word_byte dir entry
    else if ltb entry 8
    then word_byte n (entry - 4)
    else if (entry == 8) || (k == 41)
    then 46
    else 0

module _ (card : Card) (now stack : ℕ → ℕ) where
  -- The super block on the card, and empty bit maps.
  unfoldable pub mkfs_start : Fs card.Disk → Fs card.Disk
  mkfs_start fs = record fs {
    super_block = mkfs_super_block;
    disk =
        do_fs_write card fs.disk fs_start
          (λ k. if ltb k 36 then super_block_byte mkfs_super_block k else stack k) 512;
    block_bit_map = zero_below data_block_bit_map_size fs.block_bit_map;
    inode_bit_map = zero_below inode_bit_map_size fs.inode_bit_map;
  }

  -- The inode `n` as the root, whose `type` is not written, with the data block `b`.
  unfoldable pub mkfs_root : (n b : ℕ) → Fs card.Disk → Outcome (Fs card.Disk)
  mkfs_root n b fs =
      let offset = get_data_block_offset fs.super_block b in
      let node = fs.nodes n in
      (do
        fs ← mark_inode_dirty n (
            update_bit_map card (record fs {
              nodes = update fs.nodes n (record node {
                entry_num = 2;
                link_cnt = 1;
                direct = update node.direct 0 offset;
              });
              disk = do_fs_write card fs.disk offset (root_block n) block_size;
            }))
        ok (update_inode card fs))

  unfoldable pub do_mkfs : Fs card.Disk → Outcome (Fs card.Disk)
  do_mkfs fs = do
    let fs = mkfs_start fs
    n ← find_first_zero_bit fs.inode_bit_map inode_bit_map_size
    let r = allocate_inode now fs n
    b ← find_first_zero_bit r.1.block_bit_map data_block_bit_map_size
    let a = allocate_data_block r.1 b
    elim r.0 [ none ↦ fault | some _ ↦ if a.0 then mkfs_root n b a.1 else fault ]

  -- The buffer is read before `do_mkfs`, and not again.
  unfoldable pub mount_fs : Fs card.Disk → Outcome (Fs card.Disk)
  mount_fs fs =
      let sb = super_block_at (do_fs_read card fs.disk fs_start stack 512) in
      (do
        fs ← if sb.magic == 0x666 then ok fs else do_mkfs fs
        let table = do_fs_read card fs.disk sb.ind_start (λ _. 0) (sizeof_inode * inode_max_number)
        ok (record fs {
          super_block = sb;
          inode_bit_map =
              do_fs_read card fs.disk sb.ind_bit_map_start fs.inode_bit_map inode_bit_map_size;
          block_bit_map =
              do_fs_read card fs.disk sb.blk_bit_map_start fs.block_bit_map data_block_bit_map_size;
          nodes = λ n. if ltb n inode_max_number then inode_at table n else fs.nodes n;
        }))
