-- ===== src/Fs/Inodes.antt =====
-- The inode table of kernel/fs/fs.c: `allocate_inode`, `allocate_data_block`, `free_inode`, the dirty
-- marks and what `update_inode` and `update_bit_map` write to the card.
pub mod Allocate
pub mod Flush
pub mod Frame
use mips_os.Common.{
  ℕ, zero, suc, ◌+◌, ◌-◌, ◌*◌, ◌/◌, ◌%◌, ◌^◌, ◌≤◌, ◌<◌, ◌≡◌, refl, sym, ap, ◌∙◌, subst, fun_ext,
}
use mips_os.Common.{◌≢◌, ◌↔◌, ◌⊎◌, inl, inr, Bool, true, false, not, ◌&&◌, ◌||◌, Option, none, some}
use mips_os.Common.{
  List, [], ◌∷◌, ◌++◌, map, arith, ltb, leb, ◌==◌, if◌then◌else◌, update, points_to,
}
use mips_os.Common.{ltb→lt, ltb→le, lt→ltb, le→ltb, ==_iff, ==_self, Bool-cases, Option-cases}
use mips_os.Common.{
  Outcome, ok, fault, hang, ◌>>=◌, length, get_elem?, set, first, last_from, length-append, has,
  Distinct, has-append,
}
use mips_os.Fs.{
  Inode, SuperBlock, Fs, inode_max_number, data_block_max_number, inode_bit_map_size,
  data_block_bit_map_size, block_size, sizeof_inode, notype,
}
use mips_os.Fs.Card.{Card, do_fs_write}
use mips_os.Fs.Bitmap.{is_set, mark_bit, clear_bit}

-- Byte `j` of a little-endian word.
abbrev pub word_byte : ℕ → ℕ → ℕ
word_byte w j = w / 256 ^ j % 256

-- The first `n` elements of an array set to 0.
abbrev pub zero_below : ℕ → (ℕ → ℕ) → ℕ → ℕ
zero_below n f i = if ltb i n then 0 else f i

-- Round `i` of the outer loop stores the four bytes of the reading `now i` of the timer.
unfoldable pub stamp_hash : ℕ → (ℕ → ℕ) → (ℕ → ℕ) → ℕ → ℕ
stamp_hash zero now hash k = hash k
stamp_hash (suc i) now hash k =
    if k / 4 == i then word_byte (now i) (k % 4) else stamp_hash i now hash k

-- `node_num_per_block`, and the size of `inode_dirty`.
abbrev pub nodes_per_block : ℕ
nodes_per_block = (block_size + 16) / sizeof_inode

abbrev pub dirty_upper : ℕ
dirty_upper = inode_max_number / (block_size / sizeof_inode)

-- The 128 bytes of an inode in memory.
unfoldable pub inode_byte : Inode → ℕ → ℕ
inode_byte ind k =
    if ltb k 4
    then word_byte ind.entry_num k
    else if ltb k 8
    then word_byte ind.type (k - 4)
    else if ltb k 12
    then word_byte ind.size (k - 8)
    else if ltb k 16
    then word_byte ind.link_cnt (k - 12)
    else if ltb k 20
    then word_byte ind.link_to (k - 16)
    else if ltb k 84
    then word_byte (ind.direct ((k - 20) / 4)) ((k - 20) % 4)
    else if ltb k 88
    then word_byte ind.indirect (k - 84)
    else if ltb k 92
    then word_byte ind.double_indirect (k - 88)
    else if ltb k 96
    then word_byte ind.triple_indirect (k - 92)
    else if ltb k 112
    then ind.owner (k - 96)
    else ind.hash (k - 112)

-- The bytes of `nodes`.
abbrev pub nodes_image : (ℕ → Inode) → ℕ → ℕ
nodes_image nodes a = inode_byte (nodes (a / sizeof_inode)) (a % sizeof_inode)

module _ {Disk : Type 0} where
  -- `now i` is what the i-th call of `get_timer` returns.
  unfoldable pub allocate_inode : (ℕ → ℕ) → Fs Disk → ℕ → Option ℕ × Fs Disk
  allocate_inode now fs n =
      if leb inode_max_number n
      then (none, fs)
      else if is_set fs.inode_bit_map n
      then (none, fs)
      else (
        some n,
        record fs {
          inode_bit_map = mark_bit fs.inode_bit_map n;
          nodes =
              update fs.nodes n (record (fs.nodes n) { hash = stamp_hash 4 now (fs.nodes n).hash });
        },
      )

  -- The flag is false for NULL and true for the given buffer.
  unfoldable pub allocate_data_block : Fs Disk → ℕ → Bool × Fs Disk
  allocate_data_block fs n =
      if leb data_block_max_number n
      then (false, fs)
      else if is_set fs.block_bit_map n
      then (false, fs)
      else (true, record fs { block_bit_map = mark_bit fs.block_bit_map n })

  unfoldable pub mark_inode_dirty : ℕ → Fs Disk → Outcome (Fs Disk)
  mark_inode_dirty n fs =
      if ltb (n / nodes_per_block) dirty_upper
      then ok (record fs { inode_dirty = update fs.inode_dirty (n / nodes_per_block) true })
      else fault

  -- `ind` is `&nodes[n]`.
  unfoldable pub free_inode : ℕ → Fs Disk → Outcome (Fs Disk)
  free_inode n fs = do
    fs ← mark_inode_dirty n fs
    map ← clear_bit inode_bit_map_size fs.inode_bit_map n
    ok (record fs {
      inode_bit_map = map;
      nodes = update fs.nodes n (record (fs.nodes n) {
        entry_num = 0;
        size = 0;
        link_cnt = 0;
        type = notype;
        indirect = 0;
        double_indirect = 0;
        triple_indirect = 0;
        direct = zero_below 16 (fs.nodes n).direct;
        hash = zero_below 16 (fs.nodes n).hash;
      });
    })

module _ (card : Card) where
  -- Round `i` of `update_inode`.
  unfoldable pub flush_block : ℕ → Fs card.Disk → Fs card.Disk
  flush_block i fs =
      if fs.inode_dirty i
      then record fs {
        inode_dirty = update fs.inode_dirty i false;
        disk =
            do_fs_write card fs.disk
              ((fs.super_block.ind_start + sizeof_inode * i * nodes_per_block) % 2 ^ 32)
              (λ k. nodes_image fs.nodes (sizeof_inode * i * nodes_per_block + k)) block_size;
      }
      else fs

  -- The loop of `update_inode`, with `left` rounds to go from `i`.
  unfoldable pub flush : ℕ → ℕ → Fs card.Disk → Fs card.Disk
  flush zero i fs = fs
  flush (suc left) i fs = flush left (i + 1) (flush_block i fs)

  unfoldable pub update_inode : Fs card.Disk → Fs card.Disk
  update_inode fs = flush dirty_upper 0 fs

  unfoldable pub update_bit_map : Fs card.Disk → Fs card.Disk
  update_bit_map fs =
      let sb = fs.super_block in
      let d = do_fs_write card fs.disk sb.ind_bit_map_start fs.inode_bit_map inode_bit_map_size in
      record fs {
        disk = do_fs_write card d sb.blk_bit_map_start fs.block_bit_map data_block_bit_map_size;
      }
