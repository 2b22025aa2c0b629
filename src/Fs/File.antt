-- ===== src/Fs/File.antt =====
-- File input and output of kernel/fs/fs.c: `do_resize`, `do_fwrite`, `do_fread`, `do_fclose` and
-- `do_fseek`. A call of a process passes `fd`, the index into its one-element array `fd[1]`. The user
-- buffer is `user` from index `at`. The recursion of the two transfers takes fuel, which stands for
-- the kernel stack: without fuel the run does not return.
pub mod Read
pub mod Write
pub mod RoundTrip
use mips_os.Common.{
  ℕ, zero, suc, ◌+◌, ◌-◌, ◌*◌, ◌/◌, ◌%◌, ◌^◌, ◌≤◌, ◌<◌, ◌≡◌, refl, sym, ap, ◌∙◌, subst, fun_ext,
}
use mips_os.Common.{◌≢◌, ◌↔◌, ◌⊎◌, inl, inr, Bool, true, false, not, ◌&&◌, ◌||◌, Option, none, some}
use mips_os.Common.{
  List, [], ◌∷◌, ◌++◌, map, arith, ltb, leb, ◌==◌, if◌then◌else◌, update, points_to,
}
use mips_os.Common.{ltb→lt, ltb→le, lt→ltb, le→ltb, ==_iff, ==_self, Bool-cases, Option-cases}
use mips_os.Common.{
  Outcome, ok, fault, hang, ◌>>=◌, length, get_elem?, set, first, last_from, length-append, has,
  Distinct, has-append,
}
use mips_os.Common.{bit_and}
use mips_os.Fs.{
  Inode, SuperBlock, Fs, block_size, data_block_bit_map_size, get_data_block_offset,
  get_inode_number, inode_addr,
}
use mips_os.Fs.Card.{Card, do_fs_read, do_fs_write}
use mips_os.Fs.Bitmap.{find_first_zero_bit}
use mips_os.Fs.Inodes.{allocate_data_block, mark_inode_dirty, update_inode, update_bit_map}

-- `for (i = 0; i < n; ++i) dst[to + i] = src[from + i];`
unfoldable pub copy : ℕ → (ℕ → ℕ) → ℕ → (ℕ → ℕ) → ℕ → ℕ → ℕ
copy zero dst to src from a = dst a
copy (suc n) dst to src from a =
    let rest = copy n dst to src from a in if a == to + n then src (from + n) else rest

-- `(n + BLOCK_SIZE - 1) / BLOCK_SIZE` on `uint32_t`.
abbrev pub blocks_of : ℕ → ℕ
blocks_of n = (n + block_size - 1) % 2 ^ 32 / block_size

abbrev pub min_of : ℕ → ℕ → ℕ
min_of a b = if ltb a b then a else b

-- `O_WR`.
abbrev pub o_wr : ℕ
o_wr = 1

-- The value of `O_WR == 0`, which `&` takes as its right operand in `do_fwrite`.
abbrev pub o_wr_is_zero : ℕ
o_wr_is_zero = if o_wr == 0 then 1 else 0

-- The loop over the chunks of a transfer of more than a block: round by round from `st`.
unfoldable pub chunk_loop {ℓ} : {S : Type ℓ} → ℕ → (ℕ → ℕ → S → Outcome S) → ℕ → ℕ → S → Outcome S
chunk_loop zero call st sz s = ok s
chunk_loop (suc left) call st sz s =
    if ltb st sz
    then (do
      s ← call st (min_of block_size (sz - st)) s
      chunk_loop left call (st + block_size) sz s)
    else ok s

module _ {Disk : Type 0} where
  -- The loop of `do_resize` at block `i`. A full map leaves `blk_num` without a value.
  unfoldable pub grow_loop : ℕ → ℕ → ℕ → Fs Disk → Outcome (Fs Disk)
  grow_loop zero i n fs = ok fs
  grow_loop (suc left) i n fs = do
    blk_num ← find_first_zero_bit fs.block_bit_map data_block_bit_map_size
    let fs' = (allocate_data_block fs blk_num).1
    let node = fs'.nodes n
    grow_loop left (i + 1) n (record fs' {
      nodes = update fs'.nodes n (record node {
        direct = update node.direct i (get_data_block_offset fs'.super_block blk_num);
      });
    })

  -- The branch `all_blk < 16` of `do_resize`.
  unfoldable pub grow_blocks : ℕ → ℕ → ℕ → Fs Disk → Outcome (Fs Disk)
  grow_blocks used_blk all_blk n fs =
      if ltb all_blk 16 then grow_loop (all_blk - used_blk) used_blk n fs else ok fs

module _ (card : Card) (nodes_addr : ℕ) where
  -- `file` is `&nodes[n]`. The source passes that address to `mark_inode_dirty`, which takes a number.
  unfoldable pub do_resize : ℕ → ℕ → Fs card.Disk → Outcome (Fs card.Disk)
  do_resize n sz fs =
      let used_blk = blocks_of (fs.nodes n).size in
      let all_blk = blocks_of sz in
      let sized = record fs { nodes = update fs.nodes n (record (fs.nodes n) { size = sz }) } in
      let grown : Outcome (Fs card.Disk) = (do
        fs ← grow_blocks used_blk all_blk n sized
        fs ← mark_inode_dirty (inode_addr nodes_addr n) (update_bit_map card fs)
        ok (update_inode card fs)) in
      if ltb used_blk all_blk then grown else ok fs

  -- The part of `do_fwrite` for a range within a block.
  unfoldable pub write_within : Bool → (ℕ → ℕ) → ℕ → ℕ → Fs card.Disk → Outcome (Fs card.Disk)
  write_within resized user at sz fs =
      let pos = fs.fd.pos in
      let n = fs.fd.node in
      let r = pos % block_size in
      let blk_offset = (fs.nodes n).direct (pos / block_size) in
      let wbuf = do_fs_read card fs.disk blk_offset fs.fwrite_wbuf block_size in
      let wbuf' = copy (min_of sz (block_size - r)) wbuf r user at in
      let node = fs.nodes n in
      let size = if resized then node.size else (node.size + sz) % 2 ^ 32 in
      let written : Outcome (Fs card.Disk) = (do
        fs ← mark_inode_dirty (get_inode_number nodes_addr (inode_addr nodes_addr n)) (record fs {
          fwrite_wbuf = wbuf';
          fd = record (fs.fd) { pos = (pos + sz) % 2 ^ 32 };
          nodes = update fs.nodes n (record node { size = size });
          disk = do_fs_write card fs.disk blk_offset wbuf' block_size;
        })
        ok (update_inode card (update_bit_map card fs))) in
      if ltb pos (16 * block_size) then written else fault

  -- What follows the resizing: the permission test as the source groups it, and the three cases.
  unfoldable pub transfer_out :
      ((at sz : ℕ) → Fs card.Disk → Outcome (Fs card.Disk))
      → Bool
      → (ℕ → ℕ)
      → (pos at sz : ℕ) → Fs card.Disk
      → Outcome (Fs card.Disk)
  transfer_out call resized user pos at sz fs =
      let fst_sz = block_size - pos % block_size in
      let split : Outcome (Fs card.Disk) = (do
        fs ← call at fst_sz fs
        call (at + fst_sz) ((sz + 2 ^ 32 - fst_sz) % 2 ^ 32) fs) in
      if not (bit_and fs.fd.file_access o_wr_is_zero == 0)
      then ok fs
      else if ltb block_size sz
      then chunk_loop (suc (sz / block_size)) (λ st n. call (at + st) n) 0 sz fs
      else if not (pos / block_size == (pos + sz) % 2 ^ 32 / block_size)
      then split
      else write_within resized user at sz fs

  unfoldable pub do_fwrite : ℕ → ℕ → (ℕ → ℕ) → (at sz : ℕ) → Fs card.Disk → Outcome (Fs card.Disk)
  do_fwrite zero fd user at sz fs = hang
  do_fwrite (suc fuel) fd user at sz fs =
      let n = fs.fd.node in
      let pos = fs.fd.pos in
      let call = λ (at sz : ℕ) (fs : Fs card.Disk). do_fwrite fuel fd user at sz fs in
      let resizing : Outcome (Fs card.Disk) = (do
        fs' ← do_resize n ((pos + sz) % 2 ^ 32) fs
        transfer_out call true user pos at sz fs') in
      if not (fd == 0)
      then fault
      else if ltb (blocks_of (fs.nodes n).size) (blocks_of ((pos + sz) % 2 ^ 32))
      then resizing
      else transfer_out call false user pos at sz fs

module _ (card : Card) where
  -- The part of `do_fread` for a range within a block; both copying loops of the source are the
  -- copy from `r`.
  unfoldable pub read_within :
      (ℕ → ℕ) → (at sz : ℕ) → Fs card.Disk → Outcome ((ℕ → ℕ) × Fs card.Disk)
  read_within user at sz fs =
      let pos = fs.fd.pos in
      let r = pos % block_size in
      let blk_offset = (fs.nodes fs.fd.node).direct (pos / block_size) in
      let rbuf = do_fs_read card fs.disk blk_offset fs.fread_rbuf block_size in
      if ltb pos (16 * block_size)
      then ok (
        copy (min_of sz (block_size - r)) user at rbuf r,
        record fs { fread_rbuf = rbuf; fd = record (fs.fd) { pos = (pos + sz) % 2 ^ 32 } },
      )
      else fault

  unfoldable pub do_fread :
      ℕ → ℕ → (at sz : ℕ) → (ℕ → ℕ) × Fs card.Disk → Outcome ((ℕ → ℕ) × Fs card.Disk)
  do_fread zero fd at sz s = hang
  do_fread (suc fuel) fd at sz (user, fs) =
      let pos = fs.fd.pos in
      let fst_sz = block_size - pos % block_size in
      let call = λ (at sz : ℕ) (s : (ℕ → ℕ) × Fs card.Disk). do_fread fuel fd at sz s in
      let split : Outcome ((ℕ → ℕ) × Fs card.Disk) = (do
        s ← call at fst_sz (user, fs)
        call (at + fst_sz) ((sz + 2 ^ 32 - fst_sz) % 2 ^ 32) s) in
      if not (fd == 0)
      then fault
      else if ltb (fs.nodes fs.fd.node).size ((pos + sz) % 2 ^ 32)
      then ok (user, fs)
      else if ltb block_size sz
      then chunk_loop (suc (sz / block_size)) (λ st n. call (at + st) n) 0 sz (user, fs)
      else if not (pos / block_size == (pos + sz) % 2 ^ 32 / block_size)
      then split
      else read_within user at sz fs

  unfoldable pub do_fclose : ℕ → Fs card.Disk → Outcome (Fs card.Disk)
  do_fclose fd fs =
      if fd == 0 then ok (record fs { fd = record (fs.fd) { pos = 0; file_access = 0 } }) else fault

  unfoldable pub do_fseek : ℕ → ℕ → Fs card.Disk → Outcome (Fs card.Disk)
  do_fseek fd pos fs =
      if fd == 0 then ok (record fs { fd = record (fs.fd) { pos = pos } }) else fault
