-- ===== src/Fs/Inodes/Allocate.antt =====
-- Allocation and release of inodes and data blocks as operations on the sets of numbers in use.
use mips_os.Common.{ℕ, ◌/◌, ◌<◌, ◌≡◌, refl, subst}
use mips_os.Common.{◌≢◌, Bool, true, false, not, ◌&&◌, none, some}
use mips_os.Common.{arith, ltb, ◌==◌, if◌then◌else◌}
use mips_os.Common.{lt→ltb}
use mips_os.Common.{ok, Ends, Ends-bind}
use mips_os.Fs.{Fs, inode_bit_map_size}
use mips_os.Fs.Bitmap.{
  is_set, clear_bit, find_first_zero_bit, find_first_zero_bit-FirstZero, FirstZero, IsBytes,
  Cleared, is_set-mark_bit, clear_bit-Cleared,
}
use mips_os.Fs.Inodes.{allocate_inode, allocate_data_block, mark_inode_dirty, free_inode}

module _ {Disk : Type 0} where
  -- A number can be allocated when it is in range and its bit is clear.
  abbrev pub is_free_inode : Fs Disk → ℕ → Bool
  is_free_inode fs n = ltb n 8192 && not (is_set fs.inode_bit_map n)

  abbrev pub is_free_block : Fs Disk → ℕ → Bool
  is_free_block fs n = ltb n 262144 && not (is_set fs.block_bit_map n)

  -- An inode is handed out exactly when its number is in range and free; then its bit is set, no
  -- other bit changes, and so is no inode but that one. Otherwise nothing changes.
  pub allocate_inode_lem :
      (now : ℕ → ℕ) (fs : Fs Disk) (n : ℕ)
      → IsBytes fs.inode_bit_map
      → let r = allocate_inode now fs n in
        (r.0 ≡ (if is_free_inode fs n then some n else none))
        × ((j : ℕ)
            → is_set r.1.inode_bit_map j
              ≡ (if is_free_inode fs n && (j == n) then true else is_set fs.inode_bit_map j))
        × ((j : ℕ) → j ≢ n → r.1.nodes j ≡ fs.nodes j)
        × (is_free_inode fs n ≡ false → r.1 ≡ fs)
  unfolding allocate_inode
  allocate_inode_lem now fs n b = (
    ground arith,
    λ j. ground (arith, is_set-mark_bit fs.inode_bit_map n j b),
    λ j ne. ground arith,
    λ e. ground arith,
  )

  -- A data block is handed out exactly when its number is in range and free; then its bit is set and
  -- no other bit changes. Otherwise nothing changes.
  pub allocate_data_block_lem :
      (fs : Fs Disk) (n : ℕ)
      → IsBytes fs.block_bit_map
      → let r = allocate_data_block fs n in
        (r.0 ≡ is_free_block fs n)
        × ((j : ℕ)
            → is_set r.1.block_bit_map j
              ≡ (if is_free_block fs n && (j == n) then true else is_set fs.block_bit_map j))
        × (is_free_block fs n ≡ false → r.1 ≡ fs)
  unfolding allocate_data_block
  allocate_data_block_lem fs n b =
      (ground arith, λ j. ground (arith, is_set-mark_bit fs.block_bit_map n j b), λ e. ground arith)

  -- What every caller relies on: the number that the search of the inode map returns can be
  -- allocated, so that the pointer that is then used is not NULL.
  pub allocate_inode-find :
      (now : ℕ → ℕ) (fs : Fs Disk) (k : ℕ)
      → find_first_zero_bit fs.inode_bit_map inode_bit_map_size ≡ ok k
      → (k < 8192) × ((allocate_inode now fs k).0 ≡ some k)
  unfolding allocate_inode
  allocate_inode-find now fs k e = found (
      subst (FirstZero fs.inode_bit_map 0 8192) e
        (find_first_zero_bit-FirstZero fs.inode_bit_map 1024))
    where
      found :
          FirstZero fs.inode_bit_map 0 8192 (ok k)
          → (k < 8192) × ((allocate_inode now fs k).0 ≡ some k)
      found (a, b, _) = (a, ground arith)

  -- Freeing the inode `n` clears its bit and no other, resets its counters, its type and its
  -- direct blocks, marks its block of the table dirty, and touches no other inode.
  abbrev pub Freed : Fs Disk → ℕ → Fs Disk → Type 0
  Freed fs n new =
      ((j : ℕ) → is_set new.inode_bit_map j ≡ (if j == n then false else is_set fs.inode_bit_map j))
      × IsBytes new.inode_bit_map
      × (new.block_bit_map ≡ fs.block_bit_map)
      × ((new.nodes n).type ≡ 0)
      × ((new.nodes n).entry_num ≡ 0)
      × ((new.nodes n).link_cnt ≡ 0)
      × ((i : ℕ) → i < 16 → (new.nodes n).direct i ≡ 0)
      × (new.inode_dirty (n / 32) ≡ true)
      × ((j : ℕ) → j ≢ n → new.nodes j ≡ fs.nodes j)

  -- Freeing an inode of the table ends well, and clears its bit alone, its fields and nothing else.
  pub free_inode-Freed :
      (fs : Fs Disk) (n : ℕ)
      → IsBytes fs.inode_bit_map
      → n < 8192
      → Ends (Freed fs n) (free_inode n fs)
  unfolding free_inode mark_inode_dirty
  free_inode-Freed fs n b small = rw (lt→ltb (n / 32) 256 (omega arith)) (
      Ends-bind (Cleared fs.inode_bit_map n) (Freed fs n) (clear_bit 1024 fs.inode_bit_map n) _
        (clear_bit-Cleared 1024 fs.inode_bit_map n b (omega arith))
        λ new c. (
          c.1,
          c.0,
          refl,
          ground arith,
          ground arith,
          ground arith,
          λ i h. ground arith,
          ground arith,
          λ j ne. ground arith,
        ))
