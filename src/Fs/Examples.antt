-- ===== src/Fs/Examples.antt =====
-- The file system theorems on a card that is an array of bytes, where the inode 5 is a file of 5000
-- bytes with 16 data blocks, changed in memory and marked dirty.
use mips_os.Common.{ℕ, ◌+◌, ◌-◌, ◌*◌, ◌%◌, ◌<◌, ◌≡◌, refl}
use mips_os.Common.{true, false}
use mips_os.Common.{arith, ◌==◌, if◌then◌else◌, update}
use mips_os.Common.{Ends, fault, hang, Ends}
use mips_os.Fs.{Inode, Fs, mkfs_super_block}
use mips_os.Fs.Card.{array_card}
use mips_os.Fs.Inodes.{inode_byte, update_inode}
use mips_os.Fs.Inodes.Flush.{OnCard, IsCoherent, SameMemory, update_inode-OnCard}
use mips_os.Fs.File.{do_fwrite, do_fread}
use mips_os.Fs.File.Read.{do_fread_crossing_hangs}
use mips_os.Fs.File.Write.{Wrote, do_fwrite_grow_faults, do_fwrite_within}
use mips_os.Fs.File.RoundTrip.{Returned, write_and_read, write_and_read-Returned}
use mips_os.Fs.Remove.{rm_recurse, Unlinked, rm_recurse-Unlinked}
use mips_os.Fs.Mkfs.{do_mkfs}
use mips_os.Fs.Mkfs.Root.{Rooted, do_mkfs-Rooted}

-- `0xb0000000`, in place of the address of `nodes`.
abbrev table : ℕ
table = 2952790016

abbrev blank : Inode
blank = record {
  entry_num = 0;
  type = 0;
  size = 0;
  link_cnt = 0;
  link_to = 0;
  direct = λ _. 0;
  indirect = 0;
  double_indirect = 0;
  triple_indirect = 0;
  owner = λ _. 0;
  hash = λ _. 0;
}

-- Two names, and the data blocks 0, 1 and so on.
abbrev data_file : Inode
data_file = record blank { type = 1; size = 5000; link_cnt = 2; direct = λ i. 135300608 + 4096 * i }

abbrev no_inodes : ℕ → Inode
no_inodes n = blank

abbrev example : Fs (ℕ → ℕ)
example = record {
  disk = λ a. inode_byte blank ((a - 134252032) % 128);
  block_bit_map = λ i. if i == 0 then 255 else 0;
  inode_bit_map = λ i. if i == 0 then 33 else 0;
  nodes = update no_inodes 5 data_file;
  inode_dirty = update (λ _. false) 0 true;
  super_block = mkfs_super_block;
  fd = record { pos = 10; node = 5; file_access = 3 };
  fwrite_wbuf = λ _. 0;
  fread_rbuf = λ _. 0;
}

example-IsCoherent : IsCoherent array_card example
unfolding mkfs_super_block
example-IsCoherent n small clean k h =
    let at : (134252032 + n * 128 + k - 134252032) % 128 ≡ k = omega arith in
    let other : (n == 5) ≡ false = ground arith in rw (at, other) refl

update_inode-OnCard_example :
    ((n : ℕ) → n < 8192 → OnCard array_card (update_inode array_card example) n)
    × ((j : ℕ) → j < 256 → (update_inode array_card example).inode_dirty j ≡ false)
    × SameMemory array_card example (update_inode array_card example)
unfolding mkfs_super_block
update_inode-OnCard_example =
    update_inode-OnCard array_card example (omega arith) example-IsCoherent

do_fread_crossing_hangs_example : do_fread array_card 1000 0 0 4086 (λ _. 0, example) ≡ hang
do_fread_crossing_hangs_example =
    do_fread_crossing_hangs array_card 1000 0 4086 (λ _. 0) example (omega arith) (omega arith)
      (omega arith)

do_fwrite_grow_faults_example : do_fwrite array_card table 1 0 (λ i. i) 0 9000 example ≡ fault
do_fwrite_grow_faults_example =
    do_fwrite_grow_faults array_card table 0 0 9000 (λ i. i) example (omega arith) (omega arith)
      (omega arith) (omega arith) (omega arith)

do_fwrite_within_example :
    Wrote array_card table
      (λ i. i)
      0
      20
      example
      (do_fwrite array_card table 1 0 (λ i. i) 0 20 example)
unfolding mkfs_super_block
do_fwrite_within_example =
    do_fwrite_within array_card table 0 0 20 (λ i. i) example refl (omega arith) (omega arith)
      (omega arith) (omega arith) (omega arith) (omega arith)

write_and_read-Returned_example :
    Returned array_card table 0 3 20
      (λ i. i)
      (write_and_read array_card table 0 0 3 20 (λ i. i) (λ _. 0) example)
unfolding mkfs_super_block
write_and_read-Returned_example =
    write_and_read-Returned array_card table 0 0 3 20 (λ i. i) (λ _. 0) example refl (omega arith)
      (omega arith) (omega arith) (omega arith) (omega arith) (omega arith) (omega arith)
      (omega arith)

rm_recurse-Unlinked_example :
    Ends (Unlinked array_card 7 (λ _. 0) example 5) (rm_recurse array_card 7 (λ _. 0) 1 5 example)
rm_recurse-Unlinked_example =
    rm_recurse-Unlinked array_card 7 (λ _. 0) 0 5 example (omega arith) (omega arith)

do_mkfs-Rooted_example :
    Ends
      (Rooted array_card (λ i. i) (λ _. 0) example)
      (do_mkfs array_card (λ i. i) (λ _. 0) example)
do_mkfs-Rooted_example = do_mkfs-Rooted array_card (λ i. i) (λ _. 0) example
