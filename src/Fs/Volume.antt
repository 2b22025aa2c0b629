-- ===== src/Fs/Volume.antt =====
-- A small volume on a card that is an array of bytes, for the tests of the path operations: the root with
-- the directory "d", which is inode 1, and the file "f", which is inode 2.
use mips_os.Common.{ℕ, zero, suc, ◌-◌, ◌≡◌, refl}
use mips_os.Common.{false, ◌||◌}
use mips_os.Common.{List, [], ◌∷◌, arith, ltb, ◌==◌, if◌then◌else◌}
use mips_os.Common.{ok}
use mips_os.Fs.{Inode, mkfs_super_block}
use mips_os.Fs.Card.{array_card, do_fs_read}
use mips_os.Fs.Bitmap.{find_first_zero_bit, is_set}
use mips_os.Common.Bits.{test_bit}
use mips_os.Fs.Path.{read_block}
use mips_os.Fs.Path.Resolve.{Directory, Shows}
use mips_os.Fs.Directory.{Session}
use mips_os.Fs.Directory.Stored.{IsReady}

abbrev pub text : List ℕ → ℕ → ℕ
text [] k = 0
text (x ∷ xs) zero = x
text (x ∷ xs) (suc k) = text xs k

abbrev pub zeros : ℕ → ℕ
zeros _ = 0

-- The bytes of the two blocks, where they are not 0.
abbrev root_bytes : ℕ → ℕ
root_bytes k =
    if (k == 0) || (k == 32) || (k == 64) || (k == 100)
    then 2
    else if (k == 96) || (k == 68)
    then 1
    else if (k == 8) || (k == 40) || (k == 41)
    then 46
    else if k == 72
    then 100
    else if k == 104
    then 102
    else 0

abbrev child_bytes : ℕ → ℕ
child_bytes k =
    if (k == 0) || (k == 32)
    then 2
    else if k == 4
    then 1
    else if (k == 8) || (k == 40) || (k == 41)
    then 46
    else 0

abbrev card_bytes : ℕ → ℕ
card_bytes a =
    if ltb a 135300608
    then 0
    else if ltb a 135304704
    then root_bytes (a - 135300608)
    else child_bytes (a - 135304704)

abbrev pub unused : Inode
unused = record {
  entry_num = 0;
  type = 0;
  size = 0;
  link_cnt = 0;
  link_to = 0;
  direct = zeros;
  indirect = 0;
  double_indirect = 0;
  triple_indirect = 0;
  owner = zeros;
  hash = zeros;
}

abbrev pub table : ℕ → Inode
table n =
    if n == 0
    then record unused { entry_num = 4; type = 2; link_cnt = 1; direct = λ _. 135300608 }
    else if n == 1
    then record unused { entry_num = 2; type = 2; link_cnt = 1; direct = λ _. 135304704 }
    else if n == 2
    then record unused { type = 1; link_cnt = 1 }
    else unused

abbrev pub at_root : Session (ℕ → ℕ)
at_root = record {
  fs = record {
    disk = card_bytes;
    block_bit_map = λ i. if i == 0 then 3 else 0;
    inode_bit_map = λ i. if i == 0 then 7 else 0;
    nodes = table;
    inode_dirty = λ _. false;
    super_block = mkfs_super_block;
    fd = record { pos = 0; node = 0; file_access = 0 };
    fwrite_wbuf = zeros;
    fread_rbuf = zeros;
  };
  cwd = 0;
  cwd_str = text (47 ∷ []);
}

abbrev pub root_entries : Directory
root_entries = (46 ∷ [], 0) ∷ (46 ∷ 46 ∷ [], 0) ∷ (100 ∷ [], 1) ∷ (102 ∷ [], 2) ∷ []

abbrev pub child_entries : Directory
child_entries = (46 ∷ [], 1) ∷ (46 ∷ 46 ∷ [], 0) ∷ []

abbrev pub contents : ℕ → Directory
contents n = if n == 1 then child_entries else root_entries

pub root-Shows : Shows array_card zeros at_root.fs 0 root_entries
unfolding read_block do_fs_read
root-Shows = (
  refl,
  omega arith,
  (
    (refl, omega arith, omega arith, refl),
    omega arith,
    refl,
    omega arith,
    (
      (refl, omega arith, omega arith, (refl, omega arith, omega arith, refl)),
      omega arith,
      refl,
      omega arith,
      (
        (refl, omega arith, omega arith, refl),
        omega arith,
        refl,
        omega arith,
        ((refl, omega arith, omega arith, refl), omega arith, refl, omega arith, tt),
      ),
    ),
  ),
)

pub child-Shows : Shows array_card zeros at_root.fs 1 child_entries
unfolding read_block do_fs_read
child-Shows = (
  refl,
  omega arith,
  (
    (refl, omega arith, omega arith, refl),
    omega arith,
    refl,
    omega arith,
    (
      (refl, omega arith, omega arith, (refl, omega arith, omega arith, refl)),
      omega arith,
      refl,
      omega arith,
      tt,
    ),
  ),
)

pub at_root-IsReady : IsReady array_card zeros zeros at_root.fs 0 root_entries
unfolding is_set test_bit mkfs_super_block
at_root-IsReady = record {
  volume = refl;
  in_table = omega arith;
  in_use = refl;
  shows = root-Shows;
  room = omega arith;
  in_data = omega arith;
}

pub inode_free : find_first_zero_bit at_root.fs.inode_bit_map 1024 ≡ ok 3
unfolding find_first_zero_bit test_bit
inode_free = refl

pub block_free : find_first_zero_bit at_root.fs.block_bit_map 32768 ≡ ok 2
unfolding find_first_zero_bit test_bit
block_free = refl
