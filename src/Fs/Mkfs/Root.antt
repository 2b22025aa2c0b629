-- ===== src/Fs/Mkfs/Root.antt =====
-- What `do_mkfs` makes of the root.
use mips_os.Common.{ℕ, ◌≡◌, refl, ap, ◌∙◌}
use mips_os.Common.{arith}
use mips_os.Common.{ok, Ends}
use mips_os.Common.{Ends}
use mips_os.Common.Bits.{test_bit}
use mips_os.Fs.{Inode, SuperBlock, Fs, mkfs_super_block}
use mips_os.Fs.Card.{Card}
use mips_os.Fs.Bitmap.{is_set, find_first_zero_bit}
use mips_os.Fs.Inodes.{
  zero_below, allocate_inode, allocate_data_block, mark_inode_dirty, update_bit_map,
}
use mips_os.Fs.Inodes.Frame.{update_inode-Spares}
use mips_os.Common.{[], ◌∷◌, ◌+◌, ◌<◌, inr}
use mips_os.Fs.{dir, get_data_block_offset}
use mips_os.Fs.Remove.{word_at}
use mips_os.Fs.Path.{read_block}
use mips_os.Fs.Path.Resolve.{Shows, Lists}
use mips_os.Fs.Directory.Entry.{Lists-frame}
use mips_os.Fs.Directory.Stored.{read_block-byte}
use mips_os.Fs.Unlink.Shift.{word_at-move}
use mips_os.Fs.Inodes.Frame.{update_bit_map-Spares, do_fs_write-inside, Spares, OffTable}
use mips_os.Fs.Card.{do_fs_write}
use mips_os.Fs.Inodes.{update_inode}
use mips_os.Common.{true, update, ◌≤◌, inr}
use mips_os.Fs.Mkfs.{root_block, mkfs_start, mkfs_root, do_mkfs}

find_inode : (f : ℕ → ℕ) → find_first_zero_bit (zero_below 1024 f) 1024 ≡ ok 0
unfolding find_first_zero_bit test_bit
find_inode f = refl

find_block : (f : ℕ → ℕ) → find_first_zero_bit (zero_below 32768 f) 32768 ≡ ok 0
unfolding find_first_zero_bit test_bit
find_block f = refl

first_offset : get_data_block_offset mkfs_super_block 0 ≡ 135300608
unfolding get_data_block_offset mkfs_super_block
first_offset = refl

table_start : mkfs_super_block.ind_start ≡ 134252032
unfolding mkfs_super_block
table_start = refl

module _ (card : Card) (now stack : ℕ → ℕ) where
  -- The super block is that of the format. The block of the root, inode 0, is the first of the data
  -- area, and on the card it has the entries "." and "..", both the root and both directories. The
  -- root has one link, and the type that the inode had before.
  abbrev pub Rooted : Fs card.Disk → Fs card.Disk → Type 0
  Rooted fs new =
      (new.super_block ≡ mkfs_super_block)
      × ((new.nodes 0).direct 0 ≡ mkfs_super_block.data_start)
      × Shows card stack new 0 ((46 ∷ [], 0) ∷ (46 ∷ 46 ∷ [], 0) ∷ [])
      × (word_at (read_block card stack new 0) 0 ≡ dir)
      × (word_at (read_block card stack new 0) 32 ≡ dir)
      × ((new.nodes 0).link_cnt ≡ 1)
      × ((new.nodes 0).type ≡ (fs.nodes 0).type)

  -- The block of the root, once the maps and then the table are written too.
  root_bytes :
      (d : card.Disk) (fs mid new : Fs card.Disk)
      → fs.disk ≡ do_fs_write card d 135300608 (root_block 0) 4096
      → (fs.nodes 0).direct 0 ≡ 135300608
      → Spares card (λ a. mkfs_super_block.data_start ≤ a) fs mid
      → Spares card (OffTable card 134252032) mid new
      → (a : ℕ) → a < 4096
      → read_block card stack new 0 a ≡ root_block 0 a
  unfolding mkfs_super_block
  root_bytes d fs mid new written at maps table a lt =
      read_block-byte card now stack new 0 a lt
      ∙ ap (λ (p : ℕ). card.byte new.disk (p + a))
          (ap (λ (f : ℕ → Inode). (f 0).direct 0) (table.nodes ∙ maps.nodes) ∙ at)
      ∙ table.card_same (135300608 + a) (inr (omega arith))
      ∙ maps.card_same (135300608 + a) (omega arith)
      ∙ ap (λ (x : card.Disk). card.byte x (135300608 + a)) written
      ∙ do_fs_write-inside card d 135300608 (root_block 0) 4096 a lt

  root_block-Lists : Lists (root_block 0) 0 ((46 ∷ [], 0) ∷ (46 ∷ 46 ∷ [], 0) ∷ [])
  unfolding root_block
  root_block-Lists = (
    (refl, omega arith, omega arith, refl),
    omega arith,
    refl,
    omega arith,
    (
      (refl, omega arith, omega arith, (refl, omega arith, omega arith, refl)),
      omega arith,
      refl,
      omega arith,
      tt,
    ),
  )

  root-Rooted :
      (d : card.Disk) (old fs mid new : Fs card.Disk)
      → fs.super_block ≡ mkfs_super_block
      → fs.disk ≡ do_fs_write card d 135300608 (root_block 0) 4096
      → (fs.nodes 0).direct 0 ≡ 135300608
      → (fs.nodes 0).entry_num ≡ 2
      → (fs.nodes 0).link_cnt ≡ 1
      → (fs.nodes 0).type ≡ (old.nodes 0).type
      → Spares card (λ a. mkfs_super_block.data_start ≤ a) fs mid
      → Spares card (OffTable card 134252032) mid new
      → Rooted old new
  unfolding root_block mkfs_super_block
  root-Rooted d old fs mid new volume written at count links type maps table =
      let same = table.nodes ∙ maps.nodes in
      let bytes = root_bytes d fs mid new written at maps table in
      (
        table.super_block ∙ maps.super_block ∙ volume,
        ap (λ (f : ℕ → Inode). (f 0).direct 0) same ∙ at,
        (
          ap (λ (f : ℕ → Inode). (f 0).entry_num) same ∙ count,
          omega arith,
          Lists-frame (root_block 0) (read_block card stack new 0) 0
              ((46 ∷ [], 0) ∷ (46 ∷ 46 ∷ [], 0) ∷ []) root_block-Lists
              (λ a lt. bytes a (omega (arith, lt))),
        ),
        word_at-move (root_block 0) (read_block card stack new 0) 0 0
            (λ j lt. bytes (0 + j) (omega (arith, lt))),
        word_at-move (root_block 0) (read_block card stack new 0) 32 32
            (λ j lt. bytes (32 + j) (omega (arith, lt))),
        ap (λ (f : ℕ → Inode). (f 0).link_cnt) same ∙ links,
        ap (λ (f : ℕ → Inode). (f 0).type) same ∙ type,
      )

  mkfs_root-Rooted :
      (fs : Fs card.Disk)
      → fs.super_block ≡ mkfs_super_block
      → Ends (Rooted fs) (mkfs_root card now stack 0 0 fs)
  unfolding mkfs_root mark_inode_dirty update_bit_map
  mkfs_root-Rooted fs e =
      let at : get_data_block_offset fs.super_block 0 ≡ 135300608 = rw e first_offset in
      let old = fs.nodes 0 in
      let written : Fs card.Disk = record fs {
        nodes = update fs.nodes 0 (record old {
          entry_num = 2;
          link_cnt = 1;
          direct = update old.direct 0 (get_data_block_offset fs.super_block 0);
        });
        disk =
            do_fs_write card fs.disk (get_data_block_offset fs.super_block 0) (root_block 0) 4096;
      } in
      let maps = update_bit_map-Spares card written e in
      let mid = record (update_bit_map card written) {
        inode_dirty = update fs.inode_dirty 0 true;
      } in
      root-Rooted fs.disk fs written mid (update_inode card mid) e
        (ap (λ p. do_fs_write card fs.disk p (root_block 0) 4096) at) at refl refl refl
        (record {
          nodes = maps.nodes;
          fd = maps.fd;
          super_block = maps.super_block;
          card_same = maps.card_same;
        })
        (update_inode-Spares card 134252032 mid
          (ap (λ (sb : SuperBlock). sb.ind_start) (maps.super_block ∙ e) ∙ table_start)
          (omega arith))

  -- Making a volume ends well. The super block is that of the format. The root, inode 0, has the first
  -- block of the data area, which on the card lists exactly "." and "..", both of them inode 0 and of
  -- the type of directories, and it has one link. Its own type, though, is whatever the inode had before.
  pub do_mkfs-Rooted : (fs : Fs card.Disk) → Ends (Rooted fs) (do_mkfs card now stack fs)
  unfolding do_mkfs mkfs_start allocate_inode allocate_data_block is_set test_bit
  do_mkfs-Rooted fs =
      rw (find_inode fs.inode_bit_map, find_block fs.block_bit_map) (mkfs_root-Rooted _ refl)
