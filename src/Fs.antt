-- ===== src/Fs.antt =====
-- kernel/fs/fs.c and include/os/fs.h: the state of the file system and its constants. A pointer to
-- an inode is the inode's number; `nodes_addr` is the address of `nodes` where the source computes
-- with addresses. Arrays are functions of the index, and an index beyond their size is a fault.
pub mod Card
pub mod Bitmap
pub mod Inodes
pub mod File
pub mod Remove
pub mod Path
pub mod Directory
pub mod Unlink
pub mod Change
pub mod Open
pub mod Find
pub mod Mkfs
pub mod Examples
pub mod Volume
pub mod PathExamples
use mips_os.Common.{
  ℕ, zero, suc, ◌+◌, ◌-◌, ◌*◌, ◌/◌, ◌%◌, ◌^◌, ◌≤◌, ◌<◌, ◌≡◌, refl, sym, ap, ◌∙◌, subst, fun_ext,
}
use mips_os.Common.{◌≢◌, ◌↔◌, ◌⊎◌, inl, inr, Bool, true, false, not, ◌&&◌, ◌||◌, Option, none, some}
use mips_os.Common.{
  List, [], ◌∷◌, ◌++◌, map, arith, ltb, leb, ◌==◌, if◌then◌else◌, update, points_to,
}
use mips_os.Common.{ltb→lt, ltb→le, lt→ltb, le→ltb, ==_iff, ==_self, Bool-cases, Option-cases}
use mips_os.Common.{
  Outcome, ok, fault, hang, ◌>>=◌, length, get_elem?, set, first, last_from, length-append, has,
  Distinct, has-append,
}

abbrev pub block_size : ℕ
block_size = 4096

abbrev pub inode_bit_map_size : ℕ
inode_bit_map_size = 1024

abbrev pub inode_max_number : ℕ
inode_max_number = 8192

abbrev pub data_block_bit_map_size : ℕ
data_block_bit_map_size = 32768

abbrev pub data_block_max_number : ℕ
data_block_max_number = 262144

abbrev pub fs_start : ℕ
fs_start = 134217728

abbrev pub sizeof_inode : ℕ
sizeof_inode = 128

-- `enum entry_type`; the field is a plain `uint32_t`.
abbrev pub notype : ℕ
notype = 0

abbrev pub file : ℕ
file = 1

abbrev pub dir : ℕ
dir = 2

abbrev pub soft_link : ℕ
soft_link = 3

pub record Inode : Type 0 where
  pub entry_num : ℕ
  pub type : ℕ
  pub size : ℕ
  pub link_cnt : ℕ
  pub link_to : ℕ
  pub direct : ℕ → ℕ
  pub indirect : ℕ
  pub double_indirect : ℕ
  pub triple_indirect : ℕ
  pub owner : ℕ → ℕ
  pub hash : ℕ → ℕ

pub record SuperBlock : Type 0 where
  pub magic : ℕ
  pub data_block_num : ℕ
  pub data_block_size : ℕ
  pub inode_num : ℕ
  pub inode_size : ℕ
  pub blk_bit_map_start : ℕ
  pub ind_bit_map_start : ℕ
  pub ind_start : ℕ
  pub data_start : ℕ

-- `file_desc_t`; a process has one, `fd[0]`.
pub record FileDesc : Type 0 where
  pub pos : ℕ
  pub node : ℕ
  pub file_access : ℕ

-- The globals of fs.c, the card behind them, and the descriptor of the running process.
pub record Fs (Disk : Type 0) : Type 0 where
  pub disk : Disk
  pub block_bit_map : ℕ → ℕ
  pub inode_bit_map : ℕ → ℕ
  pub nodes : ℕ → Inode
  pub inode_dirty : ℕ → Bool
  pub super_block : SuperBlock
  pub fd : FileDesc
  pub fwrite_wbuf : ℕ → ℕ
  pub fread_rbuf : ℕ → ℕ

-- What `do_mkfs` puts into the super block.
unfoldable pub mkfs_super_block : SuperBlock
mkfs_super_block =
    let blk_bit_map_start = fs_start + 512 in
    let ind_bit_map_start = blk_bit_map_start + data_block_bit_map_size in
    let ind_start = ind_bit_map_start + inode_bit_map_size in
    record {
      magic = 0x666;
      data_block_num = data_block_max_number;
      data_block_size = block_size;
      inode_num = inode_max_number;
      inode_size = sizeof_inode;
      blk_bit_map_start = blk_bit_map_start;
      ind_bit_map_start = ind_bit_map_start;
      ind_start = ind_start;
      data_start = ind_start + sizeof_inode * inode_max_number;
    }

unfoldable pub get_data_block_offset : SuperBlock → ℕ → ℕ
get_data_block_offset sb n = (sb.data_start + n * block_size) % 2 ^ 32

unfoldable pub get_data_block_number : SuperBlock → ℕ → ℕ
get_data_block_number sb offset = (offset + 2 ^ 32 - sb.data_start) % 2 ^ 32 / block_size

-- `&nodes[n]` as an address, and the way back.
abbrev pub inode_addr : ℕ → ℕ → ℕ
inode_addr nodes_addr n = (nodes_addr + n * sizeof_inode) % 2 ^ 32

unfoldable pub get_inode_number : ℕ → ℕ → ℕ
get_inode_number nodes_addr ind = (ind + 2 ^ 32 - nodes_addr) % 2 ^ 32 / sizeof_inode
