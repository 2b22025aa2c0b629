-- ===== src/Fs/Path.antt =====
-- Names and paths of kernel/fs/fs.c: `name_parse` and the string routines of libs/string.c on the
-- arrays it uses. A name is the array from the place that the pointer points to; the local copy
-- has 240 bytes and a directory's block 4096, and an access beyond them is a fault.

pub mod Names
pub mod Resolve
pub mod Returns
use mips_os.Common.{
  ℕ, zero, suc, ◌+◌, ◌-◌, ◌*◌, ◌/◌, ◌%◌, ◌^◌, ◌≤◌, ◌<◌, ◌≡◌, refl, sym, ap, ◌∙◌, subst, fun_ext,
}
use mips_os.Common.{◌≢◌, ◌↔◌, ◌⊎◌, inl, inr, Bool, true, false, not, ◌&&◌, ◌||◌, Option, none, some}
use mips_os.Common.{
  List, [], ◌∷◌, ◌++◌, map, arith, ltb, leb, ◌==◌, if◌then◌else◌, update, points_to,
}
use mips_os.Common.{
  ltb→lt, ltb→le, lt→ltb, le→ltb, ==_iff, ==_self, update_self, update_other, Bool-cases,
  Option-cases,
}
use mips_os.Common.{
  Outcome, ok, fault, hang, ◌>>=◌, >>=-fault, >>=-returns, Ends, Ends-bind, length, get_elem?, set,
  first, last_from, length-append, has, Distinct, has-append,
}
use mips_os.Fs.{Inode, Fs, block_size, inode_max_number, soft_link}
use mips_os.Fs.Card.{Card, do_fs_read}
use mips_os.Fs.Remove.{entry_inode}

-- The size of `char[10 * MAX_NAME_LEN]`.
abbrev pub path_size : ℕ
path_size = 240

-- Where the name of entry `i` begins in a directory's block.
abbrev pub name_at : ℕ → ℕ
name_at i = 32 * i + 8

-- `strcmp(a, b) == 0` for a string in `a` from `i` and one in the block `b` from `j`.
unfoldable pub same_name : ℕ → (a : ℕ → ℕ) → ℕ → (b : ℕ → ℕ) → ℕ → Outcome Bool
same_name zero a i b j = hang
same_name (suc fuel) a i b j = elim (ltb j block_size) [
  | false ↦ fault
  | true ↦ elim (not (a i == 0) && not (b j == 0) && (a i == b j)) [
    | true ↦ same_name fuel a (i + 1) b (j + 1)
    | false ↦ ok (a i == b j)
  ]
]

-- `strcpy` to an array of `size` bytes, from `d` on.
unfoldable pub copy_name : ℕ → (size : ℕ) → (dest : ℕ → ℕ) → ℕ → (src : ℕ → ℕ) → ℕ → Outcome (ℕ → ℕ)
copy_name zero size dest d src s = hang
copy_name (suc fuel) size dest d src s = elim (ltb d size) [
  | false ↦ fault
  | true ↦ elim (src s == 0) [
    | true ↦ ok (update dest d 0)
    | false ↦ copy_name fuel size (update dest d (src s)) (d + 1) src (s + 1)
  ]
]

-- The end of the component that begins at `i`, and whether the path ends there.
unfoldable pub component_end : ℕ → (ℕ → ℕ) → ℕ → Outcome (ℕ × Bool)
component_end zero name i = hang
component_end (suc fuel) name i = elim (ltb i path_size) [
  | false ↦ fault
  | true ↦ elim (name i == 0) [
    | true ↦ ok (i, true)
    | false ↦ elim (name i == 47) [ true ↦ ok (i, false) | false ↦ component_end fuel name (i + 1) ]
  ]
]

-- The loop over the entries from `i`, with `left` to go: the first with the name that begins at `pos`.
unfoldable pub search_entries : ℕ → (ℕ → ℕ) → ℕ → (ℕ → ℕ) → ℕ → Outcome (Option ℕ)
search_entries zero name pos buf i = ok none
search_entries (suc left) name pos buf i = do
  same ← same_name (suc block_size) name pos buf (name_at i)
  elim same [ true ↦ ok (some i) | false ↦ search_entries left name pos buf (i + 1) ]

-- The hashes of two inodes agree in their first `n` bytes.
unfoldable pub same_hash : ℕ → (ℕ → ℕ) → (ℕ → ℕ) → Bool
same_hash zero f g = true
same_hash (suc n) f g = same_hash n f g && (f n == g n)

-- A pointer to an inode beyond the table.
unfoldable pub check_inode : ℕ → Outcome ℕ
check_inode n = if ltb n inode_max_number then ok n else fault

-- What follows the search: the inode of the entry is the result or the next directory, in which `rec`
-- goes on.
unfoldable pub step_into : (ℕ → Outcome (Option ℕ)) → Bool → ℕ → Outcome (Option ℕ)
step_into rec true n = ok (some n)
step_into rec false n = rec n

unfoldable pub enter_found :
    (ℕ → Outcome (Option ℕ)) → Bool → (ℕ → ℕ) → Option ℕ → Outcome (Option ℕ)
enter_found rec last buf none = ok none
enter_found rec last buf (some i) = do n ← check_inode (entry_inode buf i); step_into rec last n

-- The end of `name_parse`: a soft link is followed once, and one whose target has another hash is
-- broken.
unfoldable pub follow_link : (ℕ → Inode) → Option ℕ → Outcome (Option ℕ)
follow_link nodes none = ok none
follow_link nodes (some n) =
    let ind = nodes n in
    if not (ind.type == soft_link)
    then ok (some n)
    else if not (ltb ind.link_to inode_max_number)
    then fault
    else if same_hash 16 (nodes ind.link_to).hash ind.hash
    then ok (some ind.link_to)
    else ok none

module _ (card : Card) (stack : ℕ → ℕ) where
  -- The block of the directory `n`, read into a local buffer.
  unfoldable pub read_block : Fs card.Disk → ℕ → ℕ → ℕ
  read_block fs n = do_fs_read card fs.disk ((fs.nodes n).direct 0) stack block_size

  -- The loop of `name_parse`, with `_name` at `pos` of the local array.
  unfoldable pub parse_components :
      ℕ → Fs card.Disk → (ℕ → ℕ) → (pos target : ℕ) → Outcome (Option ℕ)
  parse_components zero fs name pos target = hang
  parse_components (suc fuel) fs name pos target = do
    e ← component_end (suc path_size) name pos
    let buf = read_block fs target
    let name' = if e.1 then name else update name e.0 0
    found ← search_entries (fs.nodes target).entry_num name' pos buf 0
    enter_found (λ n. parse_components fuel fs name' (e.0 + 1) n) e.1 buf found

  -- From the root, inode 0, or from `cwd`.
  unfoldable pub parse_path : Fs card.Disk → ℕ → (ℕ → ℕ) → Outcome (Option ℕ)
  parse_path fs cwd name =
      if name 0 == 47
      then parse_components (suc path_size) fs name 1 0
      else parse_components (suc path_size) fs name 0 cwd

  unfoldable pub name_parse : Fs card.Disk → ℕ → Option (ℕ → ℕ) → Outcome (Option ℕ)
  name_parse fs cwd none = follow_link fs.nodes (some cwd)
  name_parse fs cwd (some path) = do
    name ← copy_name (suc path_size) path_size stack 0 path 0
    target ← parse_path fs cwd name
    follow_link fs.nodes target
