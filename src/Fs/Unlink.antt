-- ===== src/Fs/Unlink.antt =====
-- `do_rm` of kernel/fs/fs.c: the target of the name is removed by `rm_recurse`, and then its entry
-- from the directory that the name leads to. The name is not NULL.
pub mod Shift
pub mod Entries
pub mod Levels
pub mod Rename
use mips_os.Common.{
  ℕ, zero, suc, ◌+◌, ◌-◌, ◌*◌, ◌/◌, ◌%◌, ◌^◌, ◌≤◌, ◌<◌, ◌≡◌, refl, sym, ap, ◌∙◌, subst, fun_ext,
}
use mips_os.Common.{◌≢◌, ◌↔◌, ◌⊎◌, inl, inr, Bool, true, false, not, ◌&&◌, ◌||◌, Option, none, some}
use mips_os.Common.{
  List, [], ◌∷◌, ◌++◌, map, arith, ltb, leb, ◌==◌, if◌then◌else◌, update, points_to,
}
use mips_os.Common.{
  ltb→lt, ltb→le, lt→ltb, le→ltb, ==_iff, ==_self, update_self, update_other, Bool-cases,
  Option-cases,
}
use mips_os.Common.{
  Outcome, ok, fault, hang, ◌>>=◌, >>=-fault, >>=-returns, Ends, Ends-bind, length, get_elem?, set,
  first, last_from, length-append, has, Distinct, has-append,
}
use mips_os.Text.{strlen}
use mips_os.Fs.{Inode, Fs, block_size, inode_max_number}
use mips_os.Fs.Card.{Card}
use mips_os.Fs.Inodes.{update_inode, update_bit_map}
use mips_os.Fs.Remove.{entry_inode, rm_recurse}
use mips_os.Fs.Path.{name_at, search_entries, check_inode, read_block, name_parse}
use mips_os.Fs.Directory.{Session, name_str_standrize, follow, set_node, write_block}

-- The number of slashes from `i`.
unfoldable pub count_slashes : ℕ → (ℕ → ℕ) → ℕ → Outcome ℕ
count_slashes zero name i = hang
count_slashes (suc fuel) name i = elim (name i == 0) [
  | true ↦ ok 0
  | false ↦ do n ← count_slashes fuel name (i + 1); ok (if name i == 47 then suc n else n)
]

-- `is_multi_level`: a single slash counts only at the front.
unfoldable pub is_multi_level : ℕ → (ℕ → ℕ) → Outcome Bool
is_multi_level fuel name = do
  n ← count_slashes fuel name 0
  ok (if n == 1 then name 0 == 47 else ltb 0 n)

-- The last slash at or before `i`. Before index 0 the walk leaves the array.
unfoldable pub last_slash : (ℕ → ℕ) → ℕ → Outcome ℕ
last_slash name zero = if name 0 == 47 then ok 0 else fault
last_slash name (suc i) = elim (name (suc i) == 47) [
  | true ↦ ok (suc i)
  | false ↦ last_slash name i
]

-- The loop that moves the entries from `i` on one place down, with `left` to go.
unfoldable pub shift_entries : ℕ → ℕ → (ℕ → ℕ) → Outcome (ℕ → ℕ)
shift_entries zero i buf = ok buf
shift_entries (suc left) i buf = elim (ltb i 128) [
  | false ↦ fault
  | true ↦
      shift_entries left (i + 1)
        (λ k. if leb (32 * (i - 1)) k && ltb k (32 * i) then buf (k + 32) else buf k)
]

-- The entry `th` taken out of the block; without one `th` is 1000000 and nothing moves.
unfoldable pub drop_entry : (entry_num : ℕ) → (ℕ → ℕ) → Option ℕ → Outcome (ℕ → ℕ)
drop_entry entry_num buf none = shift_entries (entry_num - 1000001) 1000001 buf
drop_entry entry_num buf (some th) = shift_entries (entry_num - (th + 1)) (th + 1) buf

abbrev pub fewer_entries : Inode → Inode
fewer_entries ind = record ind { entry_num = (ind.entry_num + 2 ^ 32 - 1) % 2 ^ 32 }

module _ (card : Card) (now stack : ℕ → ℕ) (fuel : ℕ) where
  -- The end of `do_rm`: the entry with the name from `pos` leaves the directory `parent`, and the maps
  -- and the marked inodes are written.
  unfoldable pub unlink_entry : Fs card.Disk → (parent : ℕ) → (ℕ → ℕ) → ℕ → Outcome (Fs card.Disk)
  unlink_entry fs parent name pos = do
    let buf = read_block card stack fs parent
    let count = (fs.nodes parent).entry_num
    found ← search_entries (count - 2) name pos buf 2
    buf ← drop_entry count buf found
    let fs =
        write_block card now stack fuel (set_node fs parent (fewer_entries (fs.nodes parent)))
          parent buf
    ok (update_inode card (update_bit_map card fs))

  -- The directory that holds the entry, by the slashes of the name.
  unfoldable pub remove_from_parent : Session card.Disk → (ℕ → ℕ) → Outcome (Session card.Disk)
  remove_from_parent s name = do
    multi ← is_multi_level fuel name
    if multi
        then (do
          len ← strlen fuel name 0
          k ← last_slash name len
          let name = update name k 0
          o ← name_parse card stack s.fs s.cwd (some name)
          parent ← follow o
          fs ← unlink_entry s.fs parent name (k + 1)
          ok (record s { fs = fs }))
        else (do fs ← unlink_entry s.fs s.cwd name 0; ok (record s { fs = fs }))

  -- Without a target, a broken soft link is looked for in `cwd`.
  unfoldable pub broken_link : Session card.Disk → (ℕ → ℕ) → Option ℕ → Outcome (Option ℕ)
  broken_link s name (some n) = ok (some n)
  broken_link s name none = do
    let buf = read_block card stack s.fs s.cwd
    found ← search_entries ((s.fs.nodes s.cwd).entry_num - 2) name 0 buf 2
    elim found [ none ↦ ok none | some i ↦ do n ← check_inode (entry_inode buf i); ok (some n) ]

  -- `depth` is the fuel of `rm_recurse`, and `time` the reading of the timer.
  unfoldable pub do_rm :
      (depth time : ℕ) → (ℕ → ℕ) → Session card.Disk → Outcome (Session card.Disk)
  do_rm depth time name s = do
    name ← name_str_standrize fuel name
    o ← name_parse card stack s.fs s.cwd (some name)
    target ← broken_link s name o
    elim target [
      | none ↦ ok s
      | some n ↦ do
        fs ← rm_recurse card time stack depth n s.fs
        remove_from_parent (record s { fs = fs }) name
    ]
