-- ===== src/Fs/Directory.antt =====
-- Directories in kernel/fs/fs.c: the working directory, and the operations that add and rename
-- entries, `do_mkdir`, `do_touch`, `do_link` and `do_rename`. Names are strings of the caller, whose
-- walks take fuel. An entry beyond the 128 of a block is a fault, and so is an access through a NULL
-- pointer. What is printed is left out.
pub mod Entry
pub mod Spelling
pub mod Stored
pub mod Touch
pub mod NewBlock
pub mod Mkdir
use mips_os.Common.{
  ℕ, zero, suc, ◌+◌, ◌-◌, ◌*◌, ◌/◌, ◌%◌, ◌^◌, ◌≤◌, ◌<◌, ◌≡◌, refl, sym, ap, ◌∙◌, subst, fun_ext,
}
use mips_os.Common.{◌≢◌, ◌↔◌, ◌⊎◌, inl, inr, Bool, true, false, not, ◌&&◌, ◌||◌, Option, none, some}
use mips_os.Common.{
  List, [], ◌∷◌, ◌++◌, map, arith, ltb, leb, ◌==◌, if◌then◌else◌, update, points_to,
}
use mips_os.Common.{
  ltb→lt, ltb→le, lt→ltb, le→ltb, ==_iff, ==_self, update_self, update_other, Bool-cases,
  Option-cases,
}
use mips_os.Common.{
  Outcome, ok, fault, hang, ◌>>=◌, >>=-fault, >>=-returns, Ends, Ends-bind, length, get_elem?, set,
  first, last_from, length-append, has, Distinct, has-append,
}
use mips_os.Text.{strlen}
use mips_os.Fs.{
  Inode, SuperBlock, Fs, block_size, file, dir, soft_link, inode_bit_map_size,
  data_block_bit_map_size,
}
use mips_os.Fs.Card.{Card, do_fs_read, do_fs_write}
use mips_os.Fs.Bitmap.{find_first_zero_bit}
use mips_os.Fs.Inodes.{
  word_byte, allocate_inode, allocate_data_block, mark_inode_dirty, update_inode, update_bit_map,
}
use mips_os.Fs.Path.{name_at, same_name, copy_name, search_entries, read_block, name_parse}

-- The globals that paths depend on: `cwd` as the number of its inode, and `cwd_str`.
pub record Session (Disk : Type 0) : Type 0 where
  pub fs : Fs Disk
  pub cwd : ℕ
  pub cwd_str : ℕ → ℕ

-- A slash at the end of a name is cut off. On the empty name the source reads the byte before it.
unfoldable pub name_str_standrize : ℕ → (ℕ → ℕ) → Outcome (ℕ → ℕ)
name_str_standrize fuel name = do
  len ← strlen fuel name 0
  if len == 0 then fault else if name (len - 1) == 47 then ok (update name (len - 1) 0) else ok name

-- The loop that looks for a slash.
unfoldable pub has_slash : ℕ → (ℕ → ℕ) → ℕ → Outcome Bool
has_slash zero name i = hang
has_slash (suc fuel) name i = elim (name i == 0) [
  | true ↦ ok false
  | false ↦ elim (name i == 47) [ true ↦ ok true | false ↦ has_slash fuel name (i + 1) ]
]

-- The four bytes of a word, stored at `a`.
abbrev pub put_word : (ℕ → ℕ) → ℕ → ℕ → ℕ → ℕ
put_word buf a w k = if leb a k && ltb k (a + 4) then word_byte w (k - a) else buf k

-- `dentry_buf[i]` set to the given type, inode and name.
unfoldable pub write_entry : ℕ → (ℕ → ℕ) → (i type inode_num : ℕ) → (ℕ → ℕ) → Outcome (ℕ → ℕ)
write_entry fuel buf i type inode_num name =
    if ltb i 128
    then copy_name fuel block_size (put_word (put_word buf (32 * i) type) (32 * i + 4) inode_num)
        (name_at i) name 0
    else fault

-- A pointer that the source follows without a look at it.
unfoldable pub follow : Option ℕ → Outcome ℕ
follow none = fault
follow (some n) = ok n

-- `SOFT_LINK` and `HARD_LINK`.
abbrev pub soft : ℕ
soft = 0

abbrev pub hard : ℕ
hard = 3

-- A field of an inode written.
abbrev pub set_node : {Disk : Type 0} → Fs Disk → ℕ → Inode → Fs Disk
set_node fs n ind = record fs { nodes = update fs.nodes n ind }

abbrev pub more_entries : Inode → Inode
more_entries ind = record ind { entry_num = (ind.entry_num + 1) % 2 ^ 32 }

module _ (card : Card) (now stack : ℕ → ℕ) (fuel : ℕ) where
  -- The block of the directory `n` written back.
  unfoldable pub write_block : Fs card.Disk → ℕ → (ℕ → ℕ) → Fs card.Disk
  write_block fs n buf = record fs {
    disk = do_fs_write card fs.disk ((fs.nodes n).direct 0) buf block_size;
  }

  -- The part of `do_touch` that follows the checks: a new inode, its entry in `cwd`, and the writes.
  unfoldable pub touch_entry : Fs card.Disk → (cwd k : ℕ) → (ℕ → ℕ) → Outcome (Fs card.Disk)
  touch_entry fs cwd k name = do
    let r = allocate_inode now fs k
    n ← follow r.0
    fs ← mark_inode_dirty k r.1
    let fs = set_node fs n (record (fs.nodes n) { size = 0; type = file; link_cnt = 1 })
    buf ← write_entry fuel (read_block card stack fs cwd) (fs.nodes cwd).entry_num file k name
    fs ← mark_inode_dirty cwd (set_node fs cwd (more_entries (fs.nodes cwd)))
    ok (update_bit_map card (update_inode card (write_block fs cwd buf)))

  unfoldable pub do_touch : Option (ℕ → ℕ) → Session card.Disk → Outcome (Session card.Disk)
  do_touch none s = ok s
  do_touch (some name) s = do
    name ← name_str_standrize fuel name
    slash ← has_slash fuel name 0
    if slash then ok s else (do
      k ← find_first_zero_bit s.fs.inode_bit_map inode_bit_map_size
      fs ← touch_entry s.fs s.cwd k name
      ok (record s { fs = fs }))

  -- The block of a new directory: "." and ".." over what the local buffer `stack` holds.
  unfoldable pub new_dir_block : (own parent : ℕ) → ℕ → ℕ
  new_dir_block own parent =
      let types = put_word (put_word stack 0 dir) 32 dir in
      let inodes = put_word (put_word types 4 own) 36 parent in
      let dot = update (update inodes 8 46) 9 0 in update (update (update dot 40 46) 41 46) 42 0

  -- The part of `do_mkdir` after the entry in `cwd`: the block `b` and the fields of the inode `n`.
  unfoldable pub mkdir_block : Fs card.Disk → (cwd n b : ℕ) → Outcome (Fs card.Disk)
  mkdir_block fs cwd n b =
      let a = allocate_data_block fs b in
      let node = a.1.nodes n in
      let fs = set_node a.1 n (record node {
        entry_num = 2;
        type = dir;
        direct = update node.direct 0 ((fs.super_block.data_start + b * block_size) % 2 ^ 32);
        link_cnt = 1;
      }) in
      if a.0
      then (do
        fs ← mark_inode_dirty cwd (update_bit_map card (write_block fs n (new_dir_block n cwd)))
        fs ← mark_inode_dirty n fs
        ok (update_inode card fs))
      else fault

  unfoldable pub do_mkdir : Option (ℕ → ℕ) → Session card.Disk → Outcome (Session card.Disk)
  do_mkdir none s = ok s
  do_mkdir (some name) s = do
    name ← name_str_standrize fuel name
    let buf = read_block card stack s.fs s.cwd
    let cnt = (s.fs.nodes s.cwd).entry_num
    let fs = set_node s.fs s.cwd (more_entries (s.fs.nodes s.cwd))
    k ← find_first_zero_bit fs.inode_bit_map inode_bit_map_size
    let r = allocate_inode now fs k
    buf ← write_entry fuel buf cnt dir k name
    let fs = write_block r.1 s.cwd buf
    b ← find_first_zero_bit fs.block_bit_map data_block_bit_map_size
    n ← follow r.0
    fs ← mkdir_block fs s.cwd n b
    ok (record s { fs = fs })

  -- An entry of `cwd` for a link to `n`, of which the inode `master` is marked dirty.
  unfoldable pub link_entry :
      Fs card.Disk → (cwd n type master : ℕ) → (ℕ → ℕ) → Outcome (Fs card.Disk)
  link_entry fs cwd n type master name = do
    buf ← write_entry fuel (read_block card stack fs cwd) (fs.nodes cwd).entry_num type n name
    fs ← mark_inode_dirty master (set_node fs cwd (more_entries (fs.nodes cwd)))
    ok (update_inode card (write_block fs cwd buf))

  unfoldable pub hard_link : Fs card.Disk → (cwd master : ℕ) → (ℕ → ℕ) → Outcome (Fs card.Disk)
  hard_link fs cwd master name =
      let node = fs.nodes master in
      link_entry (set_node fs master (record node { link_cnt = (node.link_cnt + 1) % 2 ^ 32 })) cwd
        master node.type master name

  unfoldable pub soft_link_to : Fs card.Disk → (cwd master : ℕ) → (ℕ → ℕ) → Outcome (Fs card.Disk)
  soft_link_to fs cwd master name = do
    k ← find_first_zero_bit fs.inode_bit_map inode_bit_map_size
    let r = allocate_inode now fs k
    n ← follow r.0
    let node = r.1.nodes n
    let linked = record node {
      type = soft_link;
      link_to = master;
      hash = λ i. if ltb i 16 then (r.1.nodes master).hash i else node.hash i;
    }
    link_entry (set_node r.1 n linked) cwd n soft_link master name

  -- Neither name is NULL.
  unfoldable pub do_link :
      (master servant : ℕ → ℕ) → (link_type : ℕ) → Session card.Disk → Outcome (Session card.Disk)
  do_link master servant link_type s = do
    master ← name_str_standrize fuel master
    servant ← name_str_standrize fuel servant
    target ← name_parse card stack s.fs s.cwd (some master)
    slash ← has_slash fuel servant 0
    if slash
        then ok s
        else if link_type == hard
        then (do m ← follow target; fs ← hard_link s.fs s.cwd m servant; ok (record s { fs = fs }))
        else if link_type == soft
        then (do
          m ← follow target
          if (s.fs.nodes m).type == soft_link
              then ok s
              else (do fs ← soft_link_to s.fs s.cwd m servant; ok (record s { fs = fs })))
        else ok s

  -- What `do_rename` makes of the block: the first entry from index 2 with the old name has the new.
  unfoldable pub rename_entry : (ℕ → ℕ) → Option ℕ → (ℕ → ℕ) → Outcome (ℕ → ℕ)
  rename_entry buf none new = ok buf
  rename_entry buf (some i) new = copy_name fuel block_size buf (name_at i) new 0

  -- Neither name is NULL.
  unfoldable pub do_rename : (old new : ℕ → ℕ) → Session card.Disk → Outcome (Session card.Disk)
  do_rename old new s = do
    old ← name_str_standrize fuel old
    new ← name_str_standrize fuel new
    let buf = read_block card stack s.fs s.cwd
    found ← search_entries ((s.fs.nodes s.cwd).entry_num - 2) old 0 buf 2
    buf ← rename_entry buf found new
    ok (record s { fs = write_block s.fs s.cwd buf })
