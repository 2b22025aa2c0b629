-- ===== src/Fs/Change.antt =====
-- `do_cd` of kernel/fs/fs.c, and `update_cwd_str`, which keeps the working directory's path as a
-- string in the 240 bytes of `cwd_str`: an index beyond them is a fault.
pub mod Down
pub mod Up
use mips_os.Common.{
  ℕ, zero, suc, ◌+◌, ◌-◌, ◌*◌, ◌/◌, ◌%◌, ◌^◌, ◌≤◌, ◌<◌, ◌≡◌, refl, sym, ap, ◌∙◌, subst, fun_ext,
}
use mips_os.Common.{◌≢◌, ◌↔◌, ◌⊎◌, inl, inr, Bool, true, false, not, ◌&&◌, ◌||◌, Option, none, some}
use mips_os.Common.{
  List, [], ◌∷◌, ◌++◌, map, arith, ltb, leb, ◌==◌, if◌then◌else◌, update, points_to,
}
use mips_os.Common.{
  ltb→lt, ltb→le, lt→ltb, le→ltb, ==_iff, ==_self, update_self, update_other, Bool-cases,
  Option-cases,
}
use mips_os.Common.{
  Outcome, ok, fault, hang, ◌>>=◌, >>=-fault, >>=-returns, Ends, Ends-bind, length, get_elem?, set,
  first, last_from, length-append, has, Distinct, has-append,
}
use mips_os.Text.{strlen}
use mips_os.Fs.{Inode, Fs, block_size}
use mips_os.Fs.Card.{Card}
use mips_os.Fs.Remove.{entry_inode}
use mips_os.Fs.Path.{
  path_size, name_at, same_name, copy_name, component_end, search_entries, check_inode, read_block,
  name_parse,
}
use mips_os.Fs.Directory.{Session, name_str_standrize}

-- `cwd_str[i] = v`.
unfoldable pub put_char : (ℕ → ℕ) → ℕ → ℕ → Outcome (ℕ → ℕ)
put_char str i v = if ltb i path_size then ok (update str i v) else fault

-- `cwd_str[len++] = '/'; cwd_str[len] = '\0'`, with the new length.
unfoldable pub end_with_slash : (ℕ → ℕ) → ℕ → Outcome ((ℕ → ℕ) × ℕ)
end_with_slash str len = do
  str ← put_char str len 47
  str ← put_char str (len + 1) 0
  ok (str, len + 1)

-- `while (cwd_str[len] != '/') --len`. Below index 0 the length wraps, and the access is wild.
unfoldable pub back_to_slash : (ℕ → ℕ) → ℕ → Outcome ℕ
back_to_slash str zero = if str 0 == 47 then ok 0 else fault
back_to_slash str (suc i) = elim (str (suc i) == 47) [
  | true ↦ ok (suc i)
  | false ↦ back_to_slash str i
]

-- The component "..": the last directory of the string goes away.
unfoldable pub leave_dir : (ℕ → ℕ) → ℕ → Outcome ((ℕ → ℕ) × ℕ)
leave_dir str zero = fault
leave_dir str (suc len) = do
  str ← put_char str len 0
  k ← back_to_slash str (suc len)
  end_with_slash str k

-- Another component, from `pos` of `name`: it is put at the end.
unfoldable pub enter_dir : (ℕ → ℕ) → ℕ → (ℕ → ℕ) → ℕ → Outcome ((ℕ → ℕ) × ℕ)
enter_dir str len name pos = do
  str ← copy_name (suc path_size) path_size str len name pos
  delta ← strlen (suc path_size) name pos
  end_with_slash str (len + delta)

-- "." and "..".
abbrev pub dot : ℕ → ℕ
dot k = if k == 0 then 46 else 0

abbrev pub dot_dot : ℕ → ℕ
dot_dot k = if ltb k 2 then 46 else 0

-- What a component that was found does to the string.
unfoldable pub change_str : (ℕ → ℕ) → ℕ → (ℕ → ℕ) → ℕ → Outcome ((ℕ → ℕ) × ℕ)
change_str str len name pos = do
  here ← same_name (suc path_size) name pos dot 0
  up ← same_name (suc path_size) name pos dot_dot 0
  if here then ok (str, len) else if up then leave_dir str len else enter_dir str len name pos

-- An absolute path replaces the string, with a slash at its end.
unfoldable pub absolute_str : (ℕ → ℕ) → (ℕ → ℕ) → Outcome (ℕ → ℕ)
absolute_str str name = do
  str ← copy_name (suc path_size) path_size str 0 name 0
  len ← strlen (suc path_size) str 0
  r ← end_with_slash str len
  ok r.0

module _ (card : Card) (stack : ℕ → ℕ) where
  -- The loop over the components, with the string and its length so far. A component that is not
  -- found ends it.
  unfoldable pub change_components :
      ℕ → Fs card.Disk → (ℕ → ℕ) → (pos target : ℕ) → (ℕ → ℕ) → ℕ → Outcome (ℕ → ℕ)
  change_components zero fs name pos target str len = hang
  change_components (suc fuel) fs name pos target str len = do
    e ← component_end (suc path_size) name pos
    let buf = read_block card stack fs target
    let name' = if e.1 then name else update name e.0 0
    found ← search_entries (fs.nodes target).entry_num name' pos buf 0
    elim found [
      | none ↦ ok str
      | some i ↦ do
        r ← change_str str len name' pos
        n ← check_inode (entry_inode buf i)
        elim e.1 [ true ↦ ok r.0 | false ↦ change_components fuel fs name' (e.0 + 1) n r.0 r.1 ]
    ]

  unfoldable pub update_cwd_str : Session card.Disk → Option (ℕ → ℕ) → Outcome (ℕ → ℕ)
  update_cwd_str s none = ok s.cwd_str
  update_cwd_str s (some path) = do
    len ← strlen (suc path_size) s.cwd_str 0
    name ← copy_name (suc path_size) path_size stack 0 path 0
    if name 0 == 47
        then absolute_str s.cwd_str name
        else change_components (suc path_size) s.fs name 0 s.cwd s.cwd_str len

  -- `cd` to a name, or to NULL, which is where one is.
  unfoldable pub change_to : Session card.Disk → Option (ℕ → ℕ) → Outcome (Session card.Disk)
  change_to s name = do
    target ← name_parse card stack s.fs s.cwd name
    elim target [
      | none ↦ ok s
      | some n ↦ do str ← update_cwd_str s name; ok (record s { cwd = n; cwd_str = str })
    ]

  unfoldable pub do_cd : ℕ → Option (ℕ → ℕ) → Session card.Disk → Outcome (Session card.Disk)
  do_cd fuel none s = change_to s none
  do_cd fuel (some name) s = do name ← name_str_standrize fuel name; change_to s (some name)
