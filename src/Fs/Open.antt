-- ===== src/Fs/Open.antt =====
-- `do_fopen`, `do_cat` and `do_ls` of kernel/fs/fs.c. What the last two print is their result: the
-- bytes of the file, and for each entry its name cut at NUL and padded to 12 characters, its type,
-- and the size that is printed for a file.
pub mod New
use mips_os.Common.{
  ℕ, zero, suc, ◌+◌, ◌-◌, ◌*◌, ◌/◌, ◌%◌, ◌^◌, ◌≤◌, ◌<◌, ◌≡◌, refl, sym, ap, ◌∙◌, subst, fun_ext,
}
use mips_os.Common.{◌≢◌, ◌↔◌, ◌⊎◌, inl, inr, Bool, true, false, not, ◌&&◌, ◌||◌, Option, none, some}
use mips_os.Common.{
  List, [], ◌∷◌, ◌++◌, map, arith, ltb, leb, ◌==◌, if◌then◌else◌, update, points_to,
}
use mips_os.Common.{
  ltb→lt, ltb→le, lt→ltb, le→ltb, ==_iff, ==_self, update_self, update_other, Bool-cases,
  Option-cases,
}
use mips_os.Common.{
  Outcome, ok, fault, hang, ◌>>=◌, >>=-fault, >>=-returns, Ends, Ends-bind, length, get_elem?, set,
  first, last_from, length-append, has, Distinct, has-append,
}
use mips_os.Fs.{Inode, Fs, FileDesc, block_size, file, dir, notype, inode_max_number}
use mips_os.Fs.Card.{Card, do_fs_read}
use mips_os.Fs.Remove.{word_at, entry_inode}
use mips_os.Fs.Path.{name_at, read_block, name_parse}
use mips_os.Fs.Directory.{Session, name_str_standrize, has_slash, follow, do_touch}

-- The `n` bytes of a buffer from `i`.
unfoldable pub bytes_from : (n i : ℕ) → (ℕ → ℕ) → List ℕ
bytes_from zero i buf = []
bytes_from (suc n) i buf = buf i ∷ bytes_from n (i + 1) buf

-- `n` characters of a name from `a`, with spaces from the first NUL on.
unfoldable pub padded_name : (n a : ℕ) → (met_zero : Bool) → (ℕ → ℕ) → List ℕ
padded_name zero a met_zero buf = []
padded_name (suc n) a met_zero buf =
    let met = met_zero || (buf a == 0) in
    (if met then 32 else buf a) ∷ padded_name n (a + 1) met buf

-- A line of the list: name, type, and the size of a file.
pub record Row : Type 0 where
  pub name : List ℕ
  pub type : ℕ
  pub size : Option ℕ

unfoldable pub row_of : (ℕ → Inode) → (ℕ → ℕ) → ℕ → Row
row_of nodes buf i =
    let type = word_at buf (32 * i) in
    record {
      name = padded_name 12 (name_at i) false buf;
      type = type;
      size = if type == file then some (nodes (entry_inode buf i)).size else none;
    }

-- The loop of `do_ls` from entry `i`, up to an entry without a type. The type is read before the
-- index is compared, at the end of the entries as well.
unfoldable pub list_rows : (left i : ℕ) → (ℕ → Inode) → (ℕ → ℕ) → Outcome (List Row)
list_rows zero i nodes buf = if ltb i 128 then ok [] else fault
list_rows (suc left) i nodes buf = elim (ltb i 128) [
  | false ↦ fault
  | true ↦ elim (word_at buf (32 * i) == notype) [
    | true ↦ ok []
    | false ↦ do
      rows ← list_rows left (i + 1) nodes buf
      if ltb (entry_inode buf i) inode_max_number then ok (row_of nodes buf i ∷ rows) else fault
  ]
]

module _ (card : Card) (now stack : ℕ → ℕ) (fuel : ℕ) where
  unfoldable pub list_directory : Session card.Disk → Option (ℕ → ℕ) → Outcome (List Row)
  list_directory s name = do
    target ← name_parse card stack s.fs s.cwd name
    elim target [
      | none ↦ ok []
      | some n ↦ list_rows (s.fs.nodes n).entry_num 0 s.fs.nodes (read_block card stack s.fs n)
    ]

  unfoldable pub do_ls : Option (ℕ → ℕ) → Session card.Disk → Outcome (List Row)
  do_ls none s = list_directory s none
  do_ls (some name) s = do name ← name_str_standrize fuel name; list_directory s (some name)

  unfoldable pub cat_inode : Session card.Disk → ℕ → List ℕ
  cat_inode s n =
      let sz = (s.fs.nodes n).size in
      if not ((s.fs.nodes n).type == file)
      then []
      else bytes_from (if ltb sz block_size then sz else block_size) 0
          (read_block card stack s.fs n)

  -- Only the first block of a file is printed.
  unfoldable pub do_cat : Option (ℕ → ℕ) → Session card.Disk → Outcome (List ℕ)
  do_cat none s = ok []
  do_cat (some name) s = do
    name ← name_str_standrize fuel name
    target ← name_parse card stack s.fs s.cwd (some name)
    elim target [ none ↦ ok [] | some n ↦ ok (cat_inode s n) ]

  -- A name that leads nowhere is touched, and looked up again.
  unfoldable pub open_target :
      Session card.Disk → (ℕ → ℕ) → Option ℕ → Outcome (ℕ × Session card.Disk)
  open_target s name (some n) = ok (n, s)
  open_target s name none = do
    s ← do_touch card now stack fuel (some name) s
    target ← name_parse card stack s.fs s.cwd (some name)
    n ← follow target
    ok (n, s)

  unfoldable pub open_inode : (access n : ℕ) → Session card.Disk → Session card.Disk
  open_inode access n s =
      if (s.fs.nodes n).type == dir
      then s
      else if (s.fs.nodes n).type == file
      then record s {
        fs = record (s.fs) { fd = record { pos = 0; node = n; file_access = access } };
      }
      else s

  unfoldable pub do_fopen : Option (ℕ → ℕ) → ℕ → Session card.Disk → Outcome (Session card.Disk)
  do_fopen none access s = ok s
  do_fopen (some name) access s = do
    name ← name_str_standrize fuel name
    target ← name_parse card stack s.fs s.cwd (some name)
    r ← open_target s name target
    ok (open_inode access r.0 r.1)
