-- ===== src/Fs/Find.antt =====
-- `do_find` of kernel/fs/fs.c. What it prints is its result: the inodes of the directories whose paths
-- `print_absolute_path` prints, in that order, one for each file of the name. The recursion over
-- directories takes fuel, and a directory with more than 100 directories overflows `sub_dir`.
use mips_os.Common.{ℕ, zero, suc, ◌+◌, ◌-◌, ◌*◌, true, false, some}
use mips_os.Common.{List, [], ◌∷◌, ◌++◌, ltb, ◌==◌, if◌then◌else◌}
use mips_os.Common.{Outcome, ok, fault, hang, ◌>>=◌}
use mips_os.Fs.{Fs, block_size, file, dir}
use mips_os.Fs.Card.{Card}
use mips_os.Fs.Remove.{word_at, entry_inode}
use mips_os.Fs.Path.{name_at, read_block, same_name, check_inode, name_parse}
use mips_os.Fs.Directory.{Session, name_str_standrize, follow}

abbrev sub_dir_size : ℕ
sub_dir_size = 100

-- The loop over the entries from `i`: the directories, and one `path` for each file of the name.
unfoldable pub find_entries :
    (left i sub_dir_num path : ℕ) → (name buf : ℕ → ℕ) → Outcome (List ℕ × List ℕ)
find_entries zero i sub_dir_num path name buf = ok ([], [])
find_entries (suc left) i sub_dir_num path name buf = elim (ltb i 128) [
  | false ↦ fault
  | true ↦ elim (word_at buf (32 * i) == dir) [
    | true ↦ elim (ltb sub_dir_num sub_dir_size) [
      | false ↦ fault
      | true ↦ do
        r ← find_entries left (i + 1) (sub_dir_num + 1) path name buf
        ok (entry_inode buf i ∷ r.0, r.1)
    ]
    | false ↦ elim (word_at buf (32 * i) == file) [
      | true ↦ do
        same ← same_name (suc block_size) name 0 buf (name_at i)
        r ← find_entries left (i + 1) sub_dir_num path name buf
        ok (r.0, if same then path ∷ r.1 else r.1)
      | false ↦ find_entries left (i + 1) sub_dir_num path name buf
    ]
  ]
]

-- The loop over `sub_dir`, with `rec` for the recursive call.
unfoldable pub find_sub_dirs : (ℕ → Outcome (List ℕ)) → List ℕ → Outcome (List ℕ)
find_sub_dirs rec [] = ok []
find_sub_dirs rec (m ∷ ms) = do
  n ← check_inode m
  printed ← rec n
  rest ← find_sub_dirs rec ms
  ok (printed ++ rest)

module _ (card : Card) (stack : ℕ → ℕ) where
  unfoldable pub find_recurse : ℕ → Fs card.Disk → (path : ℕ) → (name : ℕ → ℕ) → Outcome (List ℕ)
  find_recurse zero fs path name = hang
  find_recurse (suc fuel) fs path name = do
    r ← find_entries ((fs.nodes path).entry_num - 2) 2 0 path name (read_block card stack fs path)
    rest ← find_sub_dirs (λ n. find_recurse fuel fs n name) r.0
    ok (r.1 ++ rest)

  unfoldable pub do_find : ℕ → (path name : ℕ → ℕ) → Session card.Disk → Outcome (List ℕ)
  do_find fuel path name s = do
    path ← name_str_standrize fuel path
    target ← name_parse card stack s.fs s.cwd (some path)
    n ← follow target
    if (s.fs.nodes n).type == file then ok [] else find_recurse fuel s.fs n name
