-- ===== src/Fs/Path/Resolve.antt =====
-- What `name_parse` of kernel/fs/fs.c is for: paths as lists of names, directories as lists of
-- entries, and the path looked up name by name.
use mips_os.Common.{ℕ, zero, suc, ◌+◌, ◌≤◌, ◌<◌, ◌≡◌, refl, sym, ap, ◌∙◌}
use mips_os.Common.{inl, inr, Bool, true, false, Option, none, some}
use mips_os.Common.{List, [], ◌∷◌, ◌++◌, arith, ◌==◌, if◌then◌else◌, update}
use mips_os.Common.{lt→ltb, Bool-cases}
use mips_os.Common.{Outcome, ok, fault, hang, ◌>>=◌, Ends, length, length-append, has}
use mips_os.Common.{Ends}
use mips_os.Text.Walk.{IsString, same_list}
use mips_os.Fs.{Fs}
use mips_os.Fs.Card.{Card}
use mips_os.Fs.Remove.{entry_inode}
use mips_os.Fs.Path.Names.{
  same_name-same_list, copy_name-IsString, component_end-last, component_end-slash, IsString-cut,
}
use mips_os.Fs.Path.{
  name_at, copy_name, search_entries, check_inode, step_into, enter_found, follow_link, read_block,
  parse_components, parse_path, name_parse,
}

-- A directory: the names of its entries with their inodes.
abbrev pub Directory : Type 0
Directory = List (List ℕ × ℕ)

-- The first entry of that name.
abbrev pub lookup : Directory → List ℕ → Option ℕ
lookup [] c = none
lookup (e ∷ es) c = if same_list c e.0 then some e.1 else lookup es c

-- The components `c` and `ds` looked up one after the other from the directory `target`.
abbrev pub resolve : (ℕ → Directory) → ℕ → List ℕ → List (List ℕ) → Option ℕ
resolve dirs target c [] = lookup (dirs target) c
resolve dirs target c (d ∷ ds) = elim (lookup (dirs target) c) [
  | none ↦ none
  | some n ↦ resolve dirs n d ds
]

-- The string of a path with these components.
abbrev pub spell : List ℕ → List (List ℕ) → List ℕ
spell c [] = c
spell c (d ∷ ds) = c ++ 47 ∷ spell d ds

-- No component has a slash in it.
abbrev pub NoSlash : List ℕ → List (List ℕ) → Type 0
NoSlash c [] = has 47 c ≡ false
NoSlash c (d ∷ ds) = (has 47 c ≡ false) × NoSlash d ds

-- A path as it is written, and the directory that it starts from.
abbrev pub written : Bool → List ℕ → List (List ℕ) → List ℕ
written true c ds = 47 ∷ spell c ds
written false c ds = spell c ds

abbrev pub start : Bool → ℕ → ℕ
start absolute cwd = if absolute then 0 else cwd

length-spell : (c : List ℕ) (ds : List (List ℕ)) → length ds ≤ length (spell c ds)
length-spell c [] = omega arith
length-spell c (d ∷ ds) = omega (arith, length-append c (47 ∷ spell d ds), length-spell d ds)

pub first_char :
    (name : ℕ → ℕ) (c : List ℕ) (ds : List (List ℕ))
    → IsString name 0 (spell c ds)
    → NoSlash c ds
    → 0 < length c
    → (name 0 == 47) ≡ false
first_char name [] ds h plain long = absurd (omega arith)
first_char name (x ∷ xs) [] h plain long = ground arith
first_char name (x ∷ xs) (d ∷ ds) h plain long = ground arith

-- The block `buf` has the entries of `es`, from index `i` on.
abbrev pub Lists : (ℕ → ℕ) → ℕ → Directory → Type 0
Lists buf i [] = Unit
Lists buf i (e ∷ es) =
    IsString buf (name_at i) e.0
    × (length e.0 < 24)
    × (entry_inode buf i ≡ e.1)
    × (e.1 < 8192)
    × Lists buf (i + 1) es

-- The result of the search, against the result of the lookup.
abbrev pub Found : (ℕ → ℕ) → Option ℕ → Option ℕ → Type 0
Found buf none o = o ≡ none
Found buf (some i) o = (o ≡ some (entry_inode buf i)) × (entry_inode buf i < 8192)

search_entries-lookup :
    (es : Directory) (name : ℕ → ℕ) (pos : ℕ) (buf : ℕ → ℕ) (i : ℕ) (c : List ℕ)
    → IsString name pos c
    → length c < 240
    → Lists buf i es
    → i + length es ≤ 128
    → Ends (λ f. Found buf f (lookup es c)) (search_entries (length es) name pos buf i)
unfolding search_entries
search_entries-lookup [] name pos buf i c h small l inside = refl
search_entries-lookup (e ∷ es) name pos buf i c h small (s, short, at, low, l) inside =
    rw
      (
        same_name-same_list 4097 name pos buf (name_at i) c e.0 h s (omega arith) (omega arith),
        search_entries,
      )
      (elim (Bool-cases (same_list c e.0)) [
        | inl same ↦ rw same (ap some (sym at), omega (arith, at))
        | inr other ↦
            rw other (search_entries-lookup es name pos buf (i + 1) c h small l (omega arith))
      ])

-- A run that ends well, and what follows it.
pub through :
    {A B : Type 0} (r : Outcome A) (P : A → Type 0) (f : A → Outcome B) {b : Outcome B}
    → Ends P r
    → ((a : A) → P a → f a ≡ b)
    → (r >>= f) ≡ b
through (ok a) P f p h = h a p
through fault P f p h = absurd p
through hang P f p h = absurd p

-- The result of `parse_components` after a component that is not the last.
module _ (card : Card) (stack : ℕ → ℕ) where
  -- The inode `n` is a directory with the entries `es`: the number of entries and its block say so.
  abbrev pub Shows : Fs card.Disk → ℕ → Directory → Type 0
  Shows fs n es =
      ((fs.nodes n).entry_num ≡ length es)
      × (length es ≤ 128)
      × Lists (read_block card stack fs n) 0 es

  -- Each directory that the path leads through has the entries that `dirs` says.
  abbrev pub Walkable : Fs card.Disk → (ℕ → Directory) → ℕ → List ℕ → List (List ℕ) → Type 0
  Walkable fs dirs target c [] = Shows fs target (dirs target)
  Walkable fs dirs target c (d ∷ ds) =
      Shows fs target (dirs target)
      × ((n : ℕ) → lookup (dirs target) c ≡ some n → Walkable fs dirs n d ds)

  Found-last :
      (rec : ℕ → Outcome (Option ℕ)) (buf : ℕ → ℕ) (f o : Option ℕ)
      → Found buf f o
      → enter_found rec true buf f ≡ ok o
  unfolding enter_found check_inode step_into
  Found-last rec buf none o e = ap ok (sym e)
  Found-last rec buf (some i) o (e, small) =
      rw (lt→ltb (entry_inode buf i) 8192 small) (ap ok (sym e))

  Found-more :
      (rec : ℕ → Outcome (Option ℕ)) (buf : ℕ → ℕ) (f o : Option ℕ) (goal : ℕ → Option ℕ)
      → Found buf f o
      → ((n : ℕ) → o ≡ some n → rec n ≡ ok (goal n))
      → enter_found rec false buf f ≡ ok (elim o [ none ↦ none | some n ↦ goal n ])
  unfolding enter_found check_inode step_into
  Found-more rec buf none o goal e h = rw e refl
  Found-more rec buf (some i) o goal (e, small) h =
      rw (lt→ltb (entry_inode buf i) 8192 small) (h (entry_inode buf i) e ∙ rw e refl)

  pub searched :
      (fs : Fs card.Disk) (name : ℕ → ℕ) (pos target : ℕ) (c : List ℕ) (es : Directory)
      → Shows fs target es
      → IsString name pos c
      → length c < 240
      → Ends
          (λ f. Found (read_block card stack fs target) f (lookup es c))
          (search_entries (fs.nodes target).entry_num name pos (read_block card stack fs target) 0)
  searched fs name pos target c es (count, few, l) h small = rw count (
      search_entries-lookup es name pos (read_block card stack fs target) 0 c h small l
        (omega arith))

  parse_components-resolve :
      (dirs : ℕ → Directory) (fs : Fs card.Disk) (fuel : ℕ) (name : ℕ → ℕ) (pos target : ℕ)
      (c : List ℕ) (ds : List (List ℕ))
      → Walkable fs dirs target c ds
      → IsString name pos (spell c ds)
      → NoSlash c ds
      → pos + length (spell c ds) < 240
      → length ds < fuel
      → parse_components card stack fuel fs name pos target ≡ ok (resolve dirs target c ds)
  unfolding parse_components
  parse_components-resolve dirs fs zero name pos target c ds w h plain inside small =
      absurd (omega arith)
  parse_components-resolve dirs fs (suc fuel) name pos target c [] w h plain inside small =
      rw (component_end-last 241 name pos c h plain (omega arith) (omega arith)) (
        through
          (search_entries (fs.nodes target).entry_num name pos (read_block card stack fs target) 0)
          _ _ (searched fs name pos target c (dirs target) w h (omega arith))
          λ f found.
            Found-last _ (read_block card stack fs target) f (lookup (dirs target) c) found)
  parse_components-resolve dirs fs (suc fuel) name pos target c (d ∷ ds) w h plain inside small =
      let long = length-append c (47 ∷ spell d ds) in
      let cut = IsString-cut name pos (pos + length c) c (spell d ds) refl h in
      rw
        (component_end-slash 241 name pos c (spell d ds) h plain.0 (omega (arith, long))
          (omega (arith, long)))
        (through
          (search_entries (fs.nodes target).entry_num (update name (pos + length c) 0) pos
            (read_block card stack fs target) 0)
          _ _
          (searched fs (update name (pos + length c) 0) pos target c (dirs target) w.0 cut.0
            (omega (arith, long)))
          λ f found.
            Found-more _ (read_block card stack fs target) f (lookup (dirs target) c)
              (λ n. resolve dirs n d ds) found
              λ n is.
                parse_components-resolve dirs fs fuel (update name (pos + length c) 0)
                  (pos + length c + 1) n d ds (w.1 n is) cut.1 plain.1 (omega (arith, long))
                  (omega arith))

  parse_path-resolve :
      (dirs : ℕ → Directory) (fs : Fs card.Disk) (cwd : ℕ) (name : ℕ → ℕ) (absolute : Bool)
      (c : List ℕ) (ds : List (List ℕ))
      → Walkable fs dirs (start absolute cwd) c ds
      → IsString name 0 (written absolute c ds)
      → NoSlash c ds
      → (absolute ≡ false → 0 < length c)
      → length (written absolute c ds) < 240
      → parse_path card stack fs cwd name ≡ ok (resolve dirs (start absolute cwd) c ds)
  unfolding parse_path
  parse_path-resolve dirs fs cwd name true c ds w (e, low, high, h) plain some_name small =
      let slash : (name 0 == 47) ≡ true = ground arith in
      rw slash (
        parse_components-resolve dirs fs 241 name 1 0 c ds w h plain (omega arith)
          (omega (arith, length-spell c ds)))
  parse_path-resolve dirs fs cwd name false c ds w h plain some_name small =
      let other = first_char name c ds h plain (some_name refl) in
      rw other (
        parse_components-resolve dirs fs 241 name 0 cwd c ds w h plain (omega arith)
          (omega (arith, length-spell c ds)))

  -- A path of at most 239 characters leads from the root, or from `cwd` when it does not begin with a
  -- slash, along its components, each looked up among the entries of the directory before it, and a
  -- soft link at the end is followed. A component that is missing gives NULL.
  pub name_parse-resolve :
      (dirs : ℕ → Directory) (fs : Fs card.Disk) (cwd : ℕ) (path : ℕ → ℕ) (absolute : Bool)
      (c : List ℕ) (ds : List (List ℕ))
      → Walkable fs dirs (start absolute cwd) c ds
      → IsString path 0 (written absolute c ds)
      → NoSlash c ds
      → (absolute ≡ false → 0 < length c)
      → length (written absolute c ds) < 240
      → name_parse card stack fs cwd (some path)
        ≡ follow_link fs.nodes (resolve dirs (start absolute cwd) c ds)
  unfolding name_parse
  name_parse-resolve dirs fs cwd path absolute c ds w h plain some_name small =
      through (copy_name 241 240 stack 0 path 0) _ _
        (copy_name-IsString 241 240 stack 0 path 0 (written absolute c ds) h (omega arith)
          (omega arith))
        λ name copied.
          rw (parse_path-resolve dirs fs cwd name absolute c ds w copied.0 plain some_name small)
            refl
