-- ===== src/Fs/Open/New.antt =====
-- What opening a name that leads nowhere does in kernel/fs/fs.c.
use mips_os.Common.{ℕ, ◌<◌, ◌≡◌, refl, sym, subst}
use mips_os.Common.{true, false, none, some}
use mips_os.Common.{List, [], arith}
use mips_os.Common.{Outcome, ok, fault, hang, Ends, Ends-bind, length, has}
use mips_os.Common.{Ends, Ends-bind}
use mips_os.Text.Walk.{IsString}
use mips_os.Fs.{inode_bit_map_size}
use mips_os.Fs.Card.{Card}
use mips_os.Fs.Bitmap.{find_first_zero_bit}
use mips_os.Fs.Path.{name_parse, follow_link}
use mips_os.Fs.Path.Resolve.{Directory, lookup, name_parse-resolve}
use mips_os.Fs.Directory.{Session, name_str_standrize, has_slash, follow, do_touch}
use mips_os.Fs.Directory.Spelling.{name_str_standrize-IsString}
use mips_os.Fs.Directory.Stored.{IsReady}
use mips_os.Fs.Directory.Touch.{do_touch-Touched, do_touch-name_parse}
use mips_os.Fs.Open.{open_target, open_inode, do_fopen}

both :
    {A : Type 0} (P Q : A → Type 0) (r : Outcome A) → Ends P r → Ends Q r → Ends (λ a. P a × Q a) r
both P Q (ok a) p q = (p, q)
both P Q fault p q = absurd p
both P Q hang p q = absurd p

module _ (card : Card) (now stack : ℕ → ℕ) where
  -- The descriptor after `open_inode`, for a file of size 0.
  abbrev pub Opened : (cwd access k : ℕ) → Session card.Disk → Type 0
  Opened cwd access k new =
      (new.fs.fd.node ≡ k)
      × (new.fs.fd.pos ≡ 0)
      × (new.fs.fd.file_access ≡ access)
      × ((new.fs.nodes k).size ≡ 0)
      × (new.cwd ≡ cwd)

  open_inode-file :
      (fuel access k cwd : ℕ) (s : Session card.Disk)
      → (s.fs.nodes k).type ≡ 1
      → (s.fs.nodes k).size ≡ 0
      → s.cwd ≡ cwd
      → Opened cwd access k (open_inode card now stack fuel access k s)
  unfolding open_inode
  open_inode-file fuel access k cwd s type size at = rw type (refl, refl, refl, size, at)

  -- Opening a new name in the working directory makes the file and opens it: the descriptor is at
  -- position 0 of the inode `k`, an empty file. The conditions are those of making the file.
  pub do_fopen-new :
      (fuel : ℕ) (s : Session card.Disk) (access k : ℕ) (es : Directory) (name : ℕ → ℕ)
      (xs : List ℕ)
      → IsReady card now stack s.fs s.cwd es
      → find_first_zero_bit s.fs.inode_bit_map inode_bit_map_size ≡ ok k
      → lookup es xs ≡ none
      → IsString name 0 xs
      → has 47 xs ≡ false
      → 0 < length xs
      → length xs < 24
      → length xs < fuel
      → Ends (Opened s.cwd access k) (do_fopen card now stack fuel (some name) access s)
  unfolding do_fopen open_target follow follow_link
  do_fopen-new fuel s access k es name xs ready found absent h plain long short enough =
      rw
        (
          name_str_standrize-IsString fuel name xs h plain long enough,
          name_parse-resolve card stack (λ _. es) s.fs s.cwd name false xs [] ready.shows h plain
              (λ _. long) (omega arith),
          absent,
        )
        (Ends-bind
          (λ (r : ℕ × Session card.Disk).
            (r.0 ≡ k)
            × ((r.1.fs.nodes k).type ≡ 1)
            × ((r.1.fs.nodes k).size ≡ 0)
            × (r.1.cwd ≡ s.cwd))
          _ _ _
          (Ends-bind _ _ (do_touch card now stack fuel (some name) s) _
            (both _ _ (do_touch card now stack fuel (some name) s)
              (do_touch-Touched card now stack fuel s k es name xs ready found h plain long short
                enough)
              (do_touch-name_parse card now stack fuel s k es name xs ready found absent h plain
                long short enough))
            λ new (t, is). rw is (refl, t.0.1, t.0.2, t.1))
          λ r (at, type, size, cwd).
            subst (λ n. Opened s.cwd access k (open_inode card now stack fuel access n r.1))
              (sym at) (open_inode-file fuel access k s.cwd r.1 type size cwd))

  -- Opening a path with a slash that leads nowhere goes through a NULL pointer: the file is not made,
  -- and the second look gives NULL again. No slash is at the end of the path.
  pub do_fopen_faults :
      (fuel : ℕ) (s : Session card.Disk) (access : ℕ) (name : ℕ → ℕ)
      → name_str_standrize fuel name ≡ ok name
      → has_slash fuel name 0 ≡ ok true
      → name_parse card stack s.fs s.cwd (some name) ≡ ok none
      → do_fopen card now stack fuel (some name) access s ≡ fault
  unfolding do_fopen open_target do_touch follow
  do_fopen_faults fuel s access name same slash absent = rw (same, absent, same, slash, absent) refl
