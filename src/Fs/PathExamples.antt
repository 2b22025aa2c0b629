-- ===== src/Fs/PathExamples.antt =====
-- The theorems on paths and directories of kernel/fs/fs.c at a small volume.
use mips_os.Common.{ℕ, ◌≡◌, refl, subst}
use mips_os.Common.{◌≢◌, true, some}
use mips_os.Common.{[], ◌∷◌, arith}
use mips_os.Common.{ok, fault, hang, ◌>>=◌, Ends}
use mips_os.Common.{Ends}
use mips_os.Text.Walk.{IsString}
use mips_os.Fs.{mkfs_super_block}
use mips_os.Fs.Card.{array_card, do_fs_read}
use mips_os.Fs.Bitmap.{is_set}
use mips_os.Common.Bits.{test_bit}
use mips_os.Fs.Path.{same_name, check_inode, read_block, follow_link, name_parse}
use mips_os.Fs.Path.Resolve.{Shows, resolve, name_parse-resolve}
use mips_os.Fs.Path.Returns.{name_parse_returns}
use mips_os.Fs.Directory.{Session, do_touch, do_mkdir, do_rename}
use mips_os.Fs.Directory.Touch.{Touched, do_touch-Touched, do_touch-name_parse}
use mips_os.Fs.Directory.Mkdir.{MadeDir, do_mkdir-MadeDir}
use mips_os.Fs.Unlink.{remove_from_parent}
use mips_os.Fs.Unlink.Levels.{remove_from_parent-plain, remove_from_parent-two_levels}
use mips_os.Fs.Unlink.Rename.{do_rename-renamed}
use mips_os.Fs.Change.{do_cd}
use mips_os.Fs.Change.Up.{cd_and_back, do_cd_root_faults}
use mips_os.Fs.Open.{do_fopen}
use mips_os.Fs.Find.{find_entries, find_sub_dirs, find_recurse}
use mips_os.Fs.Open.New.{Opened, do_fopen-new}
use mips_os.Fs.Volume.{
  text, zeros, table, at_root, root_entries, child_entries, contents, root-Shows, child-Shows,
  at_root-IsReady, inode_free, block_free,
}

some-injective : (a b : ℕ) → some a ≡ some b → a ≡ b
some-injective a b e = ground arith

-- "/d/.." from the directory "d".
name_parse-resolve_example :
    name_parse array_card zeros at_root.fs 1 (some (text (47 ∷ 100 ∷ 47 ∷ 46 ∷ 46 ∷ [])))
    ≡ follow_link table (resolve contents 0 (100 ∷ []) ((46 ∷ 46 ∷ []) ∷ []))
name_parse-resolve_example =
    name_parse-resolve array_card zeros contents at_root.fs 1 (text (47 ∷ 100 ∷ 47 ∷ 46 ∷ 46 ∷ []))
      true (100 ∷ []) ((46 ∷ 46 ∷ []) ∷ [])
      (
        root-Shows,
        λ n e.
            subst (λ m. Shows array_card zeros at_root.fs m (contents m)) (some-injective 1 n e)
              child-Shows,
      )
      (
        refl,
        omega arith,
        omega arith,
        (
          refl,
          omega arith,
          omega arith,
          (
            refl,
            omega arith,
            omega arith,
            (refl, omega arith, omega arith, (refl, omega arith, omega arith, refl)),
          ),
        ),
      )
      (refl, refl) (λ e. absurd cc) (omega arith)

name_parse_returns_example :
    name_parse array_card zeros at_root.fs 0 (some (text (100 ∷ 47 ∷ 102 ∷ []))) ≢ hang
name_parse_returns_example =
    name_parse_returns array_card zeros at_root.fs 0 (some (text (100 ∷ 47 ∷ 102 ∷ [])))

do_touch-Touched_example :
    Ends
      (λ new.
        Touched array_card zeros zeros at_root.fs 0 root_entries (120 ∷ []) 3 new.fs
        × (new.cwd ≡ 0))
      (do_touch array_card zeros zeros 9 (some (text (120 ∷ []))) at_root)
do_touch-Touched_example =
    do_touch-Touched array_card zeros zeros 9 at_root 3 root_entries (text (120 ∷ [])) (120 ∷ [])
      at_root-IsReady inode_free (refl, omega arith, omega arith, refl) refl (omega arith)
      (omega arith) (omega arith)

do_touch-name_parse_example :
    Ends
      (λ new. name_parse array_card zeros new.fs new.cwd (some (text (120 ∷ []))) ≡ ok (some 3))
      (do_touch array_card zeros zeros 9 (some (text (120 ∷ []))) at_root)
do_touch-name_parse_example =
    do_touch-name_parse array_card zeros zeros 9 at_root 3 root_entries (text (120 ∷ [])) (120 ∷ [])
      at_root-IsReady inode_free refl (refl, omega arith, omega arith, refl) refl (omega arith)
      (omega arith) (omega arith)

do_mkdir-MadeDir_example :
    Ends
      (λ new. MadeDir array_card zeros zeros 0 root_entries (120 ∷ []) 3 new.fs)
      (do_mkdir array_card zeros zeros 9 (some (text (120 ∷ []))) at_root)
unfolding is_set test_bit mkfs_super_block
do_mkdir-MadeDir_example =
    do_mkdir-MadeDir array_card zeros zeros 9 at_root 3 2 0 root_entries (text (120 ∷ []))
      (120 ∷ []) at_root-IsReady inode_free block_free refl refl
      (refl, omega arith, omega arith, refl) refl (omega arith) (omega arith) (omega arith)

remove_from_parent-plain_example :
    Ends
      (λ new.
        Shows array_card zeros new.fs 0 ((46 ∷ [], 0) ∷ (46 ∷ 46 ∷ [], 0) ∷ (100 ∷ [], 1) ∷ [])
        × (new.cwd ≡ 0))
      (remove_from_parent array_card zeros zeros 9 at_root (text (102 ∷ [])))
unfolding mkfs_super_block
remove_from_parent-plain_example =
    remove_from_parent-plain array_card zeros zeros 9 at_root (46 ∷ [], 0) (46 ∷ 46 ∷ [], 0)
      ((100 ∷ [], 1) ∷ (102 ∷ [], 2) ∷ []) (text (102 ∷ [])) (102 ∷ []) 3
      (record { volume = refl; in_data = omega arith; shows = root-Shows })
      (refl, omega arith, omega arith, refl) refl (omega arith) (omega arith) refl

-- `rm d/q` takes the file "f" away.
remove_from_parent-two_levels_example :
    Ends
      (λ new.
        Shows array_card zeros new.fs 0 ((46 ∷ [], 0) ∷ (46 ∷ 46 ∷ [], 0) ∷ (100 ∷ [], 1) ∷ []))
      (remove_from_parent array_card zeros zeros 9 at_root (text (100 ∷ 47 ∷ 113 ∷ [])))
unfolding mkfs_super_block
remove_from_parent-two_levels_example =
    remove_from_parent-two_levels array_card zeros zeros 9 at_root (46 ∷ [], 0) (46 ∷ 46 ∷ [], 0)
      (102 ∷ [], 2) ((100 ∷ [], 1) ∷ []) (text (100 ∷ 47 ∷ 113 ∷ [])) (100 ∷ []) (113 ∷ [])
      (record { volume = refl; in_data = omega arith; shows = root-Shows }) (refl, (refl, tt))
      (
        refl,
        omega arith,
        omega arith,
        (refl, omega arith, omega arith, (refl, omega arith, omega arith, refl)),
      )
      refl refl (omega arith) (omega arith) (omega arith)

cd_and_back_example :
    Ends
      (λ (new : Session (ℕ → ℕ)).
        (new.cwd ≡ 0) × (new.fs ≡ at_root.fs) × IsString new.cwd_str 0 (47 ∷ []))
      (do
        mid ← do_cd array_card zeros 9 (some (text (100 ∷ []))) at_root
        do_cd array_card zeros 9 (some (text (46 ∷ 46 ∷ []))) mid)
unfolding follow_link
cd_and_back_example =
    cd_and_back array_card zeros 9 at_root (text (100 ∷ [])) (text (46 ∷ 46 ∷ [])) 1 (100 ∷ []) []
      root_entries child_entries root-Shows refl refl child-Shows refl refl
      (refl, omega arith, omega arith, refl) refl (omega arith) (omega arith) refl refl
      (refl, omega arith, omega arith, (refl, omega arith, omega arith, refl)) (omega arith)
      (refl, omega arith, omega arith, refl) (omega arith)

do_cd_root_faults_example : do_cd array_card zeros 9 (some (text (46 ∷ 46 ∷ []))) at_root ≡ fault
unfolding follow_link
do_cd_root_faults_example =
    do_cd_root_faults array_card zeros 9 at_root (text (46 ∷ 46 ∷ [])) 0 root_entries root-Shows
      refl refl (refl, omega arith, omega arith, (refl, omega arith, omega arith, refl))
      (omega arith) (refl, omega arith, omega arith, refl)

do_fopen-new_example :
    Ends
      (Opened array_card zeros zeros 0 3 3)
      (do_fopen array_card zeros zeros 9 (some (text (120 ∷ []))) 3 at_root)
do_fopen-new_example =
    do_fopen-new array_card zeros zeros 9 at_root 3 3 root_entries (text (120 ∷ [])) (120 ∷ [])
      at_root-IsReady inode_free refl (refl, omega arith, omega arith, refl) refl (omega arith)
      (omega arith) (omega arith)

-- The file "f" becomes "x".
do_rename-renamed_example :
    Ends
      (λ new.
        Shows array_card zeros new.fs 0
          ((46 ∷ [], 0) ∷ (46 ∷ 46 ∷ [], 0) ∷ (100 ∷ [], 1) ∷ (120 ∷ [], 2) ∷ [])
        × (new.cwd ≡ 0))
      (do_rename array_card zeros zeros 9 (text (102 ∷ [])) (text (120 ∷ [])) at_root)
unfolding mkfs_super_block
do_rename-renamed_example =
    do_rename-renamed array_card zeros zeros 9 at_root (46 ∷ [], 0) (46 ∷ 46 ∷ [], 0)
      ((100 ∷ [], 1) ∷ (102 ∷ [], 2) ∷ []) (text (102 ∷ [])) (text (120 ∷ [])) (102 ∷ []) (120 ∷ [])
      3 root-Shows (omega arith) (refl, omega arith, omega arith, refl) refl (omega arith)
      (omega arith) (omega arith) (refl, omega arith, omega arith, refl) refl (omega arith)
      (omega arith) (omega arith) refl

-- From the root, the file "f" is found in the root.
find_recurse_test : find_recurse array_card zeros 9 at_root.fs 0 (text (102 ∷ [])) ≡ ok (0 ∷ [])
unfolding find_recurse find_entries find_sub_dirs same_name check_inode read_block do_fs_read
find_recurse_test = refl
