-- ===== src/Fs/Directory/Mkdir.antt =====
-- What `do_mkdir` of kernel/fs/fs.c does: a new directory with "." and "..", and its entry in the working
-- directory.
use mips_os.Common.{ℕ, ◌+◌, ◌*◌, ◌≤◌, ◌<◌, ◌≡◌, refl, sym, ap, ◌∙◌, subst}
use mips_os.Common.{◌≢◌, true, false, some}
use mips_os.Common.{List, [], ◌∷◌, ◌++◌, arith, leb, update}
use mips_os.Common.{update_self, update_other}
use mips_os.Common.{ok, ◌>>=◌, Ends, Ends-bind, length, length-append, has}
use mips_os.Common.{Ends, Ends-bind, update_self, update_other}
use mips_os.Text.Walk.{IsString}
use mips_os.Fs.{Inode, Fs, mkfs_super_block, dir, data_block_bit_map_size, inode_bit_map_size}
use mips_os.Fs.Card.{Card}
use mips_os.Fs.Bitmap.{is_set, find_first_zero_bit, find_first_zero_bit-FirstZero, FirstZero}
use mips_os.Fs.Inodes.{allocate_inode}
use mips_os.Fs.Inodes.Frame.{Spares}
use mips_os.Fs.Path.{read_block}
use mips_os.Fs.Path.Resolve.{Directory, Shows}
use mips_os.Fs.Directory.{
  follow, Session, write_entry, write_block, more_entries, mkdir_block, do_mkdir,
}
use mips_os.Fs.Directory.Entry.{HasEntry, write_entry-HasEntry, Lists-frame, HasEntry-Lists}
use mips_os.Fs.Directory.Spelling.{name_str_standrize-IsString}
use mips_os.Fs.Directory.Stored.{read_block-write_block, IsReady}
use mips_os.Fs.Directory.NewBlock.{fresh_entries, IsEntered, mkdir_block_lem}

module _ (card : Card) (now stack : ℕ → ℕ) where
  -- The new directory, with its two entries, and its entry in `cwd`.
  abbrev pub MadeDir : ℕ → Directory → List ℕ → ℕ → Fs card.Disk → Type 0
  MadeDir cwd es xs k new =
      Shows card stack new cwd (es ++ (xs, k) ∷ [])
      × Shows card stack new k (fresh_entries k cwd)
      × ((new.nodes k).type ≡ 2)
      × ((new.nodes k).link_cnt ≡ 1)

  entered :
      (fuel : ℕ) (fs mid : Fs card.Disk) (cwd k c : ℕ) (es : Directory) (xs : List ℕ) (buf : ℕ → ℕ)
      → IsReady card now stack fs cwd es
      → mid.super_block ≡ mkfs_super_block
      → mid.nodes cwd ≡ more_entries (fs.nodes cwd)
      → (fs.nodes cwd).direct 0 ≡ mkfs_super_block.data_start + c * 4096
      → k < 8192
      → length xs < 24
      → HasEntry (read_block card stack fs cwd) (length es) 2 k xs buf
      → IsEntered card now stack
          (write_block card now stack fuel mid cwd buf)
          cwd
          c
          (es ++ (xs, k) ∷ [])
  unfolding write_block
  entered fuel fs mid cwd k c es xs buf ready volume node at small short entry =
      let long = length-append es ((xs, k) ∷ []) in
      let same : Spares card (λ a. mkfs_super_block.data_start ≤ a)
          (write_block card now stack fuel mid cwd buf)
          (write_block card now stack fuel mid cwd buf) =
        record { nodes = refl; fd = refl; super_block = refl; card_same = λ a h. refl } in
      record {
        volume = volume;
        count_is =
            ap (λ (ind : Inode). ind.entry_num) node
            ∙ omega (arith, ready.shows.0, ready.room, long);
        few = omega (arith, ready.room, long);
        block_is = ap (λ (ind : Inode). ind.direct 0) node ∙ at;
        lists =
            Lists-frame buf _ 0 (es ++ (xs, k) ∷ [])
              (HasEntry-Lists (read_block card stack fs cwd) buf 2 k xs es entry short small
                ready.shows.2)
              (λ a lt.
                read_block-write_block card now stack fuel mid
                  (write_block card now stack fuel mid cwd buf) cwd buf same
                  (subst (λ (ind : Inode). mkfs_super_block.data_start ≤ ind.direct 0) (sym node)
                    ready.in_data)
                  a (omega (arith, ready.room, long)));
      }

  finished :
      (fuel : ℕ) (s : Session card.Disk) (mid : Fs card.Disk) (buf : ℕ → ℕ) (k b c : ℕ)
      (es : Directory)
      → IsEntered card now stack (write_block card now stack fuel mid s.cwd buf) s.cwd c es
      → s.cwd < 8192
      → k < 8192
      → s.cwd ≢ k
      → find_first_zero_bit mid.block_bit_map 32768 ≡ ok b
      → is_set mid.block_bit_map b ≡ false
      → b < 262144
      → b ≢ c
      → Ends
          (λ (new : Session card.Disk).
            Shows card stack new.fs s.cwd es
            × Shows card stack new.fs k (fresh_entries k s.cwd)
            × ((new.fs.nodes k).type ≡ 2)
            × ((new.fs.nodes k).link_cnt ≡ 1))
          (do
            b ←
                find_first_zero_bit
                  (write_block card now stack fuel mid s.cwd buf).block_bit_map
                  32768
            n ← follow (some k)
            fs ←
                mkdir_block card now stack fuel
                  (write_block card now stack fuel mid s.cwd buf)
                  s.cwd
                  n
                  b
            ok (record s { fs = fs }))
  unfolding follow write_block
  finished fuel s mid buf k b c es in_cwd small small' ne found clear low other = rw found (
      Ends-bind _ _
        (mkdir_block card now stack fuel (write_block card now stack fuel mid s.cwd buf) s.cwd k b)
        _
        (mkdir_block_lem card now stack fuel (write_block card now stack fuel mid s.cwd buf) s.cwd k
          b c es in_cwd small small' ne low clear other)
        λ new made. made)

  -- Making a directory with a new name ends well, where both maps have a clear bit, `k` and `b`: the
  -- working directory has one more entry, at its end, with that name, for the inode `k`, a directory
  -- with one link whose two entries are "." for itself and ".." for the working directory. The volume
  -- is one of `do_mkfs`; the directory has room, and its block, `c`, is in use; the name has 1 to 23
  -- characters and no slash.
  pub do_mkdir-MadeDir :
      (fuel : ℕ) (s : Session card.Disk) (k b c : ℕ) (es : Directory) (name : ℕ → ℕ) (xs : List ℕ)
      → IsReady card now stack s.fs s.cwd es
      → find_first_zero_bit s.fs.inode_bit_map inode_bit_map_size ≡ ok k
      → find_first_zero_bit s.fs.block_bit_map data_block_bit_map_size ≡ ok b
      → (s.fs.nodes s.cwd).direct 0 ≡ mkfs_super_block.data_start + c * 4096
      → is_set s.fs.block_bit_map c ≡ true
      → IsString name 0 xs
      → has 47 xs ≡ false
      → 0 < length xs
      → length xs < 24
      → length xs < fuel
      → Ends (λ new. MadeDir s.cwd es xs k new.fs) (do_mkdir card now stack fuel (some name) s)
  unfolding do_mkdir allocate_inode follow
  do_mkdir-MadeDir fuel s k b c es name xs ready found found' at used h plain long short enough =
      let free =
        subst (FirstZero s.fs.inode_bit_map 0 8192) found
          (find_first_zero_bit-FirstZero s.fs.inode_bit_map 1024) in
      let free' =
        subst (FirstZero s.fs.block_bit_map 0 262144) found'
          (find_first_zero_bit-FirstZero s.fs.block_bit_map 32768) in
      let big : leb 8192 k ≡ false = ground (arith, free.0) in
      let ne : s.cwd ≢ k = λ same.
        absurd (ground (arith, ready.in_use, free.1, ap (is_set s.fs.inode_bit_map) same)) in
      let other : b ≢ c =
        λ same. absurd (ground (arith, used, free'.1, ap (is_set s.fs.block_bit_map) same)) in
      rw (name_str_standrize-IsString fuel name xs h plain long enough, found, big, free.1)
        (Ends-bind (HasEntry (read_block card stack s.fs s.cwd) (length es) 2 k xs) _
          (write_entry fuel (read_block card stack s.fs s.cwd) (s.fs.nodes s.cwd).entry_num dir k
            name)
          _
          (subst
            (λ i.
              Ends (HasEntry (read_block card stack s.fs s.cwd) (length es) 2 k xs)
                (write_entry fuel (read_block card stack s.fs s.cwd) i 2 k name))
            (sym ready.shows.0)
            (write_entry-HasEntry fuel (read_block card stack s.fs s.cwd) (length es) 2 k name xs
              ready.room (omega arith) (omega (arith, free.0)) h short enough))
          λ buf entry.
            finished fuel s _ buf k b c (es ++ (xs, k) ∷ [])
              (entered fuel s.fs _ s.cwd k c es xs buf ready ready.volume
                (update_other (update s.fs.nodes s.cwd (more_entries (s.fs.nodes s.cwd))) k _ s.cwd
                    ne
                  ∙ update_self s.fs.nodes s.cwd (more_entries (s.fs.nodes s.cwd)))
                at free.0 short entry)
              ready.in_table free.0 ne found' free'.1 free'.0 other)
