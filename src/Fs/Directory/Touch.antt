-- ===== src/Fs/Directory/Touch.antt =====
-- What `do_touch` of kernel/fs/fs.c does to the list of entries of the working directory.
use mips_os.Common.{ℕ, ◌/◌, ◌≤◌, ◌<◌, ◌≡◌, refl, sym, ap, ◌∙◌, subst}
use mips_os.Common.{◌≢◌, true, false, none, some}
use mips_os.Common.{List, [], ◌∷◌, ◌++◌, arith, leb, update}
use mips_os.Common.{lt→ltb, update_self, update_other}
use mips_os.Common.{ok, ◌>>=◌, Ends, Ends-bind, length, has}
use mips_os.Common.{Ends, Ends-bind, Ends-map, update_self, update_other}
use mips_os.Text.Walk.{IsString}
use mips_os.Fs.{Inode, Fs, mkfs_super_block, file, inode_bit_map_size}
use mips_os.Fs.Card.{Card}
use mips_os.Fs.Bitmap.{is_set, find_first_zero_bit, find_first_zero_bit-FirstZero, FirstZero}
use mips_os.Fs.Inodes.{allocate_inode, mark_inode_dirty, update_inode, update_bit_map}
use mips_os.Fs.Path.{read_block}
use mips_os.Fs.Path.Resolve.{Directory, lookup, Shows}
use mips_os.Fs.Directory.{
  follow, Session, write_entry, write_block, more_entries, set_node, touch_entry, do_touch,
}
use mips_os.Fs.Directory.Entry.{HasEntry, write_entry-HasEntry}
use mips_os.Fs.Directory.Spelling.{name_str_standrize-IsString, has_slash-IsString}
use mips_os.Fs.Directory.Stored.{lookup-append, IsReady, Shows-same, stored_nodes, grown}
use mips_os.Fs.Path.{name_parse, follow_link}
use mips_os.Fs.Path.Resolve.{name_parse-resolve}

follow_link-file :
    (nodes : ℕ → Inode) (k : ℕ) → (nodes k).type ≡ 1 → follow_link nodes (some k) ≡ ok (some k)
unfolding follow_link
follow_link-file nodes k e = rw e refl

module _ (card : Card) (now stack : ℕ → ℕ) where
  -- The directory `cwd` has the new entry at its end, for the inode `k`, which is an empty file with
  -- one link, and the other inodes are as they were.
  abbrev pub Touched : Fs card.Disk → ℕ → Directory → List ℕ → ℕ → Fs card.Disk → Type 0
  Touched fs cwd es xs k new =
      Shows card stack new cwd (es ++ (xs, k) ∷ [])
      × ((new.nodes k).type ≡ 1)
      × ((new.nodes k).size ≡ 0)
      × ((new.nodes k).link_cnt ≡ 1)
      × ((j : ℕ) → j ≢ k → j ≢ cwd → new.nodes j ≡ fs.nodes j)

  -- `new` is `fs` with an empty file made of the inode `k`.
  record IsMade (fs : Fs card.Disk) (k : ℕ) (new : Fs card.Disk) : Type 0 where
    disk_same : new.disk ≡ fs.disk
    super_same : new.super_block ≡ fs.super_block
    others_same : (j : ℕ) → j ≢ k → new.nodes j ≡ fs.nodes j
    type_is : (new.nodes k).type ≡ 1
    size_is : (new.nodes k).size ≡ 0
    link_is : (new.nodes k).link_cnt ≡ 1

  -- `cwd` with one entry more, and marked dirty.
  abbrev marked : Fs card.Disk → ℕ → Fs card.Disk
  marked fs cwd = record (set_node fs cwd (more_entries (fs.nodes cwd))) {
    inode_dirty = update fs.inode_dirty (cwd / 32) true;
  }

  touch_rest :
      (fuel : ℕ) (fs new : Fs card.Disk) (cwd k : ℕ) (es : Directory) (name : ℕ → ℕ) (xs : List ℕ)
      → IsReady card now stack fs cwd es
      → IsMade fs k new
      → cwd ≢ k
      → k < 8192
      → IsString name 0 xs
      → length xs < 24
      → length xs < fuel
      → Ends (Touched fs cwd es xs k) (do
        buf ← write_entry fuel (read_block card stack new cwd) (new.nodes cwd).entry_num file k name
        fs ← mark_inode_dirty cwd (set_node new cwd (more_entries (new.nodes cwd)))
        ok (update_bit_map card (update_inode card (write_block card now stack fuel fs cwd buf))))
  unfolding mark_inode_dirty
  touch_rest fuel fs new cwd k es name xs ready made ne small h short enough =
      let node = made.others_same cwd ne in
      let shows = Shows-same card now stack fs new cwd es node made.disk_same ready.shows in
      Ends-bind (HasEntry (read_block card stack new cwd) (length es) 1 k xs) _
        (write_entry fuel (read_block card stack new cwd) (new.nodes cwd).entry_num file k name) _
        (subst
          (λ i.
            Ends (HasEntry (read_block card stack new cwd) (length es) 1 k xs)
              (write_entry fuel (read_block card stack new cwd) i 1 k name))
          (sym shows.0)
          (write_entry-HasEntry fuel (read_block card stack new cwd) (length es) 1 k name xs
            ready.room (omega arith) (omega arith) h short enough))
        λ buf entry. rw (lt→ltb (cwd / 32) 256 (omega (arith, ready.in_table))) (
          let at = update_self new.nodes cwd (more_entries (new.nodes cwd)) in
          let volume = made.super_same ∙ ready.volume in
          let same = stored_nodes card now stack fuel (marked new cwd) cwd buf volume in
          (
            grown card now stack fuel (marked new cwd) cwd k 1 es xs (read_block card stack new cwd)
                buf volume
                (subst (λ (ind : Inode). mkfs_super_block.data_start ≤ ind.direct 0)
                  (sym (at ∙ ap more_entries node)) ready.in_data)
                (ap (λ (ind : Inode). ind.entry_num) at ∙ omega (arith, shows.0, ready.room))
                ready.room short small shows.2 entry,
            ap (λ (nodes : ℕ → Inode). (nodes k).type) same
                ∙ ap (λ (ind : Inode). ind.type) (other k (λ e. ne (sym e)))
                ∙ made.type_is,
            ap (λ (nodes : ℕ → Inode). (nodes k).size) same
                ∙ ap (λ (ind : Inode). ind.size) (other k (λ e. ne (sym e)))
                ∙ made.size_is,
            ap (λ (nodes : ℕ → Inode). (nodes k).link_cnt) same
                ∙ ap (λ (ind : Inode). ind.link_cnt) (other k (λ e. ne (sym e)))
                ∙ made.link_is,
            λ j nk nc.
                ap (λ (nodes : ℕ → Inode). nodes j) same ∙ other j nc ∙ made.others_same j nk,
          ))
    where
      other : (j : ℕ) → j ≢ cwd → (marked new cwd).nodes j ≡ new.nodes j
      other j nc = update_other new.nodes cwd (more_entries (new.nodes cwd)) j nc

  touch_entry-Touched :
      (fuel : ℕ) (fs : Fs card.Disk) (cwd k : ℕ) (es : Directory) (name : ℕ → ℕ) (xs : List ℕ)
      → IsReady card now stack fs cwd es
      → k < 8192
      → is_set fs.inode_bit_map k ≡ false
      → IsString name 0 xs
      → length xs < 24
      → length xs < fuel
      → Ends (Touched fs cwd es xs k) (touch_entry card now stack fuel fs cwd k name)
  unfolding touch_entry allocate_inode mark_inode_dirty follow
  touch_entry-Touched fuel fs cwd k es name xs ready small clear h short enough =
      let ne : cwd ≢ k =
        λ same. absurd (ground (arith, ready.in_use, ap (is_set fs.inode_bit_map) same)) in
      let big : leb 8192 k ≡ false = ground arith in
      rw (big, clear, lt→ltb (k / 32) 256 (omega arith))
        (touch_rest fuel fs _ cwd k es name xs ready
          (record {
            disk_same = refl;
            super_same = refl;
            others_same = λ j other. ground (arith, other);
            type_is = ground arith;
            size_is = ground arith;
            link_is = ground arith;
          })
          ne small h short enough)

  -- Touching a new name in the working directory, where the inode map has a clear bit `k`, ends well:
  -- the directory has one more entry, at its end, with that name, for the inode `k`, an empty file
  -- with one link; no inode but that and the directory's changes, and neither does `cwd`. The volume
  -- is one of `do_mkfs`; the directory has room; the name has 1 to 23 characters and no slash.
  pub do_touch-Touched :
      (fuel : ℕ) (s : Session card.Disk) (k : ℕ) (es : Directory) (name : ℕ → ℕ) (xs : List ℕ)
      → IsReady card now stack s.fs s.cwd es
      → find_first_zero_bit s.fs.inode_bit_map inode_bit_map_size ≡ ok k
      → IsString name 0 xs
      → has 47 xs ≡ false
      → 0 < length xs
      → length xs < 24
      → length xs < fuel
      → Ends
          (λ new. Touched s.fs s.cwd es xs k new.fs × (new.cwd ≡ s.cwd))
          (do_touch card now stack fuel (some name) s)
  unfolding do_touch
  do_touch-Touched fuel s k es name xs ready found h plain long short enough =
      let free =
        subst (FirstZero s.fs.inode_bit_map 0 8192) found
          (find_first_zero_bit-FirstZero s.fs.inode_bit_map 1024) in
      rw
        (
          name_str_standrize-IsString fuel name xs h plain long enough,
          has_slash-IsString fuel name 0 xs h enough,
          plain,
          found,
        )
        (Ends-bind _ _ (touch_entry card now stack fuel s.fs s.cwd k name) _
          (touch_entry-Touched fuel s.fs s.cwd k es name xs ready free.0 free.1 h short enough)
          λ new t. (t, refl))

  -- A name that is not in the directory is, once touched, what `name_parse` leads to the new file by.
  pub do_touch-name_parse :
      (fuel : ℕ) (s : Session card.Disk) (k : ℕ) (es : Directory) (name : ℕ → ℕ) (xs : List ℕ)
      → IsReady card now stack s.fs s.cwd es
      → find_first_zero_bit s.fs.inode_bit_map inode_bit_map_size ≡ ok k
      → lookup es xs ≡ none
      → IsString name 0 xs
      → has 47 xs ≡ false
      → 0 < length xs
      → length xs < 24
      → length xs < fuel
      → Ends
          (λ new. name_parse card stack new.fs new.cwd (some name) ≡ ok (some k))
          (do_touch card now stack fuel (some name) s)
  do_touch-name_parse fuel s k es name xs ready found absent h plain long short enough =
      Ends-map _ _ (do_touch card now stack fuel (some name) s)
        (do_touch-Touched fuel s k es name xs ready found h plain long short enough)
        λ new (t, at). rw at (
          name_parse-resolve card stack (λ n. es ++ (xs, k) ∷ []) new.fs s.cwd name false xs [] t.0
            h plain (λ _. long) (omega arith)
          ∙ ap (follow_link new.fs.nodes) (lookup-append es xs k absent)
          ∙ follow_link-file new.fs.nodes k t.1)
