-- ===== src/Fs/Remove.antt =====
-- `rm_recurse` of kernel/fs/fs.c: unlinking an inode, and freeing it with what it holds. Directory
-- entries are the 32-byte records of the directory's block. The timer does not advance during a
-- system call, so its reading is one number. The recursion over directories takes fuel.
use mips_os.Common.{ℕ, zero, suc, ◌+◌, ◌-◌, ◌*◌, ◌%◌, ◌^◌, ◌≤◌, ◌<◌, ◌≡◌, refl, ap, ◌∙◌}
use mips_os.Common.{◌≢◌, inl, inr, ◌&&◌}
use mips_os.Common.{map, arith, ltb, ◌==◌, if◌then◌else◌, update}
use mips_os.Common.{lt→ltb, le→ltb, ==_iff, update_self, update_other, Bool-cases}
use mips_os.Common.{Outcome, ok, fault, hang, ◌>>=◌, >>=-fault, Ends}
use mips_os.Fs.{
  Inode, SuperBlock, Fs, block_size, file, dir, data_block_bit_map_size, inode_max_number,
  mkfs_super_block, get_data_block_number,
}
use mips_os.Fs.Card.{Card, do_fs_read}
use mips_os.Fs.Bitmap.{clear_bit, clear_bit_returns}
use mips_os.Fs.Inodes.{stamp_hash, free_inode}

-- A little-endian word of a buffer.
abbrev pub word_at : (ℕ → ℕ) → ℕ → ℕ
word_at buf a = buf a + 256 * buf (a + 1) + 65536 * buf (a + 2) + 16777216 * buf (a + 3)

-- `dentry_buf[i].inode_num`.
abbrev pub entry_inode : (ℕ → ℕ) → ℕ → ℕ
entry_inode buf i = word_at buf (32 * i + 4)

module _ {Disk : Type 0} where
  -- The loop over the direct blocks of a file, from `i`.
  unfoldable pub free_direct : ℕ → ℕ → ℕ → Fs Disk → Outcome (Fs Disk)
  free_direct zero i n fs = ok fs
  free_direct (suc left) i n fs = do
    map ←
        clear_bit data_block_bit_map_size fs.block_bit_map
          (get_data_block_number fs.super_block ((fs.nodes n).direct i))
    free_direct left (i + 1) n (record fs { block_bit_map = map })

  -- The loop over the entries of a directory, from `i`. The buffer holds 128 entries, and `nodes`
  -- has `inode_max_number` elements.
  unfoldable pub rm_entries :
      (ℕ → Fs Disk → Outcome (Fs Disk)) → ℕ → ℕ → (ℕ → ℕ) → Fs Disk → Outcome (Fs Disk)
  rm_entries rec zero i buf fs = ok fs
  rm_entries rec (suc left) i buf fs =
      if ltb i 128 && ltb (entry_inode buf i) inode_max_number
      then (do fs ← rec (entry_inode buf i) fs; rm_entries rec left (i + 1) buf fs)
      else fault

abbrev pub less_link : ℕ → ℕ
less_link c = (c + 2 ^ 32 - 1) % 2 ^ 32

-- `ind->link_cnt -= 1`.
abbrev pub unlinked : {Disk : Type 0} → Fs Disk → ℕ → Fs Disk
unlinked fs n = record fs {
  nodes = update fs.nodes n (record (fs.nodes n) { link_cnt = less_link (fs.nodes n).link_cnt });
}

module _ (card : Card) (time : ℕ) (stack : ℕ → ℕ) where
  -- The branch for a directory, with `rec` for the recursive call.
  unfoldable pub rm_directory :
      (ℕ → Fs card.Disk → Outcome (Fs card.Disk)) → ℕ → Fs card.Disk → Outcome (Fs card.Disk)
  rm_directory rec n fs = do
    let buf = do_fs_read card fs.disk ((fs.nodes n).direct 0) stack block_size
    fs ← rm_entries rec ((fs.nodes n).entry_num - 2) 2 buf fs
    map ←
        clear_bit data_block_bit_map_size fs.block_bit_map
          (get_data_block_number fs.super_block ((fs.nodes n).direct 0))
    free_inode n (record fs { block_bit_map = map })

  -- What follows when no link is left.
  unfoldable pub rm_last :
      (ℕ → Fs card.Disk → Outcome (Fs card.Disk)) → ℕ → Fs card.Disk → Outcome (Fs card.Disk)
  rm_last rec n fs =
      if (fs.nodes n).type == dir
      then rm_directory rec n fs
      else if (fs.nodes n).type == file
      then (do fs ← free_direct 16 0 n fs; free_inode n fs)
      else free_inode n fs

  -- `ind` is `&nodes[n]`; `stack` is what the local buffer holds before it is read into.
  unfoldable pub rm_recurse : ℕ → ℕ → Fs card.Disk → Outcome (Fs card.Disk)
  rm_recurse zero n fs = hang
  rm_recurse (suc fuel) n fs =
      let fs' = unlinked fs n in
      let last = rm_last (λ m fs. rm_recurse fuel m fs) n fs' in
      if ltb 0 (less_link (fs.nodes n).link_cnt)
      then ok (record fs' {
        nodes =
            update fs'.nodes n
              (record (fs'.nodes n) { hash = stamp_hash 4 (λ _. time) (fs'.nodes n).hash });
      })
      else last

  -- From `fs` to `new` only the inode `n` differs, and it by a link less and a new stamp.
  abbrev pub Unlinked : Fs card.Disk → ℕ → Fs card.Disk → Type 0
  Unlinked fs n new =
      ((new.nodes n).link_cnt + 1 ≡ (fs.nodes n).link_cnt)
      × ((new.nodes n).size ≡ (fs.nodes n).size)
      × ((new.nodes n).direct ≡ (fs.nodes n).direct)
      × ((j : ℕ) → j ≢ n → new.nodes j ≡ fs.nodes j)
      × (new.block_bit_map ≡ fs.block_bit_map)
      × (new.inode_bit_map ≡ fs.inode_bit_map)
      × (new.disk ≡ fs.disk)

  -- Removing a name of an inode that has another leaves its data and both maps as they are.
  pub rm_recurse-Unlinked :
      (fuel n : ℕ) (fs : Fs card.Disk)
      → 2 ≤ (fs.nodes n).link_cnt
      → (fs.nodes n).link_cnt < 2 ^ 32
      → Ends (Unlinked fs n) (rm_recurse (suc fuel) n fs)
  unfolding rm_recurse
  rm_recurse-Unlinked fuel n fs low high =
      rw (lt→ltb 0 (less_link (fs.nodes n).link_cnt) (omega arith)) (
        ap (λ (ind : Inode). ind.link_cnt + 1) twice ∙ omega arith,
        ap (λ (ind : Inode). ind.size) twice,
        ap (λ (ind : Inode). ind.direct) twice,
        λ j h. update_other (unlinked fs n).nodes n _ j h ∙ update_other fs.nodes n _ j h,
        refl,
        refl,
        refl,
      )
    where
      once : Inode
      once = record (fs.nodes n) { link_cnt = less_link (fs.nodes n).link_cnt }

      twice :
          update
            (unlinked fs n).nodes
            n
            (record ((unlinked fs n).nodes n) {
              hash = stamp_hash 4 (λ _. time) ((unlinked fs n).nodes n).hash;
            })
            n
          ≡ record once { hash = stamp_hash 4 (λ _. time) once.hash }
      twice =
          update_self (unlinked fs n).nodes n _
          ∙ ap (λ (ind : Inode). record ind { hash = stamp_hash 4 (λ _. time) ind.hash })
              (update_self fs.nodes n once)

  -- The block number of a pointer that is 0 lies beyond the map.
  clear_far :
      (buf : ℕ → ℕ) (sb : SuperBlock)
      → sb ≡ mkfs_super_block
      → clear_bit 32768 buf (get_data_block_number sb 0) ≡ fault
  unfolding clear_bit get_data_block_number mkfs_super_block
  clear_far buf sb e = rw e refl

  free_direct_faults :
      (left i n k : ℕ) (fs : Fs card.Disk)
      → fs.super_block ≡ mkfs_super_block
      → i ≤ k
      → k < i + left
      → (fs.nodes n).direct k ≡ 0
      → free_direct left i n fs ≡ fault
  unfolding free_direct
  free_direct_faults zero i n k fs made le lt z = absurd (omega arith)
  free_direct_faults (suc left) i n k fs made le lt z = elim (Bool-cases (i == k)) [
    | inl same ↦
        let e : (fs.nodes n).direct i ≡ 0 = ap (fs.nodes n).direct ((==_iff i k).0 same) ∙ z in
        rw (e, clear_far fs.block_bit_map fs.super_block made) refl
    | inr other ↦
        >>=-fault (clear_bit 32768 fs.block_bit_map _) _
          (clear_bit_returns 32768 fs.block_bit_map _)
          λ map. free_direct_faults left (i + 1) n k _ made (ground arith) (omega arith) z
  ]

  rm_last-file_faults :
      (rec : ℕ → Fs card.Disk → Outcome (Fs card.Disk)) (n k : ℕ) (fs : Fs card.Disk)
      → fs.super_block ≡ mkfs_super_block
      → (fs.nodes n).type ≡ file
      → k < 16
      → (fs.nodes n).direct k ≡ 0
      → rm_last rec n fs ≡ fault
  unfolding rm_last
  rm_last-file_faults rec n k fs made type small z =
      rw (type, free_direct_faults 16 0 n k fs made (omega arith) (omega arith) z) refl

  -- Removing the last name of a file with an unused direct pointer clears a bit far beyond the block
  -- map: the pointer 0 stands for no block, and the source frees all sixteen. The volume is one of
  -- `do_mkfs`.
  pub rm_recurse-file_faults :
      (fuel n k : ℕ) (fs : Fs card.Disk)
      → fs.super_block ≡ mkfs_super_block
      → (fs.nodes n).type ≡ file
      → (fs.nodes n).link_cnt ≡ 1
      → k < 16
      → (fs.nodes n).direct k ≡ 0
      → rm_recurse (suc fuel) n fs ≡ fault
  unfolding rm_recurse
  rm_recurse-file_faults fuel n k fs made type one small z =
      rw
        (
          le→ltb 0 (less_link (fs.nodes n).link_cnt) (omega arith),
          rm_last-file_faults (λ m fs. rm_recurse fuel m fs) n k (unlinked fs n) made
              (ap (λ (ind : Inode). ind.type) (update_self fs.nodes n _) ∙ type) small
              (ap (λ (ind : Inode). ind.direct k) (update_self fs.nodes n _) ∙ z),
        )
        refl
