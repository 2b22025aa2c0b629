-- ===== src/Fs/Inodes/Flush.antt =====
-- The inode table on the card: `update_inode` brings it up to date, given that each stale inode is
-- marked dirty.
use mips_os.Common.{
  ℕ, zero, suc, ◌+◌, ◌-◌, ◌*◌, ◌/◌, ◌%◌, ◌^◌, ◌≤◌, ◌<◌, ◌≡◌, refl, sym, ◌∙◌, subst,
}
use mips_os.Common.{inl, inr, Bool, true, false}
use mips_os.Common.{arith, ◌==◌, update}
use mips_os.Common.{==_iff, Bool-cases}
use mips_os.Fs.{Inode, Fs}
use mips_os.Fs.Card.{Card, do_fs_write}
use mips_os.Fs.Inodes.{inode_byte, nodes_image, flush_block, flush, update_inode}

module _ (card : Card) where
  -- The card holds the bytes of the inode `n` in its slot of the table.
  abbrev pub OnCard : Fs card.Disk → ℕ → Type 0
  OnCard fs n =
      (k : ℕ)
      → k < 128
      → card.byte fs.disk (fs.super_block.ind_start + n * 128 + k) ≡ inode_byte (fs.nodes n) k

  -- Every inode of an unmarked block of the table is on the card.
  abbrev pub IsCoherent : Fs card.Disk → Type 0
  IsCoherent fs = (n : ℕ) → n < 8192 → fs.inode_dirty (n / 32) ≡ false → OnCard fs n

  -- The parts that a flush leaves alone.
  abbrev pub SameMemory : Fs card.Disk → Fs card.Disk → Type 0
  SameMemory fs new =
      (new.nodes ≡ fs.nodes)
      × (new.super_block ≡ fs.super_block)
      × (new.block_bit_map ≡ fs.block_bit_map)
      × (new.inode_bit_map ≡ fs.inode_bit_map)

  -- What holds before round `i`: the blocks below `i` are on the card and unmarked.
  record Flushed (start : Fs card.Disk) (i : ℕ) (fs : Fs card.Disk) : Type 0 where
    same : SameMemory start fs
    coherent : IsCoherent fs
    clean : (j : ℕ) → j < i → fs.inode_dirty j ≡ false

  written_on_card :
      (start i n k : ℕ) (w : ℕ → ℕ) (d : card.Disk)
      → n / 32 ≡ i
      → k < 128
      → card.byte (do_fs_write card d (start + 4096 * i) w 4096) (start + n * 128 + k)
        ≡ w (n * 128 + k - 4096 * i)
  unfolding do_fs_write
  written_on_card start i n k w d e h =
      let a : start + n * 128 + k ≡ start + 4096 * i + (n * 128 + k - 4096 * i) = omega arith in
      rw a (card.sdwrite_inside w (start + 4096 * i) 4096 d (n * 128 + k - 4096 * i) (omega arith))

  left_on_card :
      (start i n k : ℕ) (w : ℕ → ℕ) (d : card.Disk)
      → (n / 32 == i) ≡ false
      → k < 128
      → card.byte (do_fs_write card d (start + 4096 * i) w 4096) (start + n * 128 + k)
        ≡ card.byte d (start + n * 128 + k)
  unfolding do_fs_write
  left_on_card start i n k w d e h =
      card.sdwrite_outside w (start + 4096 * i) 4096 d (start + n * 128 + k) (ground arith)

  image_at :
      (nodes : ℕ → Inode) (i n k : ℕ)
      → n / 32 ≡ i
      → k < 128
      → nodes_image nodes (128 * i * 32 + (n * 128 + k - 4096 * i)) ≡ inode_byte (nodes n) k
  image_at nodes i n k e h =
      let a : 128 * i * 32 + (n * 128 + k - 4096 * i) ≡ n * 128 + k = omega arith in
      let b : (n * 128 + k) / 128 ≡ n = omega arith in
      let c : (n * 128 + k) % 128 ≡ k = omega arith in rw (a, b, c) refl

  -- The state after the block `i` is written.
  abbrev rewritten : ℕ → Fs card.Disk → Fs card.Disk
  rewritten i fs = record fs {
    inode_dirty = update fs.inode_dirty i false;
    disk =
        do_fs_write card fs.disk (fs.super_block.ind_start + 4096 * i)
          (λ k. nodes_image fs.nodes (128 * i * 32 + k)) 4096;
  }

  rewritten-IsCoherent : (i : ℕ) (fs : Fs card.Disk) → IsCoherent fs → IsCoherent (rewritten i fs)
  rewritten-IsCoherent i fs c n hn e k hk = elim (Bool-cases (n / 32 == i)) [
    | inl same ↦
        let at : n / 32 ≡ i = (==_iff (n / 32) i).0 same in
        written_on_card fs.super_block.ind_start i n k _ fs.disk at hk
        ∙ image_at fs.nodes i n k at hk
    | inr other ↦
        left_on_card fs.super_block.ind_start i n k _ fs.disk other hk ∙ c n hn (rw other at e) k hk
  ]

  flush_block-dirty :
      (i : ℕ) (fs : Fs card.Disk)
      → fs.super_block.ind_start + 2 ^ 20 ≤ 2 ^ 32
      → i < 256
      → fs.inode_dirty i ≡ true
      → flush_block card i fs ≡ rewritten i fs
  unfolding flush_block
  flush_block-dirty i fs room small on =
      let at : (fs.super_block.ind_start + 128 * i * 32) % 2 ^ 32
          ≡ fs.super_block.ind_start + 4096 * i =
        omega arith in
      rw (on, at) refl

  clean_step :
      (d : ℕ → Bool) (i j : ℕ)
      → ((j : ℕ) → j < i → d j ≡ false)
      → j < i + 1
      → update d i false j ≡ false
  clean_step d i j c h = elim (Bool-cases (j == i)) [
    | inl same ↦ rw same refl
    | inr other ↦ rw other (c j (ground arith))
  ]

  flush_block-Flushed :
      (start fs : Fs card.Disk) (i : ℕ)
      → start.super_block.ind_start + 2 ^ 20 ≤ 2 ^ 32
      → i < 256
      → Flushed start i fs
      → Flushed start (i + 1) (flush_block card i fs)
  unfolding flush_block
  flush_block-Flushed start fs i room small f = elim (Bool-cases (fs.inode_dirty i)) [
    | inr off ↦ rw off (record {
      same = f.same;
      coherent = f.coherent;
      clean = λ j h. elim (Bool-cases (j == i)) [
        | inl same ↦ subst (λ m. fs.inode_dirty m ≡ false) (sym ((==_iff j i).0 same)) off
        | inr other ↦ f.clean j (ground arith)
      ];
    })
    | inl on ↦ rw (flush_block-dirty i fs (rw f.same.1 room) small on) (record {
      same = f.same;
      coherent = rewritten-IsCoherent i fs f.coherent;
      clean = λ j h. clean_step fs.inode_dirty i j f.clean h;
    })
  ]

  flush-Flushed :
      (start fs : Fs card.Disk) (left i n : ℕ)
      → start.super_block.ind_start + 2 ^ 20 ≤ 2 ^ 32
      → i + left ≡ n
      → n ≤ 256
      → Flushed start i fs
      → Flushed start n (flush card left i fs)
  unfolding flush
  flush-Flushed start fs zero i n room e h f =
      subst (λ m. Flushed start m fs) (let g : i ≡ n = omega arith in g) f
  flush-Flushed start fs (suc left) i n room e h f =
      flush-Flushed start (flush_block card i fs) left (i + 1) n room (omega arith) h
        (flush_block-Flushed start fs i room (omega arith) f)

  -- After `update_inode` every inode of memory is on the card and no mark is left, given that the
  -- inodes of unmarked blocks were on the card and that the table fits below 4 GB; the inodes, the
  -- bit maps and the super block in memory are as before.
  pub update_inode-OnCard :
      (fs : Fs card.Disk)
      → fs.super_block.ind_start + 2 ^ 20 ≤ 2 ^ 32
      → IsCoherent fs
      → ((n : ℕ) → n < 8192 → OnCard (update_inode card fs) n)
        × ((j : ℕ) → j < 256 → (update_inode card fs).inode_dirty j ≡ false)
        × SameMemory fs (update_inode card fs)
  unfolding update_inode
  update_inode-OnCard fs room c =
      (λ n h. done.coherent n h (done.clean (n / 32) (omega arith)), done.clean, done.same)
    where
      done : Flushed fs 256 (flush card 256 0 fs)
      done = flush-Flushed fs fs 256 0 256 room (omega arith) (omega arith) (record {
        same = (refl, refl, refl, refl);
        coherent = c;
        clean = λ j h. absurd (omega arith);
      })
