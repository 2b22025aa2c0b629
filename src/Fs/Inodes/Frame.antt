-- ===== src/Fs/Inodes/Frame.antt =====
-- What `update_inode` and `update_bit_map` leave alone: memory but for the dirty marks, and the card
-- outside the table and the two maps.
use mips_os.Common.{ℕ, zero, suc, ◌+◌, ◌*◌, ◌%◌, ◌^◌, ◌≤◌, ◌<◌, ◌≡◌, refl, ap, ◌∙◌}
use mips_os.Common.{◌⊎◌, inl, inr}
use mips_os.Common.{arith}
use mips_os.Common.{Bool-cases}
use mips_os.Fs.{Fs, mkfs_super_block}
use mips_os.Fs.Card.{Card, do_fs_write}
use mips_os.Fs.Inodes.{flush_block, flush, update_inode, update_bit_map}

module _ (card : Card) where
  pub do_fs_write-outside :
      (d : card.Disk) (offset : ℕ) (w : ℕ → ℕ) (sz a : ℕ)
      → (a < offset) ⊎ (offset + sz ≤ a)
      → card.byte (do_fs_write card d offset w sz) a ≡ card.byte d a
  unfolding do_fs_write
  do_fs_write-outside d offset w sz a h = card.sdwrite_outside w offset sz d a h

  pub do_fs_write-inside :
      (d : card.Disk) (offset : ℕ) (w : ℕ → ℕ) (sz i : ℕ)
      → i < sz
      → card.byte (do_fs_write card d offset w sz) (offset + i) ≡ w i
  unfolding do_fs_write
  do_fs_write-inside d offset w sz i h = card.sdwrite_inside w offset sz d i h

  -- From `fs` to `new` the inodes, the descriptor and the super block are the same, and so is the
  -- card at each address that `far` admits.
  pub record Spares (far : ℕ → Type 0) (fs new : Fs card.Disk) : Type 0 where
    pub nodes : new.nodes ≡ fs.nodes
    pub fd : new.fd ≡ fs.fd
    pub super_block : new.super_block ≡ fs.super_block
    pub card_same : (a : ℕ) → far a → card.byte new.disk a ≡ card.byte fs.disk a

  pub Spares-trans :
      (far : ℕ → Type 0) (a b c : Fs card.Disk) → Spares far a b → Spares far b c → Spares far a c
  Spares-trans far a b c p q = record {
    nodes = q.nodes ∙ p.nodes;
    fd = q.fd ∙ p.fd;
    super_block = q.super_block ∙ p.super_block;
    card_same = λ x h. q.card_same x h ∙ p.card_same x h;
  }

  -- Outside the table of inodes that starts at `start`.
  abbrev pub OffTable : ℕ → ℕ → Type 0
  OffTable start a = (a < start) ⊎ (start + 2 ^ 20 ≤ a)

  flush_block-Spares :
      (start i : ℕ) (fs : Fs card.Disk)
      → fs.super_block.ind_start ≡ start
      → start + 2 ^ 20 ≤ 2 ^ 32
      → i < 256
      → Spares (OffTable start) fs (flush_block card i fs)
  unfolding flush_block
  flush_block-Spares start i fs e room small = elim (Bool-cases (fs.inode_dirty i)) [
    | inr off ↦
        rw off (record { nodes = refl; fd = refl; super_block = refl; card_same = λ a h. refl })
    | inl on ↦
        let at : (fs.super_block.ind_start + 128 * i * 32) % 2 ^ 32 ≡ start + 4096 * i =
          omega arith in
        rw (on, at)
          (record {
            nodes = refl;
            fd = refl;
            super_block = refl;
            card_same =
                λ a h. do_fs_write-outside fs.disk (start + 4096 * i) _ 4096 a (ground arith);
          })
  ]

  flush-Spares :
      (start left i : ℕ) (fs : Fs card.Disk)
      → fs.super_block.ind_start ≡ start
      → start + 2 ^ 20 ≤ 2 ^ 32
      → i + left ≤ 256
      → Spares (OffTable start) fs (flush card left i fs)
  unfolding flush
  flush-Spares start zero i fs e room h = record {
    nodes = refl;
    fd = refl;
    super_block = refl;
    card_same = λ a h. refl;
  }
  flush-Spares start (suc left) i fs e room h =
      let one = flush_block-Spares start i fs e room (omega arith) in
      Spares-trans (OffTable start) fs (flush_block card i fs) _ one (
        flush-Spares start left (i + 1) (flush_block card i fs)
          (ap (λ sb. sb.ind_start) one.super_block ∙ e) room (omega arith))

  -- `update_inode` spares memory and the card outside the table.
  pub update_inode-Spares :
      (start : ℕ) (fs : Fs card.Disk)
      → fs.super_block.ind_start ≡ start
      → start + 2 ^ 20 ≤ 2 ^ 32
      → Spares (OffTable start) fs (update_inode card fs)
  unfolding update_inode
  update_inode-Spares start fs e room = flush-Spares start 256 0 fs e room (omega arith)

  pub update_bit_map-Spares :
      (fs : Fs card.Disk)
      → fs.super_block ≡ mkfs_super_block
      → Spares (λ a. mkfs_super_block.data_start ≤ a) fs (update_bit_map card fs)
  unfolding update_bit_map mkfs_super_block
  update_bit_map-Spares fs e =
      let blk : fs.super_block.blk_bit_map_start ≡ 134218240 = ap (λ sb. sb.blk_bit_map_start) e in
      let ind : fs.super_block.ind_bit_map_start ≡ 134251008 = ap (λ sb. sb.ind_bit_map_start) e in
      record {
        nodes = refl;
        fd = refl;
        super_block = refl;
        card_same = λ a h.
            do_fs_write-outside _ fs.super_block.blk_bit_map_start fs.block_bit_map 32768 a
              (inr (omega arith))
            ∙ do_fs_write-outside fs.disk fs.super_block.ind_bit_map_start fs.inode_bit_map 1024 a
                (inr (omega arith));
      }

  -- On a volume of `do_mkfs`, both updates together spare the data area.
  pub update_both-Spares :
      (fs : Fs card.Disk)
      → fs.super_block ≡ mkfs_super_block
      → Spares
          (λ a. mkfs_super_block.data_start ≤ a)
          fs
          (update_inode card (update_bit_map card fs))
  unfolding mkfs_super_block
  update_both-Spares fs e =
      let bits = update_bit_map-Spares fs e in
      let table =
        update_inode-Spares 134252032 (update_bit_map card fs)
          (ap (λ sb. sb.ind_start) (bits.super_block ∙ e)) (omega arith) in
      Spares-trans _ fs (update_bit_map card fs) _ bits (record {
        nodes = table.nodes;
        fd = table.fd;
        super_block = table.super_block;
        card_same = λ a h. table.card_same a (inr (omega arith));
      })

  -- The other order, that of `do_touch`.
  pub table_then_maps-Spares :
      (fs : Fs card.Disk)
      → fs.super_block ≡ mkfs_super_block
      → Spares
          (λ a. mkfs_super_block.data_start ≤ a)
          fs
          (update_bit_map card (update_inode card fs))
  unfolding mkfs_super_block
  table_then_maps-Spares fs e =
      let table = update_inode-Spares 134252032 fs (ap (λ sb. sb.ind_start) e) (omega arith) in
      let bits = update_bit_map-Spares (update_inode card fs) (table.super_block ∙ e) in
      Spares-trans _ fs (update_inode card fs) _
        (record {
          nodes = table.nodes;
          fd = table.fd;
          super_block = table.super_block;
          card_same = λ a h. table.card_same a (inr (omega arith));
        })
        bits
