-- ===== src/Fs/Card.antt =====
-- The memory card. `sdread` and `sdwrite` are routines of the board's firmware, called by
-- `do_fs_read` and `do_fs_write` of kernel/fs/fs.c: an interface with what it promises.
use mips_os.Common.{ℕ, ◌+◌, ◌-◌, ◌≤◌, ◌<◌, ◌≡◌, refl, ap}
use mips_os.Common.{◌⊎◌, ◌&&◌}
use mips_os.Common.{arith, ltb, leb, if◌then◌else◌}

pub record Card : Type 1 where
  pub Disk : Type 0
  -- The byte at an address of the card.
  pub byte : Disk → ℕ → ℕ
  -- What a read of `sz` bytes at `offset` puts at index `i` of the buffer.
  pub sdread : Disk → (offset sz i : ℕ) → ℕ
  pub sdwrite : (wbuf : ℕ → ℕ) → (offset sz : ℕ) → Disk → Disk
  pub sdread_byte :
      (d : Disk) (offset sz i : ℕ) → i < sz → sdread d offset sz i ≡ byte d (offset + i)
  pub sdwrite_inside :
      (wbuf : ℕ → ℕ) (offset sz : ℕ) (d : Disk) (i : ℕ)
      → i < sz
      → byte (sdwrite wbuf offset sz d) (offset + i) ≡ wbuf i
  pub sdwrite_outside :
      (wbuf : ℕ → ℕ) (offset sz : ℕ) (d : Disk) (a : ℕ)
      → (a < offset) ⊎ (offset + sz ≤ a)
      → byte (sdwrite wbuf offset sz d) a ≡ byte d a

module _ (card : Card) where
  open card use {Disk, sdread, sdwrite}

  unfoldable pub do_fs_read : Disk → ℕ → (ℕ → ℕ) → ℕ → ℕ → ℕ
  do_fs_read d offset rbuf sz i = if ltb i sz then sdread d offset sz i else rbuf i

  unfoldable pub do_fs_write : Disk → ℕ → (ℕ → ℕ) → ℕ → Disk
  do_fs_write d offset wbuf sz = sdwrite wbuf offset sz d

-- A card that is an array of bytes.
abbrev pub array_write : (ℕ → ℕ) → ℕ → ℕ → (ℕ → ℕ) → ℕ → ℕ
array_write w offset sz d a = if leb offset a && ltb a (offset + sz) then w (a - offset) else d a

pub array_inside :
    (w : ℕ → ℕ) (offset sz : ℕ) (d : ℕ → ℕ) (i : ℕ)
    → i < sz
    → array_write w offset sz d (offset + i) ≡ w i
array_inside w offset sz d i h =
    let e : offset + i - offset ≡ i = omega arith in ground (arith, ap w e)

pub array_outside :
    (w : ℕ → ℕ) (offset sz : ℕ) (d : ℕ → ℕ) (a : ℕ)
    → (a < offset) ⊎ (offset + sz ≤ a)
    → array_write w offset sz d a ≡ d a
array_outside w offset sz d a h = ground arith

abbrev pub array_card : Card
array_card = record {
  Disk = ℕ → ℕ;
  byte = λ d a. d a;
  sdread = λ d offset sz i. d (offset + i);
  sdwrite = array_write;
  sdread_byte = λ d offset sz i h. refl;
  sdwrite_inside = array_inside;
  sdwrite_outside = array_outside;
}
