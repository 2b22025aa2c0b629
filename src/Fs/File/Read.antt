-- ===== src/Fs/File/Read.antt =====
-- `do_fread`: what a read inside a block returns, and why no other read returns.
use mips_os.Common.{ℕ, zero, suc, ◌+◌, ◌-◌, ◌/◌, ◌%◌, ◌^◌, ◌≤◌, ◌<◌, ◌≡◌, refl, ap, ◌∙◌}
use mips_os.Common.{◌≢◌, ◌⊎◌, inl, inr, false, ◌&&◌}
use mips_os.Common.{arith, ltb, leb, ◌==◌, if◌then◌else◌}
use mips_os.Common.{lt→ltb, le→ltb, ==_iff, Bool-cases}
use mips_os.Common.{Outcome, ok, fault, hang}
use mips_os.Fs.{Fs}
use mips_os.Fs.Card.{Card, do_fs_read}
use mips_os.Fs.File.{copy, chunk_loop, min_of, read_within, do_fread}

-- A copy writes its range of the target and no more.
pub copy_lem :
    (n : ℕ) (dst : ℕ → ℕ) (to : ℕ) (src : ℕ → ℕ) (from a : ℕ)
    → copy n dst to src from a
      ≡ (if leb to a && ltb a (to + n) then src (from + (a - to)) else dst a)
unfolding copy
copy_lem zero dst to src from a = ground arith
copy_lem (suc n) dst to src from a = elim (Bool-cases (a == to + n)) [
  | inl same ↦ let e : a - to ≡ n = ground arith in rw (same, e) (ground arith)
  | inr other ↦ rw (other, copy_lem n dst to src from a) (ground arith)
]

pub copy_inside :
    (sz : ℕ) (dst : ℕ → ℕ) (to : ℕ) (src : ℕ → ℕ) (from i : ℕ)
    → i < sz
    → copy sz dst to src from (to + i) ≡ src (from + i)
copy_inside sz dst to src from i h =
    let e : to + i - to ≡ i = omega arith in
    rw (copy_lem sz dst to src from (to + i), e) (ground arith)

pub copy_outside :
    (sz : ℕ) (dst : ℕ → ℕ) (to : ℕ) (src : ℕ → ℕ) (from a : ℕ)
    → (a < to) ⊎ (to + sz ≤ a)
    → copy sz dst to src from a ≡ dst a
copy_outside sz dst to src from a h = rw (copy_lem sz dst to src from a) (ground arith)

pub whole_copy : (pos sz : ℕ) → pos / 4096 ≡ (pos + sz) / 4096 → min_of sz (4096 - pos % 4096) ≡ sz
whole_copy pos sz one = ground arith

-- A transfer in chunks whose first chunk does not return does not return.
pub chunk_loop-hang {ℓ} :
    {S : Type ℓ} (left : ℕ) (call : ℕ → ℕ → S → Outcome S) (st sz : ℕ) (s : S)
    → st < sz
    → call st (min_of 4096 (sz - st)) s ≡ hang
    → chunk_loop (suc left) call st sz s ≡ hang
unfolding chunk_loop
chunk_loop-hang left call st sz s h e = rw (lt→ltb st sz h, e) refl

module _ (card : Card) where
  -- The byte of the open file at a position: in the direct block of the position, on the card.
  abbrev pub content : Fs card.Disk → ℕ → ℕ
  content fs p = card.byte fs.disk ((fs.nodes fs.fd.node).direct (p / 4096) + p % 4096)

  -- A run that ends well with the bytes of the file from the old position in the buffer, the rest of
  -- the buffer as it was, the position advanced and the card and the inodes unchanged.
  abbrev pub Read : (at sz : ℕ) → (ℕ → ℕ) → Fs card.Disk → Outcome ((ℕ → ℕ) × Fs card.Disk) → Type 0
  Read at sz user fs (ok (new, fs')) =
      ((i : ℕ) → i < sz → new (at + i) ≡ content fs (fs.fd.pos + i))
      × ((a : ℕ) → (a < at) ⊎ (at + sz ≤ a) → new a ≡ user a)
      × (fs'.fd.pos ≡ fs.fd.pos + sz)
      × (fs'.disk ≡ fs.disk)
      × (fs'.nodes ≡ fs.nodes)
  Read at sz user fs fault = ⊥
  Read at sz user fs hang = ⊥

  pub do_fs_read_byte :
      (d : card.Disk) (offset : ℕ) (rbuf : ℕ → ℕ) (k : ℕ)
      → k < 4096
      → do_fs_read card d offset rbuf 4096 k ≡ card.byte d (offset + k)
  unfolding do_fs_read
  do_fs_read_byte d offset rbuf k h = rw (lt→ltb k 4096 h) (card.sdread_byte d offset 4096 k h)

  bytes_read :
      (sz i : ℕ) (fs : Fs card.Disk)
      → fs.fd.pos / 4096 ≡ (fs.fd.pos + sz) / 4096
      → i < sz
      → do_fs_read card fs.disk
          ((fs.nodes fs.fd.node).direct (fs.fd.pos / 4096))
          fs.fread_rbuf
          4096
          (fs.fd.pos % 4096 + i)
        ≡ content fs (fs.fd.pos + i)
  bytes_read sz i fs one h =
      let a : (fs.fd.pos + i) / 4096 ≡ fs.fd.pos / 4096 = omega arith in
      let b : (fs.fd.pos + i) % 4096 ≡ fs.fd.pos % 4096 + i = omega arith in
      let c : fs.fd.pos % 4096 + i < 4096 = omega arith in
      let direct = (fs.nodes fs.fd.node).direct in
      let place : direct (fs.fd.pos / 4096) + (fs.fd.pos % 4096 + i)
          ≡ direct ((fs.fd.pos + i) / 4096) + (fs.fd.pos + i) % 4096 =
        rw (a, b) refl in
      do_fs_read_byte fs.disk (direct (fs.fd.pos / 4096)) fs.fread_rbuf (fs.fd.pos % 4096 + i) c
      ∙ ap (card.byte fs.disk) place

  -- A read of a range that begins and ends in one block of the direct part and lies in the file
  -- returns the bytes of the file.
  pub do_fread_within :
      (fuel at sz : ℕ) (user : ℕ → ℕ) (fs : Fs card.Disk)
      → fs.fd.pos + sz ≤ (fs.nodes fs.fd.node).size
      → (fs.nodes fs.fd.node).size < 2 ^ 32
      → fs.fd.pos < 65536
      → fs.fd.pos / 4096 ≡ (fs.fd.pos + sz) / 4096
      → Read at sz user fs (do_fread card (suc fuel) 0 at sz (user, fs))
  unfolding do_fread read_within do_fs_read
  do_fread_within fuel at sz user fs inside small low one =
      rw
        (
          wrap,
          le→ltb (fs.nodes fs.fd.node).size (fs.fd.pos + sz) inside,
          le→ltb 4096 sz (omega arith),
          (==_iff (fs.fd.pos / 4096) ((fs.fd.pos + sz) / 4096)).1 one,
          lt→ltb fs.fd.pos 65536 low,
          whole_copy fs.fd.pos sz one,
        )
        (
          λ i h. copy_inside sz user at _ (fs.fd.pos % 4096) i h ∙ bytes_read sz i fs one h,
          λ a h. copy_outside sz user at _ (fs.fd.pos % 4096) a h,
          refl,
          refl,
          refl,
        )
    where
      wrap : (fs.fd.pos + sz) % 2 ^ 32 ≡ fs.fd.pos + sz
      wrap = omega arith

  -- A read inside the file whose range reaches a block boundary, even at its end, never returns:
  -- with any amount of stack the run is still recurring.
  pub do_fread_crossing_hangs :
      (fuel at sz : ℕ) (user : ℕ → ℕ) (fs : Fs card.Disk)
      → fs.fd.pos + sz ≤ (fs.nodes fs.fd.node).size
      → (fs.nodes fs.fd.node).size < 2 ^ 32
      → fs.fd.pos / 4096 ≢ (fs.fd.pos + sz) / 4096
      → do_fread card fuel 0 at sz (user, fs) ≡ hang
  unfolding do_fread
  do_fread_crossing_hangs zero at sz user fs inside small far = refl
  do_fread_crossing_hangs (suc fuel) at sz user fs inside small far =
      rw (wrap, le→ltb (fs.nodes fs.fd.node).size (fs.fd.pos + sz) inside)
        (elim (Bool-cases (ltb 4096 sz)) [
          | inl big ↦ rw big (
              chunk_loop-hang (sz / 4096) (λ st n. do_fread card fuel 0 (at + st) n) 0 sz (user, fs)
                (ground arith)
                (let e : min_of 4096 (sz - 0) ≡ 4096 = ground arith in
                  rw e (
                    do_fread_crossing_hangs fuel (at + 0) 4096 user fs (ground arith) small
                      (omega arith))))
          | inr fits ↦
              rw (fits, other)
                (rw
                  (do_fread_crossing_hangs fuel at (4096 - fs.fd.pos % 4096) user fs (omega arith)
                    small (omega arith))
                  refl)
        ])
    where
      wrap : (fs.fd.pos + sz) % 2 ^ 32 ≡ fs.fd.pos + sz
      wrap = omega arith

      other : (fs.fd.pos / 4096 == (fs.fd.pos + sz) / 4096) ≡ false
      other = ground arith
