-- ===== src/Fs/File/RoundTrip.antt =====
-- Writing to a file and reading back what was written.
use mips_os.Common.{ℕ, suc, ◌+◌, ◌/◌, ◌^◌, ◌≤◌, ◌<◌, ◌≡◌, ap, ◌∙◌}
use mips_os.Common.{arith}
use mips_os.Common.{Outcome, ok, fault, hang, ◌>>=◌}
use mips_os.Fs.{Fs, mkfs_super_block}
use mips_os.Fs.Card.{Card}
use mips_os.Fs.File.{blocks_of, do_fwrite, do_fread, do_fseek}
use mips_os.Fs.File.Read.{Read, do_fread_within}
use mips_os.Fs.File.Write.{Wrote, do_fwrite_within}

module _ (card : Card) (nodes_addr : ℕ) where
  -- `fwrite`, `fseek` back to where the write began, and `fread` of as many bytes.
  abbrev pub write_and_read :
      (fuel at to sz : ℕ) → (user dst : ℕ → ℕ) → Fs card.Disk → Outcome ((ℕ → ℕ) × Fs card.Disk)
  write_and_read fuel at to sz user dst fs = do
    fs' ← do_fwrite card nodes_addr (suc fuel) 0 user at sz fs
    fs'' ← do_fseek card 0 fs.fd.pos fs'
    do_fread card (suc fuel) 0 to sz (dst, fs'')

  -- A run that ends well with `sz` bytes of `user` from `at` in the buffer from `to`.
  abbrev pub Returned : (at to sz : ℕ) → (ℕ → ℕ) → Outcome ((ℕ → ℕ) × Fs card.Disk) → Type 0
  Returned at to sz user (ok (new, _)) = (i : ℕ) → i < sz → new (to + i) ≡ user (at + i)
  Returned at to sz user fault = ⊥
  Returned at to sz user hang = ⊥

  read_back :
      (fuel at to sz : ℕ) (user dst : ℕ → ℕ) (fs new : Fs card.Disk)
      → (fs.nodes fs.fd.node).size + sz < 2 ^ 32
      → fs.fd.pos ≤ (fs.nodes fs.fd.node).size
      → fs.fd.pos < 65536
      → fs.fd.pos / 4096 ≡ (fs.fd.pos + sz) / 4096
      → Wrote card nodes_addr user at sz fs (ok new)
      → Returned at to sz user
          (do fs'' ← do_fseek card 0 fs.fd.pos new; do_fread card (suc fuel) 0 to sz (dst, fs''))
  unfolding do_fseek
  read_back fuel at to sz user dst fs new fits inside low one (bytes, _, fd, size, _, _) =
      go (do_fread card (suc fuel) 0 to sz (dst, back)) (
        do_fread_within card fuel to sz dst back (omega (arith, grown)) (omega (arith, grown)) low
          one)
    where
      back : Fs card.Disk
      back = record new { fd = record (new.fd) { pos = fs.fd.pos } }

      node : new.fd.node ≡ fs.fd.node
      node = ap (λ d. d.node) fd

      grown : (new.nodes new.fd.node).size ≡ (fs.nodes fs.fd.node).size + sz
      grown = ap (λ (n : ℕ). (new.nodes n).size) node ∙ size ∙ omega arith

      go :
          (r : Outcome ((ℕ → ℕ) × Fs card.Disk))
          → Read card to sz dst back r
          → Returned at to sz user r
      go (ok (out, _)) (got, _, _, _, _) = λ i h. got i h ∙ bytes i h
      go fault h = h
      go hang h = h

  -- What is written in place inside a block and then read from the same position comes back, byte
  -- for byte: both runs end well. The conditions are those of a write in place, and the position lies
  -- in the file, whose size leaves room for the growth that the write causes.
  pub write_and_read-Returned :
      (fuel at to sz : ℕ) (user dst : ℕ → ℕ) (fs : Fs card.Disk)
      → fs.super_block ≡ mkfs_super_block
      → nodes_addr < 2 ^ 32
      → fs.fd.node < 8192
      → fs.fd.pos < 65536
      → mkfs_super_block.data_start ≤ (fs.nodes fs.fd.node).direct (fs.fd.pos / 4096)
      → fs.fd.pos / 4096 ≡ (fs.fd.pos + sz) / 4096
      → blocks_of (fs.fd.pos + sz) ≤ blocks_of (fs.nodes fs.fd.node).size
      → (fs.nodes fs.fd.node).size + sz < 2 ^ 32
      → fs.fd.pos ≤ (fs.nodes fs.fd.node).size
      → Returned at to sz user (write_and_read fuel at to sz user dst fs)
  write_and_read-Returned fuel at to sz user dst fs made addr small low placed one room fits
        inside =
      go (do_fwrite card nodes_addr (suc fuel) 0 user at sz fs)
        (do_fwrite_within card nodes_addr fuel at sz user fs made addr small low placed one room)
    where
      go :
          (r : Outcome (Fs card.Disk))
          → Wrote card nodes_addr user at sz fs r
          → Returned at to sz user (
              r >>= λ fs'. do
                fs'' ← do_fseek card 0 fs.fd.pos fs'
                do_fread card (suc fuel) 0 to sz (dst, fs''))
      go (ok new) w = read_back fuel at to sz user dst fs new fits inside low one w
      go fault w = w
      go hang w = w
