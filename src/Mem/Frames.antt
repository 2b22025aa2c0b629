-- ===== src/Mem/Frames.antt =====
-- The stack of page frames of kernel/mm/memory.c: the order in which frames are handed out.
use mips_os.Common.{ℕ, zero, suc, ◌+◌, ◌-◌, ◌*◌, ◌%◌, ◌^◌, ◌≤◌, ◌<◌, ◌≡◌, refl, ap, subst}
use mips_os.Common.{◌⊎◌, true, ◌&&◌}
use mips_os.Common.{arith, ltb, leb, if◌then◌else◌, update}
use mips_os.Common.{lt→ltb, ==_self}
use mips_os.Common.{Outcome, ok, ◌>>=◌, Ends}
use mips_os.Common.{Ends}
use mips_os.Mem.{Memory, fill_frames, do_mem_init, kalloc, kfree}

fill_frames_at :
    (left i start : ℕ) (frames : ℕ → ℕ) (j : ℕ)
    → start + 4096 * left < 2 ^ 32
    → fill_frames left i start frames j
      ≡ (if leb i j && ltb j (i + left) then start + 4096 * (j - i) else frames j)
unfolding fill_frames
fill_frames_at zero i start frames j h = ground arith
fill_frames_at (suc left) i start frames j h =
    let wrap : (start + 4096) % 2 ^ 32 ≡ start + 4096 = omega arith in
    rw (wrap, fill_frames_at left (i + 1) (start + 4096) (update frames i start) j (omega arith))
      (ground arith)

-- `n` allocations in a row, with the last frame that was given.
abbrev pub kalloc_many : ℕ → ℕ → Memory → Outcome (ℕ × Memory)
kalloc_many zero last m = ok (last, m)
kalloc_many (suc n) last m = do r ← kalloc m; kalloc_many n r.0 r.1

-- The frame `frame`, zeroed.
abbrev pub Handed : ℕ → ℕ × Memory → Type 0
Handed frame (addr, new) = (addr ≡ frame) × ((a : ℕ) → addr ≤ a → a < addr + 4096 → new.word a ≡ 0)

kalloc_many_at :
    (n last : ℕ) (m : Memory)
    → m.top + suc n ≤ 2047
    → Ends (Handed (m.empty_frame (m.top + n))) (kalloc_many (suc n) last m)
unfolding kalloc
kalloc_many_at zero last m h =
    rw (lt→ltb m.top 2047 (omega arith)) (ap m.empty_frame (omega arith), λ a le lt. ground arith)
kalloc_many_at (suc n) last m h =
    let e : m.top + suc n ≡ m.top + 1 + n = omega arith in
    rw (lt→ltb m.top 2047 (omega arith), e)
      (kalloc_many_at n (m.empty_frame m.top)
        (record m {
          top = m.top + 1;
          word = λ a.
              if leb (m.empty_frame m.top) a && ltb a (m.empty_frame m.top + 4096)
              then 0
              else m.word a;
        })
        (omega arith))

frame_at :
    (n : ℕ) (frames : ℕ → ℕ)
    → n < 2047
    → fill_frames 2048 0 2693726208 frames (0 + n) ≡ 2693726208 + 4096 * n
frame_at n frames h =
    let e : 0 + n ≡ n = omega arith in
    let inside : (leb 0 n && ltb n 2048) ≡ true = ground arith in
    let d : n - 0 ≡ n = omega arith in
    rw (e, fill_frames_at 2048 0 2693726208 frames n (omega arith), inside, d) refl

-- From a fresh start the frames are handed out in the order of their addresses, each zeroed, up to
-- the 2047th: allocation number `n`, counted from 0, gives the frame `n`.
pub kalloc_many-do_mem_init :
    (n last : ℕ) (m : Memory)
    → n < 2047
    → Ends (Handed (2693726208 + 4096 * n)) (kalloc_many (suc n) last (do_mem_init m))
unfolding do_mem_init
kalloc_many-do_mem_init n last m h =
    subst (λ frame. Ends (Handed frame) (kalloc_many (suc n) last (do_mem_init m)))
      (frame_at n m.empty_frame h) (kalloc_many_at n last (do_mem_init m) (omega arith))

-- A frame that is given back is the next one to be handed out, zeroed; the stack is then as it was.
pub kalloc-kfree :
    (paddr : ℕ) (m : Memory)
    → 0 < m.top
    → m.top ≤ 2047
    → Ends
        (λ (addr, new).
          (addr ≡ paddr)
          × (new.top ≡ m.top)
          × ((i : ℕ) → m.top ≤ i → new.empty_frame i ≡ m.empty_frame i)
          × ((a : ℕ) → paddr ≤ a → a < paddr + 4096 → new.word a ≡ 0)
          × ((a : ℕ) → (a < paddr) ⊎ (paddr + 4096 ≤ a) → new.word a ≡ m.word a))
        (kalloc (kfree paddr m))
unfolding kalloc kfree
kalloc-kfree paddr m low high = rw (lt→ltb 0 m.top low) (
    rw (lt→ltb (m.top - 1) 2047 (omega arith), ==_self (m.top - 1))
      (refl, omega arith, λ i le. ground arith, λ a le lt. ground arith, λ a far. ground arith))
