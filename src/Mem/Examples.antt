-- ===== src/Mem/Examples.antt =====
-- The memory theorems at a memory whose frames are all 0 and whose words are their addresses.
use mips_os.Common.{ℕ, ◌+◌, ◌*◌, ◌≤◌, ◌<◌, ◌≡◌}
use mips_os.Common.{◌⊎◌}
use mips_os.Common.{arith}
use mips_os.Common.{Ends}
use mips_os.Common.{Ends}
use mips_os.Mem.{Memory, do_mem_init, kalloc, kfree}
use mips_os.Mem.Frames.{kalloc_many, Handed, kalloc_many-do_mem_init, kalloc-kfree}

abbrev memory : Memory
memory = record { empty_frame = λ _. 0; top = 3; word = λ a. a; secondary_pt = λ _ _. 0 }

kalloc_many-do_mem_init_example :
    Ends (Handed (2693726208 + 4096 * 5)) (kalloc_many 6 0 (do_mem_init memory))
kalloc_many-do_mem_init_example = kalloc_many-do_mem_init 5 0 memory (omega arith)

kalloc-kfree_example :
    Ends
      (λ (addr, new).
        (addr ≡ 8192)
        × (new.top ≡ 3)
        × ((i : ℕ) → 3 ≤ i → new.empty_frame i ≡ memory.empty_frame i)
        × ((a : ℕ) → 8192 ≤ a → a < 8192 + 4096 → new.word a ≡ 0)
        × ((a : ℕ) → (a < 8192) ⊎ (8192 + 4096 ≤ a) → new.word a ≡ memory.word a))
      (kalloc (kfree 8192 memory))
kalloc-kfree_example = kalloc-kfree 8192 memory (omega arith) (omega arith)
