-- ===== src/Mem.antt =====
-- kernel/mm/memory.c and include/os/mm.h: the stack of page frames, the arithmetic of addresses, and
-- the page tables. Memory is a function from the address of a word to the word. A page table is named
-- by its address, with 0 for NULL. A `kalloc` without a frame returns no value, which is a fault.
pub mod Frames
pub mod Examples
use mips_os.Common.{
  ℕ, zero, suc, ◌+◌, ◌-◌, ◌*◌, ◌/◌, ◌%◌, ◌^◌, ◌≤◌, ◌<◌, ◌≡◌, refl, sym, ap, ◌∙◌, subst, fun_ext,
}
use mips_os.Common.{◌≢◌, ◌↔◌, ◌⊎◌, inl, inr, Bool, true, false, not, ◌&&◌, ◌||◌, Option, none, some}
use mips_os.Common.{
  List, [], ◌∷◌, ◌++◌, map, arith, ltb, leb, ◌==◌, if◌then◌else◌, update, points_to,
}
use mips_os.Common.{
  ltb→lt, ltb→le, lt→ltb, le→ltb, ==_iff, ==_self, update_self, update_other, Bool-cases,
  Option-cases,
}
use mips_os.Common.{
  Outcome, ok, fault, hang, ◌>>=◌, >>=-fault, >>=-returns, Ends, Ends-bind, length, get_elem?, set,
  first, last_from, length-append, has, Distinct, has-append,
}
use mips_os.Sched.{Kernel}
use mips_os.Process.{get_proc_by_pid}

abbrev pub frame_num : ℕ
frame_num = 2048

abbrev pub page_size : ℕ
page_size = 4096

-- `0xa08f0000`.
abbrev pub first_frame : ℕ
first_frame = 2693726208

-- `secondary_pt` is that of each process, by its index.
pub record Memory : Type 0 where
  pub empty_frame : ℕ → ℕ
  pub top : ℕ
  pub word : ℕ → ℕ
  pub secondary_pt : ℕ → ℕ → ℕ

unfoldable pub get_vpn2 : ℕ → ℕ
get_vpn2 vaddr = vaddr / 8192

unfoldable pub get_vpn : ℕ → ℕ
get_vpn vaddr = vaddr / 4096

unfoldable pub get_pfn : ℕ → ℕ
get_pfn paddr = paddr / 4096

-- `unmapped & ~(PAGE_SIZE - 1)` and `unmapped & 0xffffff`.
unfoldable pub get_frame_start : ℕ → ℕ
get_frame_start unmapped = unmapped - unmapped % page_size

unfoldable pub get_paddr : ℕ → ℕ
get_paddr unmapped = unmapped % 2 ^ 24

unfoldable pub get_first_level_index : ℕ → ℕ
get_first_level_index vpn = vpn / 512

unfoldable pub get_second_level_index : ℕ → ℕ
get_second_level_index vpn = vpn % 512

-- `COMPRESS_ENTRYLO(pfn, 2, 1, 1, global)`, whose parts share no bit.
abbrev pub compress_entrylo : ℕ → ℕ → ℕ
compress_entrylo pfn global = (pfn * 64) % 2 ^ 32 + 2 * 8 + 1 * 4 + 1 * 2 + global

-- The loop of `do_mem_init`, with `left` frames to go from `i`.
unfoldable pub fill_frames : ℕ → ℕ → ℕ → (ℕ → ℕ) → ℕ → ℕ
fill_frames zero i start frames = frames
fill_frames (suc left) i start frames =
    fill_frames left (i + 1) ((start + page_size) % 2 ^ 32) (update frames i start)

unfoldable pub do_mem_init : Memory → Memory
do_mem_init m = record m {
  empty_frame = fill_frames frame_num 0 first_frame m.empty_frame;
  top = 0;
}

unfoldable pub kalloc : Memory → Outcome (ℕ × Memory)
kalloc m =
    let addr = m.empty_frame m.top in
    if ltb m.top (frame_num - 1)
    then ok (
      addr,
      record m {
        top = m.top + 1;
        word = λ a. if leb addr a && ltb a (addr + page_size) then 0 else m.word a;
      },
    )
    else fault

-- `paddr_ok` is always true.
unfoldable pub kfree : ℕ → Memory → Memory
kfree paddr m =
    if ltb 0 m.top
    then record m { empty_frame = update m.empty_frame (m.top - 1) paddr; top = m.top - 1 }
    else m

-- The address of an entry of eight bytes, or `none` for NULL. `secondary_pt` has 1024 elements.
unfoldable pub querry_pte : Kernel → Memory → (vpn pid : ℕ) → Outcome (Option ℕ)
querry_pte k m vpn pid = elim (get_proc_by_pid k pid) [
  | none ↦ fault
  | some proc ↦
      let second = m.secondary_pt proc (get_first_level_index vpn) in
      if not (ltb (get_first_level_index vpn) 1024)
      then fault
      else if second == 0
      then ok none
      else ok (some (second + 8 * get_second_level_index vpn))
]

-- The second-level table of `proc` at `fst`, allocated when there is none.
unfoldable pub table_of : ℕ → ℕ → Memory → Outcome (ℕ × Memory)
table_of proc fst m =
    let fresh : Outcome (ℕ × Memory) = (do
      r ← kalloc m
      ok (
        r.0,
        record r.1 {
          secondary_pt = update r.1.secondary_pt proc (update (r.1.secondary_pt proc) fst r.0);
        },
      )) in
    if not (ltb fst 1024)
    then fault
    else if m.secondary_pt proc fst == 0
    then fresh
    else ok (m.secondary_pt proc fst, m)

-- The half of `add_2_page` for the page at `base`.
unfoldable pub add_page : ℕ → ℕ → Memory → Outcome Memory
add_page proc base m =
    let vpn = get_vpn base in
    let sec = get_second_level_index vpn in
    (do
      t ← table_of proc (get_first_level_index vpn) m
      r ← kalloc t.1
      let pte = t.0 + 8 * sec
      ok (record r.1 {
        word =
            update (update r.1.word pte vpn) (pte + 4)
              (compress_entrylo (get_pfn (get_paddr r.0)) 0);
      }))

unfoldable pub add_2_page : Kernel → (vpn2 pid : ℕ) → Memory → Outcome Memory
add_2_page k vpn2 pid m = elim (get_proc_by_pid k pid) [
  | none ↦ fault
  | some proc ↦ do
    m ← add_page proc (vpn2 * 8192 % 2 ^ 32) m
    add_page proc ((vpn2 * 8192 % 2 ^ 32 + page_size) % 2 ^ 32) m
]

unfoldable pub page_miss_handler : Kernel → ℕ → Memory → Outcome Memory
page_miss_handler k vpn2 m = add_2_page k vpn2 (k.pcb k.current_running).pid m

-- The half of `do_page_table_static_init` for the page at `base`, of the running process, whose block
-- lies at `current`: the pointer is passed to `querry_PTE` as a number.
unfoldable pub static_page : Kernel → (current base : ℕ) → Memory → Outcome (Option ℕ × Memory)
static_page k current base m =
    let vpn = get_vpn base in
    let fst = get_first_level_index vpn in
    let proc = k.current_running in
    (do
      t ← kalloc m
      r ← kalloc t.1
      let pfn = get_pfn (get_paddr (get_frame_start r.0))
      let pte = t.0 + 8 * get_second_level_index vpn
      let m' = record r.1 {
        secondary_pt = update r.1.secondary_pt proc (update (r.1.secondary_pt proc) fst t.0);
        word = update (update r.1.word pte vpn) (pte + 4) (compress_entrylo pfn 1);
      }
      q ← querry_pte k m' vpn current
      ok (q, m'))

-- Up to the write to the TLB, with the entries that it is given.
unfoldable pub do_page_table_static_init :
    Kernel → ℕ → Memory → Outcome (Option ℕ × Option ℕ × Memory)
do_page_table_static_init k current m = do
  a ← static_page k current 0x40000000 m
  b ← static_page k current (0x40000000 + page_size) a.1
  ok (a.0, b.0, b.1)
