-- ===== src/Process/Init.antt =====
-- The initialisation of processes in init/main.c: `init_pready_queue` and `init_pcb`.
use mips_os.Common.{ℕ, zero, suc, ◌+◌, ◌-◌, ◌*◌, ◌<◌, ◌≡◌, refl, ap, ◌∙◌}
use mips_os.Common.{inl, inr, false, none, some}
use mips_os.Common.{List, [], ◌∷◌, arith, ltb, ◌==◌, if◌then◌else◌, update}
use mips_os.Common.{==_self, Bool-cases}
use mips_os.Common.{Outcome, Ends}
use mips_os.Common.{Ends, Ends-map}
use mips_os.Queue.{Ptr}
use mips_os.Sched.{
  Pcb, Kernel, task_ready, task_create, user_process, kernel_process, set_pcb, num_max_task,
  max_priority_num,
}
use mips_os.Sched.Wake.{increase_priority_upper_bound}
use mips_os.Sched.Sound.{Holds}
use mips_os.Process.{
  TaskInfo, with_stack, reset_pcb, find_vacant, given, create_proc_with_priority,
  do_spawn_with_priority,
}
use mips_os.Process.Create.{do_spawn_with_priority-readied}

unfoldable pub init_pready_queue : Kernel → Kernel
init_pready_queue k = record k {
  counter = λ i. if ltb i max_priority_num then 0 else k.counter i;
  upper_bound = λ i. if ltb i max_priority_num then 0 else k.upper_bound i;
}

-- `STK_UNMAPPED_BASE - i * 16 KB` for the kernel stacks, and 16 stacks below for the user stacks.
abbrev pub kernel_stack : ℕ → ℕ
kernel_stack i = 2700083200 - i * 16384

abbrev pub user_stack : ℕ → ℕ
user_stack i = 2699821056 - i * 16384

-- A round of the loop of `init_pcb`.
unfoldable pub init_block : ℕ → Kernel → Kernel
init_block i k =
    let k = reset_pcb i k in
    let p = k.pcb i in
    set_pcb i
      (record p {
        kernel_stack_top = kernel_stack i;
        user_stack_top = user_stack i;
        kernel_context = with_stack p.kernel_context (kernel_stack i);
        user_context = with_stack p.user_context (user_stack i);
      })
      k

-- The rounds below `n`.
unfoldable pub init_blocks : ℕ → Kernel → Kernel
init_blocks zero k = k
init_blocks (suc n) k = init_block n (init_blocks n k)

-- "kernel" and "shell".
abbrev pub kernel_name : List ℕ
kernel_name = 107 ∷ 101 ∷ 114 ∷ 110 ∷ 101 ∷ 108 ∷ []

abbrev pub shell_name : List ℕ
shell_name = 115 ∷ 104 ∷ 101 ∷ 108 ∷ 108 ∷ []

-- The first process made the running one. When no block is vacant the source leaves NULL, and the
-- shell is spawned all the same.
abbrev pub run_first : Ptr × Kernel → Kernel
run_first (none, k) = k
run_first (some tmp, k) =
    record (set_pcb tmp (record (k.pcb tmp) { type = kernel_process; name = kernel_name }) k) {
      current_running = tmp;
    }

-- `shell` is the entry point of the shell.
unfoldable pub init_pcb : (handler_exit shell : ℕ) → Kernel → Outcome Kernel
init_pcb handler_exit shell k =
    do_spawn_with_priority handler_exit
      (record { name = shell_name; entry_point = shell; type = user_process }) 0
      (run_first (create_proc_with_priority 0 (init_blocks num_max_task k)))

-- The blocks below `n` are vacant and all queues are empty.
record Blank (n : ℕ) (k : Kernel) : Type 0 where
  vacant : (i : ℕ) → i < n → (k.pcb i).status ≡ task_create
  empty : (q : ℕ) → k.queues q ≡ record { head = none; tail = none }

init_block-Blank : (n : ℕ) (k : Kernel) → Blank n k → Blank (suc n) (init_block n k)
unfolding init_block reset_pcb
init_block-Blank n k b = record {
  vacant = λ i lt. elim (Bool-cases (i == n)) [
    | inl e ↦ rw (e, ==_self n) refl
    | inr e ↦ rw e (b.vacant i (ground arith))
  ];
  empty = λ q. elim (Bool-cases (q == 7 + n)) [ inl e ↦ rw e refl | inr e ↦ rw e (b.empty q) ];
}

init_blocks-Blank : (n : ℕ) (k : Kernel) → Blank 0 k → Blank n (init_blocks n k)
unfolding init_blocks
init_blocks-Blank zero k b = b
init_blocks-Blank (suc n) k b = init_block-Blank n (init_blocks n k) (init_blocks-Blank n k b)

find_first : (pcb : ℕ → Pcb) → (pcb 0).status ≡ task_create → find_vacant 16 0 pcb ≡ some 0
unfolding find_vacant
find_first pcb e = rw e refl

find_second :
    (pcb : ℕ → Pcb)
    → (pcb 0).status ≡ task_ready
    → (pcb 1).status ≡ task_create
    → find_vacant 16 0 pcb ≡ some 1
unfolding find_vacant
find_second pcb e f = rw (e, f) refl

-- From empty queues the initialisation ends well: process 0 runs and the shell, in block 1, is alone
-- in the ready queue of the highest response; every other queue is empty and the other blocks are
-- vacant.
pub init_pcb-Holds :
    (handler_exit shell : ℕ) (k : Kernel)
    → ((q : ℕ) → k.queues q ≡ record { head = none; tail = none })
    → Ends
        (λ new.
          Holds new.queues new.links (update (λ q. []) 0 (1 ∷ []))
          × (new.current_running ≡ 0)
          × ((new.pcb 0).type ≡ kernel_process)
          × ((new.pcb 1).status ≡ task_ready)
          × ((new.pcb 1).entry_point ≡ shell)
          × ((i : ℕ) → 1 < i → i < 16 → (new.pcb i).status ≡ task_create))
        (init_pcb handler_exit shell k)
unfolding init_pcb
init_pcb-Holds handler_exit shell k e =
    rw (pair, init_pcb)
      (Ends-map _ _ (do_spawn_with_priority handler_exit task 0 booted)
        (do_spawn_with_priority-readied handler_exit task 0 booted (λ q. []) 1 held (omega arith)
          (find_second booted.pcb ready (rest 1 (omega arith) (omega arith))) (λ q. refl))
        λ new (h, stat, _, entry, cur, same). (
          h,
          cur ∙ (unfold increase_priority_upper_bound in refl),
          ap (λ (p : Pcb). p.type) (same 0 (omega arith)) ∙ kernel,
          stat,
          entry,
          λ i low high.
              ap (λ (p : Pcb). p.status) (same i (omega arith)) ∙ rest i (omega arith) high,
        ))
  where
    task : TaskInfo
    task = record { name = shell_name; entry_point = shell; type = user_process }

    start : Kernel
    start = init_blocks 16 k

    blank : Blank 16 start
    blank = init_blocks-Blank 16 k (record { vacant = λ i lt. absurd (omega arith); empty = e })

    made : Kernel
    made = increase_priority_upper_bound 0 (given 0 (some 0) start)

    pair : create_proc_with_priority 0 (init_blocks 16 k) ≡ (some 0, made)
    pair =
        unfold create_proc_with_priority in
        rw (find_first start.pcb (blank.vacant 0 (omega arith))) refl

    booted : Kernel
    booted = run_first (some 0, made)

    ready : (booted.pcb 0).status ≡ task_ready
    ready = unfold increase_priority_upper_bound in refl

    kernel : (booted.pcb 0).type ≡ kernel_process
    kernel = unfold increase_priority_upper_bound in refl

    rest : (i : ℕ) → 0 < i → i < 16 → (booted.pcb i).status ≡ task_create
    rest i low high =
        unfold increase_priority_upper_bound in
        let ne : (i == 0) ≡ false = ground arith in rw ne (blank.vacant i high)

    held : Holds booted.queues booted.links (λ q. [])
    held =
        unfold increase_priority_upper_bound in
        record {
          queued = λ q.
              rw (blank.empty q) (record { head = refl; tail = refl; linked = tt; distinct = tt });
          apart = λ q r a on also. absurd (ground arith);
          inside = λ q a on. absurd (ground arith);
        }
