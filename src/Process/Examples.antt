-- ===== src/Process/Examples.antt =====
-- The scheduler, lock and process theorems at a kernel where process 0 runs, 2 (which has exited) and
-- 1 are in the ready queue of priority 1, 3 waits for the lock 0, and 4 and 5 for the semaphore 0.
use mips_os.Common.{ℕ, ◌+◌, ◌*◌, ◌%◌, ◌^◌, ◌<◌, ◌≡◌, refl}
use mips_os.Common.{◌≢◌, inl, inr, true, false, none, some}
use mips_os.Common.{List, [], ◌∷◌, arith, ltb, ◌==◌, if◌then◌else◌, update}
use mips_os.Common.{Bool-cases}
use mips_os.Common.{Ends, first, last_from, has}
use mips_os.Common.{Ends}
use mips_os.Queue.{Links}
use mips_os.Sched.{
  Pcb, RegsContext, Kernel, Status, task_running, task_ready, task_blocked, task_exited,
  task_create, user_process,
}
use mips_os.Sched.Select.{scheduler, do_block}
use mips_os.Sched.Wake.{clamp, do_unblock_one}
use mips_os.Sched.Sound.{Holds, IsFree, Leaves}
use mips_os.Sched.Invoke.{roused, woken, do_unblock_one-woken}
use mips_os.Sched.Invariant.{IsSound}
use mips_os.Sched.Next.{Scheduled, chosen_queue}
use mips_os.Sched.Scheduled.{scheduler-Scheduled}
use mips_os.Sched.Block.{Descheduled, do_block-Descheduled}
use mips_os.Locks.{do_mutex_lock_acquire, do_mutex_lock_release, do_semaphore_up, do_semaphore_down}
use mips_os.Locks.Release.{one_woken, do_semaphore_up-one_woken, do_mutex_lock_release-one_woken}
use mips_os.Locks.Wait.{
  Acquired, Lowered, do_mutex_lock_acquire-Acquired, do_semaphore_down-Lowered,
}
use mips_os.Process.{TaskInfo, create_proc_with_priority}
use mips_os.Process.Create.{Created, create_proc_with_priority-Created}
use mips_os.Sched.{kernel_process}
use mips_os.Process.Init.{init_pcb, init_pcb-Holds}

abbrev zero_context : RegsContext
zero_context = record {
  regs = λ _. 0;
  cp0_status = 0;
  hi = 0;
  lo = 0;
  cp0_badvaddr = 0;
  cp0_cause = 0;
  cp0_epc = 0;
  pc = 0;
}

abbrev status_of : ℕ → Status
status_of i =
    if i == 0
    then task_running
    else if i == 1
    then task_ready
    else if i == 2
    then task_exited
    else if ltb i 6
    then task_blocked
    else task_create

abbrev block : ℕ → Pcb
block i = record {
  kernel_context = zero_context;
  user_context = zero_context;
  pid = i;
  kernel_stack_top = 0;
  user_stack_top = 0;
  name = [];
  entry_point = 0;
  locks = λ _. none;
  type = user_process;
  status = status_of i;
  awake_time = 0;
  cursor_x = 0;
  cursor_y = 0;
  priority = 1;
  waiting_desc = 0;
}

abbrev pub content : ℕ → List ℕ
content q =
    if q == 1 then 2 ∷ 1 ∷ [] else if q == 23 then 3 ∷ [] else if q == 24 then 4 ∷ 5 ∷ [] else []

abbrev links : Links
links = record {
  prev = update (update (λ _. none) 1 (some 2)) 5 (some 4);
  next = update (update (λ _. none) 2 (some 1)) 4 (some 5);
}

abbrev pub kernel : Kernel
kernel = record {
  pcb = block;
  links = links;
  queues = λ q. record { head = first (content q); tail = last_from none (content q) };
  current_running = 0;
  last_sel_index = some 1;
  glb_sched_cnt = 0;
  glb_sched_bound = 5;
  counter = λ _. 0;
  upper_bound = λ _. 10;
  screen_cursor_x = 0;
  screen_cursor_y = 0;
  time_elapsed = 0;
  tdes0 = λ _. 0;
  mutexes = λ _. record { locked = true; is_init = 1; lock_id = 0 };
  lock_cnt = 1;
  semaphores = λ _. record { value = 4294967294; initialized = 1 };
  conditions = λ _. 1;
  barriers = λ _. record { initialized = 0; cur_val = 0; bound = 2 };
}

kernel-Holds : Holds kernel.queues kernel.links content
kernel-Holds = record {
  queued = λ q. elim (Bool-cases (q == 1)) [
    | inl e ↦ rw e (record {
      head = refl;
      tail = refl;
      linked = (refl, refl, (refl, refl, tt));
      distinct = (refl, (refl, tt));
    })
    | inr e ↦ rw e (elim (Bool-cases (q == 23)) [
      | inl f ↦
          rw f
            (record { head = refl; tail = refl; linked = (refl, refl, tt); distinct = (refl, tt) })
      | inr f ↦ rw f (elim (Bool-cases (q == 24)) [
        | inl g ↦ rw g (record {
          head = refl;
          tail = refl;
          linked = (refl, refl, (refl, refl, tt));
          distinct = (refl, (refl, tt));
        })
        | inr g ↦ rw g (record { head = refl; tail = refl; linked = tt; distinct = tt })
      ])
    ])
  ];
  apart = λ q r a on also. ground arith;
  inside = λ q a on. ground arith;
}

pub kernel-IsSound : IsSound kernel content
kernel-IsSound = record {
  holds = kernel-Holds;
  in_range = λ i. omega arith;
  small = omega arith;
  running = λ e q. ground arith;
  not_ready = λ i lt. ground arith;
}

IsFree-of : (i : ℕ) → 5 < i → IsFree content i
IsFree-of i h q = ground arith

first_out : (r : ℕ) → has 0 (content r) ≡ false
first_out r = ground arith

scheduler-Scheduled_example :
    Ends (Scheduled kernel content (chosen_queue kernel content 1)) (scheduler kernel)
scheduler-Scheduled_example = scheduler-Scheduled kernel content 1 kernel-IsSound refl

do_block-Descheduled_example :
    Ends
      (λ new. Descheduled 27 kernel content 1 new × ((new.pcb 0).status ≡ task_blocked))
      (do_block 27 kernel)
do_block-Descheduled_example =
    do_block-Descheduled 27 kernel content 1 kernel-IsSound refl (omega arith) (λ r ne. first_out r)

do_unblock_one-woken_example :
    Leaves
      (roused (some 3) kernel)
      (woken kernel.pcb content 23 (3 ∷ []))
      (do_unblock_one 23 kernel)
do_unblock_one-woken_example =
    do_unblock_one-woken kernel content 23 kernel-Holds (λ i. omega arith)

do_mutex_lock_release-one_woken_example :
    Ends
      (λ new.
        ((new.mutexes 0).locked ≡ false)
        × ((j : ℕ) → j ≢ 0 → new.mutexes j ≡ kernel.mutexes j)
        × Holds new.queues new.links (one_woken kernel.pcb content 23))
      (do_mutex_lock_release 0 kernel)
do_mutex_lock_release-one_woken_example =
    do_mutex_lock_release-one_woken 0 kernel content kernel-Holds (λ i. omega arith)

do_semaphore_up-one_woken_example :
    Ends
      (λ new.
        ((new.semaphores 0).value ≡ 4294967295)
        × Holds new.queues new.links (one_woken kernel.pcb content 24))
      (do_semaphore_up 0 kernel)
do_semaphore_up-one_woken_example =
    do_semaphore_up-one_woken 0 kernel content kernel-Holds (λ i. omega arith)

do_mutex_lock_acquire-Acquired_example :
    Ends (Acquired 0 kernel content 1) (do_mutex_lock_acquire 0 kernel)
do_mutex_lock_acquire-Acquired_example =
    do_mutex_lock_acquire-Acquired 0 kernel content 1 kernel-IsSound refl (λ r ne. first_out r)

do_semaphore_down-Lowered_example : Ends (Lowered 0 kernel content 1) (do_semaphore_down 0 kernel)
do_semaphore_down-Lowered_example =
    do_semaphore_down-Lowered 0 kernel content 1 kernel-IsSound refl (λ r ne. first_out r)

create_proc_with_priority-Created_example :
    let r = create_proc_with_priority 3 kernel in
    Created (clamp 3) kernel r.0 r.1
    × (clamp 3 < 5)
    × (r.1.upper_bound (clamp 3) ≡ (kernel.upper_bound (clamp 3) + 3 * (clamp 3 + 1)) % 2 ^ 32)
    × (r.1.queues ≡ kernel.queues)
    × (r.1.links ≡ kernel.links)
create_proc_with_priority-Created_example = create_proc_with_priority-Created 3 kernel

abbrev full_task : TaskInfo
full_task = record { name = 97 ∷ []; entry_point = 4096; type = user_process }

-- The kernel with the exited process taken as still present, so that 6 is the first vacant block.
abbrev fresh : Kernel
fresh = record kernel { pcb = update block 2 (record (block 2) { status = task_ready }) }

-- Before the initialisation: no process is queued.
abbrev idle : Kernel
idle = record kernel { queues = λ q. record { head = none; tail = none } }

init_pcb-Holds_example :
    Ends
      (λ new.
        Holds new.queues new.links (update (λ q. []) 0 (1 ∷ []))
        × (new.current_running ≡ 0)
        × ((new.pcb 0).type ≡ kernel_process)
        × ((new.pcb 1).status ≡ task_ready)
        × ((new.pcb 1).entry_point ≡ 8192)
        × ((i : ℕ) → 1 < i → i < 16 → (new.pcb i).status ≡ task_create))
      (init_pcb 64 8192 idle)
init_pcb-Holds_example = init_pcb-Holds 64 8192 idle (λ q. refl)
