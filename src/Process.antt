-- ===== src/Process.antt =====
-- Processes in kernel/sched/sched.c: creation, exit, killing and waiting. What the operations print is
-- left out, and the arguments of a spawned process, which the source only counts. A `pid_t` is its
-- 32-bit word, so that a negative one lies above every index.
pub mod Create
pub mod Init
pub mod Examples
use mips_os.Common.{
  ℕ, zero, suc, ◌+◌, ◌-◌, ◌*◌, ◌/◌, ◌%◌, ◌^◌, ◌≤◌, ◌<◌, ◌≡◌, refl, sym, ap, ◌∙◌, subst, fun_ext,
}
use mips_os.Common.{◌≢◌, ◌↔◌, ◌⊎◌, inl, inr, Bool, true, false, not, ◌&&◌, ◌||◌, Option, none, some}
use mips_os.Common.{
  List, [], ◌∷◌, ◌++◌, map, arith, ltb, leb, ◌==◌, if◌then◌else◌, update, points_to,
}
use mips_os.Common.{
  ltb→lt, ltb→le, lt→ltb, le→ltb, ==_iff, ==_self, update_self, update_other, Bool-cases,
  Option-cases,
}
use mips_os.Common.{
  Outcome, ok, fault, hang, ◌>>=◌, >>=-fault, >>=-returns, Ends, Ends-bind, length, get_elem?, set,
  first, last_from, length-append, has, Distinct, has-append,
}
use mips_os.Common.{get_elem?}
use mips_os.Queue.{Ptr, Queue, Links}
use mips_os.Sched.{
  Pcb, RegsContext, Kernel, Status, TaskType, task_running, task_blocked, task_ready, task_exited,
  task_create, kernel_process, user_process, set_pcb, set_status, push_on, take_from, ready_queue,
  proc_block_queue, is_exited, num_max_task, max_priority_num, max_lock_num_for_a_proc, minus_one,
  chain_bound,
}
use mips_os.Sched.Wake.{
  clamp, increase_priority_upper_bound, decrease_priority_upper_bound, invoke_blocked_proc,
}
use mips_os.Sched.Select.{scheduler, do_block}
use mips_os.Locks.{do_mutex_lock_release}

-- `task_info_t`.
pub record TaskInfo : Type 0 where
  pub name : List ℕ
  pub entry_point : ℕ
  pub type : TaskType

-- A status of a process that can be named by its number.
abbrev pub is_present : Status → Bool
is_present task_running = true
is_present task_blocked = true
is_present task_ready = true
is_present task_exited = false
is_present task_create = false

-- A status of a block that can be given to a new process.
abbrev pub is_vacant : Status → Bool
is_vacant task_create = true
is_vacant task_exited = true
is_vacant _ = false

abbrev pub is_kernel_process : TaskType → Bool
is_kernel_process kernel_process = true
is_kernel_process _ = false

unfoldable pub get_proc_by_pid : Kernel → ℕ → Ptr
get_proc_by_pid k pid =
    if not (ltb pid num_max_task)
    then none
    else if is_present (k.pcb pid).status
    then some pid
    else none

unfoldable pub reset_reg_context : RegsContext → RegsContext
reset_reg_context r = record r {
  regs = λ i. if ltb i 32 then 0 else r.regs i;
  cp0_badvaddr = 0;
  cp0_cause = 0;
  cp0_status = 0;
  hi = 0;
  lo = 0;
  pc = 0;
}

-- `regs[29] = regs[30] = stack_top`.
abbrev pub with_stack : RegsContext → ℕ → RegsContext
with_stack r stack_top = record r { regs = update (update r.regs 30 stack_top) 29 stack_top }

-- "unkown" and "unknown".
abbrev pub unkown_name : List ℕ
unkown_name = 117 ∷ 110 ∷ 107 ∷ 111 ∷ 119 ∷ 110 ∷ []

abbrev pub unknown_name : List ℕ
unknown_name = 117 ∷ 110 ∷ 107 ∷ 110 ∷ 111 ∷ 119 ∷ 110 ∷ []

unfoldable pub reset_pcb : ℕ → Kernel → Kernel
reset_pcb i k =
    let p = k.pcb i in
    record (set_pcb i
      (record p {
        kernel_stack_top = 0;
        user_stack_top = 0;
        cursor_x = 0;
        type = user_process;
        status = task_create;
        pid = 0;
        awake_time = minus_one;
        name = unkown_name;
        entry_point = 0;
        priority = 1;
        locks = λ j. if ltb j max_lock_num_for_a_proc then none else p.locks j;
        kernel_context = reset_reg_context p.kernel_context;
        user_context = reset_reg_context p.user_context;
      })
      k) {
        links = record (k.links) {
          prev = update (k.links).prev i none;
          next = update (k.links).next i none;
        };
        queues = update k.queues (proc_block_queue i) (record { head = none; tail = none });
      }

-- The search of `create_proc_with_priority` from the block `i`.
unfoldable pub find_vacant : ℕ → ℕ → (ℕ → Pcb) → Option ℕ
find_vacant zero i pcb = none
find_vacant (suc left) i pcb =
    let rest = find_vacant left (i + 1) pcb in if is_vacant (pcb i).status then some i else rest

-- The block `i` given to a new process.
abbrev pub occupied : ℕ → ℕ → Pcb → Pcb
occupied i priority p = record p {
  pid = i;
  status = task_ready;
  priority = priority;
  kernel_context = with_stack p.kernel_context p.kernel_stack_top;
  user_context = with_stack p.user_context p.user_stack_top;
}

abbrev pub given : ℕ → Ptr → Kernel → Kernel
given priority none k = k
given priority (some i) k = set_pcb i (occupied i priority (k.pcb i)) k

unfoldable pub create_proc_with_priority : ℕ → Kernel → Ptr × Kernel
create_proc_with_priority priority k =
    let ret = find_vacant num_max_task 0 k.pcb in
    (ret, increase_priority_upper_bound (clamp priority) (given (clamp priority) ret k))

unfoldable pub create_proc : Kernel → Ptr × Kernel
create_proc k = create_proc_with_priority 1 k

-- `handler_exit` is the address of `exception_handler_exit`. The queue is that of the priority as it
-- is passed.
abbrev pub start_task : ℕ → TaskInfo → ℕ → Ptr × Kernel → Outcome Kernel
start_task handler_exit task priority (none, k) = ok k
start_task handler_exit task priority (some tmp, k) = do
  q ← ready_queue priority
  k ← push_on q tmp k
  let p = k.pcb tmp
  ok (
      set_pcb tmp
        (record p {
          entry_point = task.entry_point;
          type = task.type;
          kernel_context = record (p.kernel_context) {
            regs = update (p.kernel_context).regs 31 handler_exit;
          };
          user_context = record (p.user_context) { cp0_epc = task.entry_point };
          name = task.name;
          cursor_x = k.screen_cursor_x;
          cursor_y = k.screen_cursor_y;
        })
        k)

unfoldable pub do_spawn_with_priority : ℕ → TaskInfo → ℕ → Kernel → Outcome Kernel
do_spawn_with_priority handler_exit task priority k =
    start_task handler_exit task priority (create_proc_with_priority priority k)

unfoldable pub do_spawn : ℕ → TaskInfo → Kernel → Outcome Kernel
do_spawn handler_exit task k = do_spawn_with_priority handler_exit task 1 k

-- The block of a process that exits or is killed.
unfoldable pub retired : Pcb → Pcb
retired p = record p {
  kernel_context = with_stack (reset_reg_context p.kernel_context) p.kernel_stack_top;
  user_context = with_stack (reset_reg_context p.user_context) p.user_stack_top;
  awake_time = minus_one;
  status = task_exited;
  entry_point = 0;
  name = unknown_name;
  priority = 1;
}

-- The loop that releases the locks of the process `proc`, from the slot `i`.
unfoldable pub release_locks : ℕ → ℕ → ℕ → Kernel → Outcome Kernel
release_locks zero i proc k = ok k
release_locks (suc left) i proc k = elim ((k.pcb proc).locks i) [
  | none ↦ release_locks left (i + 1) proc k
  | some lock ↦ do
    k ← do_mutex_lock_release lock k
    release_locks left (i + 1) proc
        (set_pcb proc (record (k.pcb proc) { locks = update (k.pcb proc).locks i none }) k)
]

-- The loop that wakes the processes that wait for `proc`.
unfoldable pub wake_waiters : ℕ → ℕ → Kernel → Outcome Kernel
wake_waiters zero proc k = hang
wake_waiters (suc fuel) proc k = do
  r ← take_from (proc_block_queue proc) k
  elim r.0 [
    | none ↦ ok r.1
    | some cur ↦ elim (is_exited (r.1.pcb cur).status) [
      | true ↦ wake_waiters fuel proc r.1
      | false ↦ do
        k ← invoke_blocked_proc (some cur) (set_status cur task_running r.1)
        wake_waiters fuel proc k
    ]
  ]

-- What `do_exit` and `do_kill` have in common.
unfoldable pub retire : ℕ → Kernel → Outcome Kernel
retire proc k = do
  k ← release_locks max_lock_num_for_a_proc 0 proc (set_pcb proc (retired (k.pcb proc)) k)
  k ← wake_waiters chain_bound proc k
  ok (decrease_priority_upper_bound (k.pcb proc).priority k)

unfoldable pub do_exit : Kernel → Outcome Kernel
do_exit k = do k ← retire k.current_running k; scheduler k

unfoldable pub do_kill : ℕ → Kernel → Outcome Kernel
do_kill pid k = elim (get_proc_by_pid k pid) [
  | none ↦ ok k
  | some proc ↦ elim (is_kernel_process (k.pcb proc).type) [ true ↦ ok k | false ↦ retire proc k ]
]

-- The search of `do_get_pid` from the block `i`; `none` is INVALID_PID.
unfoldable pub find_entry : ℕ → ℕ → (ℕ → Pcb) → ℕ → Option ℕ
find_entry zero i pcb entry_point = none
find_entry (suc left) i pcb entry_point =
    let rest = find_entry left (i + 1) pcb entry_point in
    if (pcb i).entry_point == entry_point then some (pcb i).pid else rest

unfoldable pub do_get_pid : ℕ → Kernel → Option ℕ
do_get_pid entry_point k = find_entry num_max_task 0 k.pcb entry_point

unfoldable pub do_waitpid : ℕ → Kernel → Outcome Kernel
do_waitpid pid k =
    if (pid == 0) || ltb num_max_task pid then ok k else elim (get_proc_by_pid k pid) [
      | none ↦ ok k
      | some proc ↦ do_block (proc_block_queue proc) k
    ]

-- `tasks` is the table `test_tasks`, and the arguments are left out.
unfoldable pub do_exec : ℕ → List TaskInfo → ℕ → Kernel → Outcome Kernel
do_exec handler_exit tasks task_id k = elim (get_elem? tasks task_id) [
  | none ↦ ok k
  | some task ↦ do_spawn handler_exit task k
]
