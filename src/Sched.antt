-- ===== src/Sched.antt =====
-- kernel/sched/sched.c and include/os/sched.h: the state of the scheduler and its access to the
-- queues. A `pcb_t *` is the index of the block in `pcb`, a `queue_t *` the number of the queue, and
-- a `mutex_lock_t *` the number of the lock.
pub mod Wake
pub mod Select
pub mod Sound
pub mod Unblock
pub mod Invoke
pub mod Awake
pub mod Invariant
pub mod Next
pub mod Switch
pub mod Scheduled
pub mod Block
use mips_os.Common.{
  ℕ, zero, suc, ◌+◌, ◌-◌, ◌*◌, ◌/◌, ◌%◌, ◌^◌, ◌≤◌, ◌<◌, ◌≡◌, refl, sym, ap, ◌∙◌, subst, fun_ext,
}
use mips_os.Common.{◌≢◌, ◌↔◌, ◌⊎◌, inl, inr, Bool, true, false, not, ◌&&◌, ◌||◌, Option, none, some}
use mips_os.Common.{
  List, [], ◌∷◌, ◌++◌, map, arith, ltb, leb, ◌==◌, if◌then◌else◌, update, points_to,
}
use mips_os.Common.{
  ltb→lt, ltb→le, lt→ltb, le→ltb, ==_iff, ==_self, update_self, update_other, Bool-cases,
  Option-cases,
}
use mips_os.Common.{
  Outcome, ok, fault, hang, ◌>>=◌, >>=-fault, >>=-returns, Ends, Ends-bind, length, get_elem?, set,
  first, last_from, length-append, has, Distinct, has-append,
}
use mips_os.Queue.{Ptr, Queue, Links, queue_push, queue_push_if_not_exist, queue_dequeue}

abbrev pub num_max_task : ℕ
num_max_task = 16

abbrev pub max_priority_num : ℕ
max_priority_num = 5

abbrev pub priority_factor : ℕ
priority_factor = 3

abbrev pub max_lock_num_for_a_proc : ℕ
max_lock_num_for_a_proc = 8

-- `(uint32_t)-1`.
abbrev pub minus_one : ℕ
minus_one = 4294967295

pub data Status : Type 0 where
  task_blocked : Status
  task_running : Status
  task_ready : Status
  task_exited : Status
  task_create : Status

pub data TaskType : Type 0 where
  kernel_process : TaskType
  kernel_thread : TaskType
  user_process : TaskType
  user_thread : TaskType

-- `regs_context_t`.
pub record RegsContext : Type 0 where
  pub regs : ℕ → ℕ
  pub cp0_status : ℕ
  pub hi : ℕ
  pub lo : ℕ
  pub cp0_badvaddr : ℕ
  pub cp0_cause : ℕ
  pub cp0_epc : ℕ
  pub pc : ℕ

-- `pcb_t`, without the page table and the descriptor of the open file. A name is a list of
-- characters, and NULL is the entry point 0.
pub record Pcb : Type 0 where
  pub kernel_context : RegsContext
  pub user_context : RegsContext
  pub pid : ℕ
  pub kernel_stack_top : ℕ
  pub user_stack_top : ℕ
  pub name : List ℕ
  pub entry_point : ℕ
  pub locks : ℕ → Option ℕ
  pub type : TaskType
  pub status : Status
  pub awake_time : ℕ
  pub cursor_x : ℕ
  pub cursor_y : ℕ
  pub priority : ℕ
  pub waiting_desc : ℕ

-- `mutex_lock_t`, without its queue; `locked` is the status LOCKED.
pub record Mutex : Type 0 where
  pub locked : Bool
  pub is_init : ℕ
  pub lock_id : ℕ

-- `semaphore_t` and `barrier_t`, without their queues; an `int` is its 32-bit word. Of a
-- `condition_t` only the field `initialized` is left.
pub record Semaphore : Type 0 where
  pub value : ℕ
  pub initialized : ℕ

pub record Barrier : Type 0 where
  pub initialized : ℕ
  pub cur_val : ℕ
  pub bound : ℕ

-- The pointers of all blocks are in `links`. `last_sel_index` is `none` for -1. `tdes0` is the
-- first word of the network descriptor at an address.
pub record Kernel : Type 0 where
  pub pcb : ℕ → Pcb
  pub links : Links
  pub queues : ℕ → Queue
  pub current_running : ℕ
  pub last_sel_index : Option ℕ
  pub glb_sched_cnt : ℕ
  pub glb_sched_bound : ℕ
  pub counter : ℕ → ℕ
  pub upper_bound : ℕ → ℕ
  pub screen_cursor_x : ℕ
  pub screen_cursor_y : ℕ
  pub time_elapsed : ℕ
  pub tdes0 : ℕ → ℕ
  pub mutexes : ℕ → Mutex
  pub lock_cnt : ℕ
  pub semaphores : ℕ → Semaphore
  pub conditions : ℕ → ℕ
  pub barriers : ℕ → Barrier

-- The numbers of the queues; `priority_ready_queue[i]` is the queue `i`.
abbrev pub block_queue : ℕ
block_queue = 5

abbrev pub recv_block_queue : ℕ
recv_block_queue = 6

abbrev pub proc_block_queue : ℕ → ℕ
proc_block_queue i = 7 + i

-- `waiting_queue` of the lock `i`, and the queues of the semaphores, conditions and barriers.
abbrev pub waiting_queue : ℕ → ℕ
waiting_queue i = 23 + 4 * i

abbrev pub sem_block_queue : ℕ → ℕ
sem_block_queue i = 24 + 4 * i

abbrev pub cond_block_queue : ℕ → ℕ
cond_block_queue i = 25 + 4 * i

abbrev pub barrier_block_queue : ℕ → ℕ
barrier_block_queue i = 26 + 4 * i

-- The fuel of a walk along a queue: one more than there are blocks.
abbrev pub chain_bound : ℕ
chain_bound = 17

abbrev pub is_exited : Status → Bool
is_exited task_exited = true
is_exited _ = false

abbrev pub is_blocked : Status → Bool
is_blocked task_blocked = true
is_blocked _ = false

abbrev pub set_pcb : ℕ → Pcb → Kernel → Kernel
set_pcb i p k = record k { pcb = update k.pcb i p }

abbrev pub set_status : ℕ → Status → Kernel → Kernel
set_status i s k = set_pcb i (record (k.pcb i) { status = s }) k

abbrev pub set_queue : ℕ → Queue → Links → Kernel → Kernel
set_queue q queue l k = record k { queues = update k.queues q queue; links = l }

-- The queue operations on the queue `q` of the kernel.
unfoldable pub push_on : ℕ → ℕ → Kernel → Outcome Kernel
push_on q item k = do r ← queue_push (k.queues q) k.links item; ok (set_queue q r.0 r.1 k)

unfoldable pub push_new_on : ℕ → ℕ → Kernel → Outcome Kernel
push_new_on q item k = do
  r ← queue_push_if_not_exist chain_bound (k.queues q) k.links item
  ok (set_queue q r.0 r.1 k)

unfoldable pub take_from : ℕ → Kernel → Outcome (Ptr × Kernel)
take_from q k = do r ← queue_dequeue (k.queues q) k.links; ok (r.0, set_queue q r.1 r.2 k)

-- `&priority_ready_queue[i]`, an index beyond the array being a fault.
abbrev pub ready_queue : ℕ → Outcome ℕ
ready_queue i = if ltb i max_priority_num then ok i else fault
