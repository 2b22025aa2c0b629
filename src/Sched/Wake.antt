-- ===== src/Sched/Wake.antt =====
-- Waking processes in kernel/sched/sched.c: the bounds of the priorities, `invoke_blocked_proc`,
-- `do_unblock_one`, `do_unblock_all`, `check_sleeping` and `check_net_recv`.
use mips_os.Common.{ℕ, zero, suc, ◌+◌, ◌-◌, ◌*◌, ◌%◌, ◌^◌}
use mips_os.Common.{true, false, none, some}
use mips_os.Common.{ltb, leb, ◌==◌, if◌then◌else◌, update}
use mips_os.Common.{Outcome, ok, fault, hang, ◌>>=◌}
use mips_os.Common.{bit_and}
use mips_os.Queue.{Ptr}
use mips_os.Sched.{
  Kernel, task_running, is_exited, set_pcb, set_status, push_new_on, take_from, ready_queue,
  max_priority_num, priority_factor, block_queue, recv_block_queue, chain_bound,
}

-- `priority` brought into the range of the arrays; a `uint32_t` is never negative.
abbrev pub clamp : ℕ → ℕ
clamp priority = if leb max_priority_num priority then max_priority_num - 1 else priority

unfoldable pub increase_priority_upper_bound : ℕ → Kernel → Kernel
increase_priority_upper_bound priority k =
    let p = clamp priority in
    record k {
      upper_bound = update k.upper_bound p ((k.upper_bound p + priority_factor * (p + 1)) % 2 ^ 32);
    }

unfoldable pub decrease_priority_upper_bound : ℕ → Kernel → Kernel
decrease_priority_upper_bound priority k =
    let p = clamp priority in
    let decreament = priority_factor * (p + 1) in
    record k {
      upper_bound =
          update k.upper_bound p
            (if ltb (k.upper_bound p) decreament then 0 else k.upper_bound p - decreament);
    }

unfoldable pub invoke_blocked_proc : Ptr → Kernel → Outcome Kernel
invoke_blocked_proc none k = ok k
invoke_blocked_proc (some proc) k = do
  q ← ready_queue (k.pcb proc).priority
  push_new_on q proc
      (increase_priority_upper_bound (k.pcb proc).priority (set_status proc task_running k))

-- The dequeuing that passes over exited processes, in `do_unblock_one` and `scheduler`.
unfoldable pub take_live : ℕ → ℕ → Kernel → Outcome (Ptr × Kernel)
take_live zero q k = hang
take_live (suc fuel) q k = do
  r ← take_from q k
  elim r.0 [
    | none ↦ ok r
    | some proc ↦ elim (is_exited (r.1.pcb proc).status) [
      | true ↦ take_live fuel q r.1
      | false ↦ ok r
    ]
  ]

unfoldable pub do_unblock_one : ℕ → Kernel → Outcome Kernel
do_unblock_one q k = do r ← take_live chain_bound q k; invoke_blocked_proc r.0 r.1

unfoldable pub unblock_loop : ℕ → ℕ → Kernel → Outcome Kernel
unblock_loop zero q k = hang
unblock_loop (suc fuel) q k = elim (k.queues q).head [
  | none ↦ ok k
  | some _ ↦ do k ← do_unblock_one q k; unblock_loop fuel q k
]

unfoldable pub do_unblock_all : ℕ → Kernel → Outcome Kernel
do_unblock_all q k = unblock_loop chain_bound q k

unfoldable pub check_sleeping : Kernel → Outcome Kernel
check_sleeping k = elim (k.queues block_queue).head [
  | none ↦ ok k
  | some blk_top ↦
      let wake : Outcome Kernel = (do
        r ← take_from block_queue k
        elim r.0 [
          | none ↦ fault
          | some proc ↦
              invoke_blocked_proc (some proc)
                (set_pcb proc (record (r.1.pcb proc) { awake_time = 0 }) r.1)
        ]) in
      if ltb (k.pcb blk_top).awake_time k.time_elapsed then wake else ok k
]

unfoldable pub check_net_recv : Kernel → Outcome Kernel
check_net_recv k = elim (k.queues recv_block_queue).head [
  | none ↦ ok k
  | some proc ↦
      let wake : Outcome Kernel = (do
        r ← take_from recv_block_queue k
        invoke_blocked_proc (some proc) r.1) in
      if bit_and (k.tdes0 (k.pcb proc).waiting_desc) 0x80000000 == 0 then wake else ok k
]
