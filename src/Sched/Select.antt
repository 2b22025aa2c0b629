-- ===== src/Sched/Select.antt =====
-- The choice of the next process in kernel/sched/sched.c: `scheduler`, `do_block` and `do_sleep`.
-- `do_scheduler` saves the registers of the caller, runs `scheduler` and loads those of the process
-- that it chose, so that a call of it is a run of `scheduler`, after which the caller stands still.
use mips_os.Common.{ℕ, zero, suc, ◌+◌, ◌-◌, ◌%◌, ◌^◌}
use mips_os.Common.{not, ◌&&◌, none, some}
use mips_os.Common.{ltb, leb, if◌then◌else◌, update}
use mips_os.Common.{Outcome, ok, fault, ◌>>=◌}
use mips_os.Sched.{
  Kernel, task_running, task_blocked, is_exited, is_blocked, set_pcb, set_status, push_on,
  push_new_on, ready_queue, max_priority_num, block_queue, chain_bound,
}
use mips_os.Sched.Wake.{decrease_priority_upper_bound, take_live, check_sleeping, check_net_recv}

-- `while (this_index < __MAX_PRIORITY_NUM && counter[this_index] >= bound[this_index])`, with
-- `left` indices to go.
unfoldable pub skip_exhausted : ℕ → (counter upper_bound : ℕ → ℕ) → ℕ → ℕ
skip_exhausted zero counter upper_bound i = i
skip_exhausted (suc left) counter upper_bound i =
    let rest = skip_exhausted left counter upper_bound (i + 1) in
    if leb (upper_bound i) (counter i) then rest else i

-- The index that the walk from `last` gives, and the execution counters after it: with all
-- priorities exhausted they start afresh.
unfoldable pub advance : Kernel → ℕ → ℕ × (ℕ → ℕ)
advance k last =
    let start = if leb max_priority_num last then 1 else last in
    let found = skip_exhausted (max_priority_num - start) k.counter k.upper_bound start in
    let afresh = λ (i : ℕ). if leb 1 i && ltb i max_priority_num then 0 else k.counter i in
    if leb max_priority_num found then (1, afresh) else (found, k.counter)

-- The index that `scheduler` takes, and the counters after it. The index -1 reads outside the
-- arrays.
unfoldable pub select_queue : Kernel → Outcome (ℕ × Kernel)
select_queue k = elim k.last_sel_index [
  | none ↦ fault
  | some last ↦
      let this_index = (advance k last).0 in
      let counter = (advance k last).1 in
      let k' = record k { counter = counter; glb_sched_cnt = k.glb_sched_cnt + 1 } in
      let chosen : Outcome (ℕ × Kernel) = elim (k.queues this_index).head [
        | none ↦ ok (0, k')
        | some _ ↦ ok (
          this_index,
          record k' {
            last_sel_index = some this_index;
            counter = update counter this_index ((counter this_index + 1) % 2 ^ 32);
          },
        )
      ] in
      if leb k.glb_sched_bound (k.glb_sched_cnt + 1)
      then ok (0, record k' { glb_sched_cnt = 0 })
      else chosen
]

-- `queue_push(&priority_ready_queue[current_running->priority], current_running)`, unless the
-- current process is blocked or exited.
unfoldable pub requeue_current : Kernel → Outcome Kernel
requeue_current k =
    let cur = k.pcb k.current_running in
    let back : Outcome Kernel = (do q ← ready_queue cur.priority; push_on q k.current_running k) in
    if not (is_blocked cur.status) && not (is_exited cur.status) then back else ok k

-- What `scheduler` does with the process `top` that it took.
unfoldable pub switch_to : ℕ → Kernel → Outcome Kernel
switch_to top k =
    let k = set_status top task_running k in
    let cur = record (k.pcb k.current_running) {
      cursor_x = k.screen_cursor_x;
      cursor_y = k.screen_cursor_y;
    } in
    (do
      k ← requeue_current (set_pcb k.current_running cur k)
      k ← check_sleeping k
      k ← check_net_recv k
      ok (record k {
        current_running = top;
        screen_cursor_x = (k.pcb top).cursor_x;
        screen_cursor_y = (k.pcb top).cursor_y;
      }))

unfoldable pub scheduler : Kernel → Outcome Kernel
scheduler k = do
  s ← select_queue k
  r ← take_live chain_bound s.0 s.1
  elim r.0 [ none ↦ ok r.1 | some top ↦ switch_to top r.1 ]

unfoldable pub do_block : ℕ → Kernel → Outcome Kernel
do_block blk_queue k = do
  k ← push_new_on blk_queue k.current_running k
  let k' = set_status k.current_running task_blocked k
  scheduler (decrease_priority_upper_bound (k'.pcb k'.current_running).priority k')

unfoldable pub do_sleep : ℕ → Kernel → Outcome Kernel
do_sleep sleep_time k =
    let cur = record (k.pcb k.current_running) {
      awake_time = (sleep_time + k.time_elapsed) % 2 ^ 32;
    } in
    do_block block_queue (set_pcb k.current_running cur k)
