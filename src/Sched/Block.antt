-- ===== src/Sched/Block.antt =====
-- `do_block` and `do_sleep` of kernel/sched/sched.c: the running process joins a queue and is blocked,
-- and `scheduler` runs.
use mips_os.Common.{ℕ, ◌+◌, ◌%◌, ◌^◌, ◌≤◌, ◌<◌, ◌≡◌, refl, sym, ap, ◌∙◌}
use mips_os.Common.{◌≢◌, inl, inr, true, false}
use mips_os.Common.{List, arith, ◌==◌, update}
use mips_os.Common.{==_iff, update_self, Bool-cases}
use mips_os.Common.{Ends-bind, has}
use mips_os.Common.{Ends-bind, update_self}
use mips_os.Sched.{Pcb, Kernel, task_blocked, set_pcb, push_new_on}
use mips_os.Sched.Wake.{decrease_priority_upper_bound}
use mips_os.Sched.Select.{advance, scheduler, do_block, do_sleep}
use mips_os.Sched.Sound.{Holds, joined, has-joined, push_new_on-Holds}
use mips_os.Sched.Awake.{InRange}
use mips_os.Common.{some, Ends, Ends-map, subst}
use mips_os.Sched.{set_status}
use mips_os.Sched.Unblock.{update_twice}
use mips_os.Sched.Next.{chosen_queue, Scheduled}
use mips_os.Sched.Scheduled.{scheduler-Scheduled}
use mips_os.Sched.Sound.{Requeued}
use mips_os.Sched.Invariant.{is_runnable, IsSound, InRange-set_pcb}

-- A change to a block that keeps its priority and makes no process runnable.
pub IsSound-set_pcb :
    (k : Kernel) (content : ℕ → List ℕ) (i : ℕ) (p : Pcb)
    → IsSound k content
    → p.priority ≡ (k.pcb i).priority
    → (is_runnable p.status ≡ true → is_runnable (k.pcb i).status ≡ true)
    → IsSound (set_pcb i p k) content
IsSound-set_pcb k content i p s prio still = record {
  holds = s.holds;
  in_range = InRange-set_pcb k i p s.in_range (rw prio (s.in_range i));
  small = s.small;
  running = λ e. s.running (runs e);
  not_ready = s.not_ready;
}
  where
    runs :
        is_runnable (update k.pcb i p k.current_running).status ≡ true
        → is_runnable (k.pcb k.current_running).status ≡ true
    runs = elim (Bool-cases (k.current_running == i)) [
      | inl e ↦ rw (e, (==_iff k.current_running i).0 e) still
      | inr e ↦ rw e (λ h. h)
    ]

-- The running process is blocked, and the bound of its priority lowered.
abbrev pub blocked_current : Kernel → Kernel
blocked_current k =
    let new = set_status k.current_running task_blocked k in
    decrease_priority_upper_bound (new.pcb k.current_running).priority new

-- The queues with the running process at the end of the queue `q`, unless it is in it.
abbrev pub waiting_in : ℕ → Kernel → (ℕ → List ℕ) → ℕ → List ℕ
waiting_in q k content = update content q (joined k.current_running (content q))

-- What a run of `scheduler` leaves when the running process has been blocked on the queue `q`.
abbrev pub Descheduled : ℕ → Kernel → (ℕ → List ℕ) → (last : ℕ) → Kernel → Type 0
Descheduled q k content last new =
    Scheduled (blocked_current k) (waiting_in q k content)
      (chosen_queue (blocked_current k) (waiting_in q k content) last) new

-- Blocking needs no more of the running process than that no queue but `q` has it.
pub do_block_placed :
    (q : ℕ) (k : Kernel) (content : ℕ → List ℕ) (last : ℕ)
    → Holds k.queues k.links content
    → InRange k
    → k.current_running < 16
    → k.last_sel_index ≡ some last
    → 5 ≤ q
    → ((r : ℕ) → r ≢ q → has k.current_running (content r) ≡ false)
    → Ends (Descheduled q k content last) (do_block q k)
unfolding do_block decrease_priority_upper_bound advance
do_block_placed q k content last h prio small known high free =
    Ends-bind _ _ (push_new_on q k.current_running k) _
      (push_new_on-Holds k content q k.current_running h free small)
      λ k1 (re, h1).
        let cur : k1.current_running ≡ k.current_running =
          ap (λ (k : Kernel). k.current_running) re in
        let same : k1.pcb ≡ k.pcb = ap (λ (k : Kernel). k.pcb) re in
        let blocked = record (k1.pcb k1.current_running) { status = task_blocked } in
        let sound : IsSound (blocked_current k1) (waiting_in q k content) = record {
          holds = h1;
          in_range =
              InRange-set_pcb k1 k1.current_running blocked (rw same prio)
                (rw same (prio k1.current_running));
          small = rw cur small;
          running = λ e.
              let f =
                sym e
                ∙ ap (λ (p : Pcb). is_runnable p.status)
                    (update_self k1.pcb k1.current_running blocked) in
              absurd (ground (arith, f));
          not_ready = λ i lt.
              rw cur (let ne : (i == q) ≡ false = ground arith in rw ne (free i (ground arith)));
        } in
        subst
          (λ (j : Kernel).
            Ends
              (Scheduled (blocked_current j) (waiting_in q k content)
                (chosen_queue (blocked_current j) (waiting_in q k content) last))
              (scheduler (blocked_current k1)))
          re
          (scheduler-Scheduled (blocked_current k1) (waiting_in q k content) last sound
            (ap (λ (k : Kernel). k.last_sel_index) re ∙ known))

-- A process that has joined a queue joins it no second time.
waiting_in_twice :
    (q : ℕ) (k k1 : Kernel) (content : ℕ → List ℕ)
    → k1.current_running ≡ k.current_running
    → waiting_in q k1 (waiting_in q k content) ≡ waiting_in q k content
waiting_in_twice q k k1 content cur =
    let a = k.current_running in
    let xs = joined a (content q) in
    let on : has a xs ≡ true = ground (arith, has-joined a a (content q)) in
    rw (cur, update_self content q xs, on) (update_twice content q xs xs)

-- Joining the queue first changes nothing for a process that is blocked on it.
pub Descheduled-joined :
    (q : ℕ) (k k1 : Kernel) (content : ℕ → List ℕ) (last : ℕ) (new : Kernel)
    → Requeued k k1
    → Descheduled q k1 (waiting_in q k content) last new
    → Descheduled q k content last new
unfolding decrease_priority_upper_bound advance
Descheduled-joined q k k1 content last new re done =
    let same : waiting_in q k1 (waiting_in q k content) ≡ waiting_in q k content =
      waiting_in_twice q k k1 content (ap (λ (k : Kernel). k.current_running) re) in
    subst
      (λ (j : Kernel).
        Scheduled (blocked_current j) (waiting_in q k content)
          (chosen_queue (blocked_current j) (waiting_in q k content) last) new)
      re
      (subst (λ c. Scheduled (blocked_current k1) c (chosen_queue (blocked_current k1) c last) new)
        same done)

pub has-waiting_in :
    (q : ℕ) (k : Kernel) (content : ℕ → List ℕ)
    → has k.current_running (waiting_in q k content q) ≡ true
has-waiting_in q k content =
    ground (arith, has-joined k.current_running k.current_running (content q))

pub still_blocked :
    (q : ℕ) (k : Kernel) (content : ℕ → List ℕ) (last : ℕ) (new : Kernel)
    → 7 ≤ q
    → Descheduled q k content last new
    → (new.pcb k.current_running).status ≡ task_blocked
unfolding decrease_priority_upper_bound
still_blocked q k content last new high done =
    done.3 k.current_running q high (has-waiting_in q k content)
    ∙ ap (λ (p : Pcb). p.status) (update_self k.pcb k.current_running _)

-- Blocking the running process on a queue beyond those of the sleepers and receivers ends well, where
-- the invariant of the scheduler holds, no other queue has that process and the last index is not -1. It joins the end of the queue unless it is in
-- it, and is blocked after the run of the scheduler that follows; the queues after it are exactly
-- those that this run leaves.
pub do_block-Descheduled :
    (q : ℕ) (k : Kernel) (content : ℕ → List ℕ) (last : ℕ)
    → IsSound k content
    → k.last_sel_index ≡ some last
    → 7 ≤ q
    → ((r : ℕ) → r ≢ q → has k.current_running (content r) ≡ false)
    → Ends
        (λ new.
          Descheduled q k content last new × ((new.pcb k.current_running).status ≡ task_blocked))
        (do_block q k)
do_block-Descheduled q k content last s known high free =
    Ends-map _ _ (do_block q k)
      (do_block_placed q k content last s.holds s.in_range s.small known (omega arith) free)
      λ new done. (done, still_blocked q k content last new high done)

-- Putting the running process to sleep, where no queue but that of the sleepers has it.
do_sleep-Descheduled :
    (sleep_time : ℕ) (k : Kernel) (content : ℕ → List ℕ) (last : ℕ)
    → IsSound k content
    → k.last_sel_index ≡ some last
    → ((r : ℕ) → r ≢ 5 → has k.current_running (content r) ≡ false)
    → let cur = record (k.pcb k.current_running) {
      awake_time = (sleep_time + k.time_elapsed) % 2 ^ 32;
    } in
      Ends (Descheduled 5 (set_pcb k.current_running cur k) content last) (do_sleep sleep_time k)
unfolding do_sleep
do_sleep-Descheduled sleep_time k content last s known free =
    let cur = record (k.pcb k.current_running) {
      awake_time = (sleep_time + k.time_elapsed) % 2 ^ 32;
    } in
    let t = IsSound-set_pcb k content k.current_running cur s refl (λ e. e) in
    do_block_placed 5 (set_pcb k.current_running cur k) content last t.holds t.in_range t.small
      known (omega arith) free
