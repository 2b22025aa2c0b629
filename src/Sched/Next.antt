-- ===== src/Sched/Next.antt =====
-- What the queues of kernel/sched/sched.c hold after a run of `scheduler`, and which one it takes from.
use mips_os.Common.{ℕ, ◌+◌, ◌≡◌}
use mips_os.Common.{◌≢◌, Bool, true, none, some}
use mips_os.Common.{List, [], ◌∷◌, leb, update}
use mips_os.Common.{first, has}
use mips_os.Sched.{Kernel, task_running}
use mips_os.Sched.Select.{advance}
use mips_os.Sched.Unblock.{alive}
use mips_os.Common.{◌++◌, ◌≤◌, if◌then◌else◌}
use mips_os.Sched.Awake.{head_woken, is_due, has_received}
use mips_os.Sched.Invariant.{is_runnable, IsSound}

-- The queue that is taken: every `glb_sched_bound` times the first, otherwise the one that the
-- counters give from `last` on, or the first where that one is empty.
abbrev pub chosen_queue : Kernel → (content : ℕ → List ℕ) → (last : ℕ) → ℕ
chosen_queue k content last =
    if leb k.glb_sched_bound (k.glb_sched_cnt + 1)
    then 0
    else elim (first (content (advance k last).0)) [ none ↦ 0 | some _ ↦ (advance k last).0 ]

-- The running process goes to the end of its ready queue unless it is blocked or has exited.
abbrev pub put_back : (runnable : Bool) → (priority cur : ℕ) → (ℕ → List ℕ) → ℕ → List ℕ
put_back runnable priority cur content =
    if runnable then update content priority (content priority ++ cur ∷ []) else content

-- The queues after a switch, from those without the process that is switched to: the running process
-- goes back, and the first sleeper that is due and the first receiver that has received are woken.
abbrev pub switched : Kernel → (ℕ → List ℕ) → ℕ → List ℕ
switched k content =
    let cur = k.current_running in
    let c1 = put_back (is_runnable (k.pcb cur).status) (k.pcb cur).priority cur content in
    let c2 = head_woken (λ i. (k.pcb i).priority) 5 (is_due k) (c1 5) c1 in
    head_woken (λ i. (k.pcb i).priority) 6 (has_received k) (c2 6) c2

-- The queues after a run that finds the live processes `xs` in the queue `i`, behind exited ones.
abbrev pub next_queues : Kernel → (ℕ → List ℕ) → ℕ → List ℕ → ℕ → List ℕ
next_queues k content i [] = update content i []
next_queues k content i (top ∷ rest) = switched k (update content i rest)

abbrev pub next_running : Kernel → List ℕ → ℕ
next_running k [] = k.current_running
next_running k (top ∷ rest) = top

-- After a run that takes from the queue `i`: the invariant with exactly these queues, the process that
-- runs, whose status is that, the status of the processes that wait elsewhere, the clock, the locks and the semaphores.
abbrev pub Follows : Kernel → (ℕ → List ℕ) → ℕ → List ℕ → Kernel → Type 0
Follows k content i xs new =
    IsSound new (next_queues k content i xs)
    × (new.current_running ≡ next_running k xs)
    × ((a : ℕ) → first xs ≡ some a → (new.pcb a).status ≡ task_running)
    × ((a q : ℕ) → 7 ≤ q → has a (content q) ≡ true → (new.pcb a).status ≡ (k.pcb a).status)
    × (new.last_sel_index ≢ none)
    × (new.time_elapsed ≡ k.time_elapsed)
    × (new.mutexes ≡ k.mutexes)
    × (new.semaphores ≡ k.semaphores)

abbrev pub Scheduled : Kernel → (ℕ → List ℕ) → ℕ → Kernel → Type 0
Scheduled k content i new = Follows k content i (alive k.pcb (content i)) new
