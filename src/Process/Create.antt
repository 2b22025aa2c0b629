-- ===== src/Process/Create.antt =====
-- Creation of processes in kernel/sched/sched.c: the block that a new process gets.
use mips_os.Common.{ℕ, zero, suc, ◌+◌, ◌*◌, ◌%◌, ◌^◌, ◌≤◌, ◌<◌, ◌≡◌, refl, ap, ◌∙◌, subst}
use mips_os.Common.{◌≢◌, inl, inr, true, false, Option, none, some}
use mips_os.Common.{List, [], ◌∷◌, ◌++◌, arith, ◌==◌, if◌then◌else◌, update}
use mips_os.Common.{lt→ltb, ==_iff, ==_self, update_self, update_other, Bool-cases}
use mips_os.Common.{Ends, Ends-bind}
use mips_os.Common.{Ends, Ends-bind, update_self, update_other}
use mips_os.Queue.{Ptr}
use mips_os.Sched.{Pcb, Kernel, task_ready, push_on}
use mips_os.Sched.Wake.{clamp, increase_priority_upper_bound}
use mips_os.Sched.Sound.{Holds, IsFree, push_on-Holds}
use mips_os.Process.{
  TaskInfo, is_vacant, find_vacant, occupied, given, create_proc_with_priority,
  do_spawn_with_priority,
}

-- The least vacant block from `i` below `n`, or none when there is none.
abbrev pub FirstVacant : (ℕ → Pcb) → ℕ → ℕ → Option ℕ → Type 0
FirstVacant pcb i n none = (j : ℕ) → i ≤ j → j < n → is_vacant (pcb j).status ≡ false
FirstVacant pcb i n (some k) =
    (k < n)
    × (i ≤ k)
    × (is_vacant (pcb k).status ≡ true)
    × ((j : ℕ) → i ≤ j → j < k → is_vacant (pcb j).status ≡ false)

FirstVacant-step :
    (pcb : ℕ → Pcb) (i n : ℕ) (r : Option ℕ)
    → is_vacant (pcb i).status ≡ false
    → FirstVacant pcb (i + 1) n r
    → FirstVacant pcb i n r
FirstVacant-step pcb i n none s c = λ j le lt. elim (Bool-cases (i == j)) [
  | inl same ↦ subst (λ m. is_vacant (pcb m).status ≡ false) ((==_iff i j).0 same) s
  | inr other ↦ c j (ground arith) lt
]
FirstVacant-step pcb i n (some k) s (a, b, v, c) = (
  a,
  omega arith,
  v,
  λ j le lt. elim (Bool-cases (i == j)) [
    | inl same ↦ subst (λ m. is_vacant (pcb m).status ≡ false) ((==_iff i j).0 same) s
    | inr other ↦ c j (ground arith) lt
  ],
)

pub find_vacant-FirstVacant :
    (left i n : ℕ) (pcb : ℕ → Pcb) → i + left ≡ n → FirstVacant pcb i n (find_vacant left i pcb)
unfolding find_vacant
find_vacant-FirstVacant zero i n pcb e = λ j le lt. absurd (omega arith)
find_vacant-FirstVacant (suc left) i n pcb e = elim (Bool-cases (is_vacant (pcb i).status)) [
  | inl v ↦ rw (v, find_vacant) (omega arith, omega arith, v, λ j le lt. absurd (omega arith))
  | inr v ↦
      rw (v, find_vacant)
        (FirstVacant-step pcb i n (find_vacant left (i + 1) pcb) v
          (find_vacant-FirstVacant left (i + 1) n pcb (omega arith)))
]

-- What the creation of a process makes of the kernel, by the block that it gives.
abbrev pub Created : ℕ → Kernel → Ptr → Kernel → Type 0
Created priority k none new =
    ((i : ℕ) → i < 16 → is_vacant (k.pcb i).status ≡ false) × (new.pcb ≡ k.pcb)
Created priority k (some i) new =
    (i < 16)
    × (is_vacant (k.pcb i).status ≡ true)
    × ((j : ℕ) → j < i → is_vacant (k.pcb j).status ≡ false)
    × (new.pcb i ≡ occupied i priority (k.pcb i))
    × ((j : ℕ) → j ≢ i → new.pcb j ≡ k.pcb j)

-- Creation gives the least vacant block, made ready under its own number at a priority in range, and
-- changes no other block; it gives none exactly when no block is vacant. Either way the bound of the
-- priority is raised.
pub create_proc_with_priority-Created :
    (priority : ℕ) (k : Kernel)
    → let r = create_proc_with_priority priority k in
      Created (clamp priority) k r.0 r.1
      × (clamp priority < 5)
      × (r.1.upper_bound (clamp priority)
          ≡ (k.upper_bound (clamp priority) + 3 * (clamp priority + 1)) % 2 ^ 32)
      × (r.1.queues ≡ k.queues)
      × (r.1.links ≡ k.links)
unfolding create_proc_with_priority increase_priority_upper_bound
create_proc_with_priority-Created priority k =
    made (find_vacant 16 0 k.pcb) (find_vacant-FirstVacant 16 0 16 k.pcb (omega arith))
  where
    p : ℕ
    p = clamp priority

    again : clamp p ≡ p
    again = ground arith

    made :
        (ret : Ptr)
        → FirstVacant k.pcb 0 16 ret
        → let new = increase_priority_upper_bound p (given p ret k) in
          Created p k ret new
          × (p < 5)
          × (new.upper_bound p ≡ (k.upper_bound p + 3 * (p + 1)) % 2 ^ 32)
          × (new.queues ≡ k.queues)
          × (new.links ≡ k.links)
    made none c =
        unfold increase_priority_upper_bound in
        ((λ i lt. c i (omega arith) lt, refl), ground arith, rw (again, ==_self p) refl, refl, refl)
    made (some i) (lt, _, v, c) =
        unfold increase_priority_upper_bound in
        (
          (
            lt,
            v,
            λ j below. c j (omega arith) below,
            update_self k.pcb i _,
            λ j ne. update_other k.pcb i _ j ne,
          ),
          ground arith,
          rw (again, ==_self p) refl,
          refl,
          refl,
        )

-- A spawned process is ready in the block that was vacant, with the entry point of the task, and
-- stands last in the ready queue of its priority; no other block is changed, nor which process runs.
-- The block is in no queue, and the priority is in range.
pub do_spawn_with_priority-readied :
    (handler_exit : ℕ) (task : TaskInfo) (priority : ℕ) (k : Kernel) (content : ℕ → List ℕ) (i : ℕ)
    → Holds k.queues k.links content
    → priority < 5
    → find_vacant 16 0 k.pcb ≡ some i
    → IsFree content i
    → Ends
        (λ new.
          Holds new.queues new.links (update content priority (content priority ++ i ∷ []))
          × ((new.pcb i).status ≡ task_ready)
          × ((new.pcb i).priority ≡ priority)
          × ((new.pcb i).entry_point ≡ task.entry_point)
          × (new.current_running ≡ k.current_running)
          × ((j : ℕ) → j ≢ i → new.pcb j ≡ k.pcb j))
        (do_spawn_with_priority handler_exit task priority k)
unfolding do_spawn_with_priority
do_spawn_with_priority-readied handler_exit task priority k content i h small e free =
    rw (pair, do_spawn_with_priority)
      (rw (lt→ltb priority 5 small) (
        Ends-bind _ _ (push_on priority i made) _
          (push_on-Holds made content priority i (unfold increase_priority_upper_bound in h) free
            below)
          λ new (re, held).
            let same : new.pcb ≡ made.pcb = ap (λ (k : Kernel). k.pcb) re in
            (
              subst (λ xs. Holds new.queues new.links (update content priority xs))
                  (ap (λ b. if b then content priority else content priority ++ i ∷ [])
                    (free priority))
                  held,
              ap (λ (p : Pcb). p.status) (update_self new.pcb i _)
                  ∙ ap (λ (f : ℕ → Pcb). (f i).status) same
                  ∙ ap (λ (p : Pcb). p.status) made_self,
              ap (λ (p : Pcb). p.priority) (update_self new.pcb i _)
                  ∙ ap (λ (f : ℕ → Pcb). (f i).priority) same
                  ∙ ap (λ (p : Pcb). p.priority) made_self,
              ap (λ (p : Pcb). p.entry_point) (update_self new.pcb i _),
              ap (λ (k : Kernel). k.current_running) re
                  ∙ (unfold increase_priority_upper_bound in refl),
              λ j ne.
                  update_other new.pcb i _ j ne ∙ ap (λ (f : ℕ → Pcb). f j) same ∙ made_other j ne,
            )))
  where
    made : Kernel
    made = increase_priority_upper_bound (clamp priority) (given (clamp priority) (some i) k)

    pair : create_proc_with_priority priority k ≡ (some i, made)
    pair = unfold create_proc_with_priority in rw e refl

    below : i < 16
    below =
        (subst (FirstVacant k.pcb 0 16) e (find_vacant-FirstVacant 16 0 16 k.pcb (omega arith))).0

    at : clamp priority ≡ priority
    at = ground arith

    made_self : made.pcb i ≡ occupied i priority (k.pcb i)
    made_self =
        unfold increase_priority_upper_bound in
        update_self k.pcb i _ ∙ ap (λ p. occupied i p (k.pcb i)) at

    made_other : (j : ℕ) → j ≢ i → made.pcb j ≡ k.pcb j
    made_other j ne = unfold increase_priority_upper_bound in update_other k.pcb i _ j ne
