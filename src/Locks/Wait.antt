-- ===== src/Locks/Wait.antt =====
-- Waiting: `do_mutex_lock_acquire` and `do_semaphore_down` of kernel/locking.
use mips_os.Common.{ℕ, ◌+◌, ◌-◌, ◌*◌, ◌%◌, ◌^◌, ◌≡◌, refl, sym, ap, ◌∙◌}
use mips_os.Common.{◌≢◌, inl, inr, true, false, none, some}
use mips_os.Common.{List, arith, ◌==◌, update, points_to}
use mips_os.Common.{update_self, Bool-cases}
use mips_os.Common.{Ends, Ends-bind, has}
use mips_os.Common.{Ends, Ends-bind, update_self}
use mips_os.Sched.{take_from, push_new_on, Kernel, Mutex, Semaphore}
use mips_os.Sched.Wake.{decrease_priority_upper_bound}
use mips_os.Sched.Select.{do_block}
use mips_os.Common.{Bool, some, if◌then◌else◌, ◌<◌, first}
use mips_os.Sched.Block.{
  Descheduled, Descheduled-joined, still_blocked, do_block_placed, do_block-Descheduled,
}
use mips_os.Sched.{task_blocked}
use mips_os.Sched.Sound.{Holds, behind}
use mips_os.Sched.Invariant.{IsSound}
use mips_os.Sched.Sound.{take_from-Takes, push_new_on-Holds, joined}
use mips_os.Locks.{
  relock, set_locked, set_value, is_negative, do_semaphore_down, semaphore_round,
  do_mutex_lock_acquire,
}

-- What a round of the acquiring of a lock leaves. When the process goes on, the lock was open and is
-- closed, the same process runs, and it has left the queue of the lock if it was at its head. When not,
-- the lock was closed and is, and the process waits in the queue of the lock, blocked, after the run of the
-- scheduler that follows.
abbrev pub Acquired : (lock : ℕ) → Kernel → (ℕ → List ℕ) → (last : ℕ) → Bool × Kernel → Type 0
Acquired lock k content last (true, new) =
    let q = 23 + 4 * lock in
    ((k.mutexes lock).locked ≡ false)
    × ((new.mutexes lock).locked ≡ true)
    × (new.current_running ≡ k.current_running)
    × Holds new.queues new.links (
        if points_to (first (content q)) k.current_running
        then update content q (behind (content q))
        else content)
Acquired lock k content last (false, new) =
    ((k.mutexes lock).locked ≡ true)
    × Descheduled (23 + 4 * lock) k content last new
    × ((new.mutexes lock).locked ≡ true)
    × ((new.pcb k.current_running).status ≡ task_blocked)

-- A round of the acquiring of a lock ends well, where the invariant of the scheduler holds, the last
-- index is not -1, and no queue but that of the lock has the running process. If the lock is open it is
-- taken, and the process leaves the head of its queue. If it is closed, the process joins its queue
-- unless it is in it, is blocked, and the scheduler runs, which leaves it blocked.
pub do_mutex_lock_acquire-Acquired :
    (lock : ℕ) (k : Kernel) (content : ℕ → List ℕ) (last : ℕ)
    → IsSound k content
    → k.last_sel_index ≡ some last
    → ((r : ℕ) → r ≢ 23 + 4 * lock → has k.current_running (content r) ≡ false)
    → Ends (Acquired lock k content last) (do_mutex_lock_acquire lock k)
unfolding do_mutex_lock_acquire decrease_priority_upper_bound
do_mutex_lock_acquire-Acquired lock k content last s known free =
    elim (Bool-cases (k.mutexes lock).locked) [
      | inl e ↦ rw e (
          Ends-bind _ _ (push_new_on q k.current_running k) _
            (push_new_on-Holds k content q k.current_running s.holds free s.small)
            λ k1 (re, h1).
              Ends-bind _ _ (do_block q k1) _
                (do_block_placed q k1 (update content q (joined k.current_running (content q))) last
                  h1 (rw (ap (λ (k : Kernel). k.pcb) re) s.in_range)
                  (rw (ap (λ (k : Kernel). k.current_running) re) s.small)
                  (ap (λ (k : Kernel). k.last_sel_index) re ∙ known) (omega arith)
                  (λ r ne.
                    rw (ap (λ (k : Kernel). k.current_running) re)
                      (let other : (r == q) ≡ false = ground arith in rw other (free r ne))))
                λ k2 done.
                  let there = Descheduled-joined q k k1 content last k2 re done in
                  (
                    e,
                    there,
                    ap (λ m. (m lock).locked) there.6 ∙ e,
                    still_blocked q k content last k2 (omega arith) there,
                  ))
      | inr e ↦ rw e (elim (Bool-cases (points_to (k.queues q).head k.current_running)) [
        | inr f ↦ rw f (e, closed, refl, rw (head f) s.holds)
        | inl f ↦ rw f (
            Ends-bind _ _ (take_from q taken) _ (take_from-Takes taken content q s.holds)
              λ (p, new) (_, re, h). (
                e,
                ap (λ (k : Kernel). (k.mutexes lock).locked) re ∙ closed,
                ap (λ (k : Kernel). k.current_running) re,
                rw (head f) h,
              ))
      ])
    ]
  where
    q : ℕ
    q = 23 + 4 * lock

    taken : Kernel
    taken = relock none (some lock) (set_locked lock true k)

    closed : (taken.mutexes lock).locked ≡ true
    closed = ap (λ (m : Mutex). m.locked) (update_self k.mutexes lock _)

    head :
        {b : Bool}
        → points_to (k.queues q).head k.current_running ≡ b
        → points_to (first (content q)) k.current_running ≡ b
    head f = ap (λ p. points_to p k.current_running) (sym (s.holds.queued q).head) ∙ f

-- What lowering a semaphore leaves: the value is one less. If it is not negative the process goes on
-- and nothing else changes; otherwise it waits in the queue of the semaphore, blocked, after the run of
-- the scheduler that follows.
abbrev pub Lowered : (s : ℕ) → Kernel → (ℕ → List ℕ) → (last : ℕ) → Bool × Kernel → Type 0
Lowered s k content last (true, new) =
    let v = ((k.semaphores s).value + 2 ^ 32 - 1) % 2 ^ 32 in (v < 2 ^ 31) × (new ≡ set_value s v k)
Lowered s k content last (false, new) =
    let v = ((k.semaphores s).value + 2 ^ 32 - 1) % 2 ^ 32 in
    (is_negative v ≡ true)
    × Descheduled (24 + 4 * s) (set_value s v k) content last new
    × ((new.semaphores s).value ≡ v)
    × ((new.pcb k.current_running).status ≡ task_blocked)

-- Lowering a semaphore ends well, where the invariant of the scheduler holds, the last index is not
-- -1, and no queue but that of the semaphore has the running process. The value becomes one less. If
-- it is not negative, that is all; otherwise the process joins the queue of the semaphore, is blocked,
-- and the scheduler runs, which leaves it blocked.
pub do_semaphore_down-Lowered :
    (s : ℕ) (k : Kernel) (content : ℕ → List ℕ) (last : ℕ)
    → IsSound k content
    → k.last_sel_index ≡ some last
    → ((r : ℕ) → r ≢ 24 + 4 * s → has k.current_running (content r) ≡ false)
    → Ends (Lowered s k content last) (do_semaphore_down s k)
unfolding do_semaphore_down semaphore_round decrease_priority_upper_bound
do_semaphore_down-Lowered s k content last sound known free =
    let v = ((k.semaphores s).value + 2 ^ 32 - 1) % 2 ^ 32 in
    let same : ((set_value s v k).semaphores s).value ≡ v =
      ap (λ (m : Semaphore). m.value) (update_self k.semaphores s _) in
    let lowered : IsSound (set_value s v k) content = record {
      holds = sound.holds;
      in_range = sound.in_range;
      small = sound.small;
      running = sound.running;
      not_ready = sound.not_ready;
    } in
    elim (Bool-cases (is_negative v)) [
      | inr e ↦ rw (same, e) (ground (arith, e), refl)
      | inl e ↦
          rw (same, e)
            (Ends-bind _ _ (do_block (24 + 4 * s) (set_value s v k)) _
              (do_block-Descheduled (24 + 4 * s) (set_value s v k) content last lowered known
                (omega arith) free)
              λ k2 (there, still).
                (e, there, ap (λ (m : ℕ → Semaphore). (m s).value) there.7 ∙ same, still))
    ]
