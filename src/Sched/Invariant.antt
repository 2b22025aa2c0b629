-- ===== src/Sched/Invariant.antt =====
-- The invariant of the scheduler of kernel/sched/sched.c: the queues are well-formed, and the running
-- process is in no ready queue. It does not say that `last_sel_index`, which is -1 from boot until
-- `scheduler` has first set it, is an index; what needs this has it as a hypothesis of its own.
use mips_os.Common.{ℕ, ◌<◌, ◌≡◌, ap}
use mips_os.Common.{inl, inr, Bool, true, false, not, ◌&&◌}
use mips_os.Common.{List, arith, ◌==◌, update}
use mips_os.Common.{==_iff, Bool-cases}
use mips_os.Common.{has}
use mips_os.Sched.{Pcb, Kernel, Status, is_blocked, is_exited, set_pcb}
use mips_os.Sched.Sound.{Holds, IsFree, behind, has-behind}
use mips_os.Sched.Unblock.{alive, has-alive}
use mips_os.Sched.Awake.{InRange}

-- A process that `scheduler` puts back into its ready queue.
abbrev pub is_runnable : Status → Bool
is_runnable s = not (is_blocked s) && not (is_exited s)

pub record IsSound (k : Kernel) (content : ℕ → List ℕ) : Type 0 where
  pub holds : Holds k.queues k.links content
  pub in_range : InRange k
  pub small : k.current_running < 16
  pub running :
      is_runnable (k.pcb k.current_running).status ≡ true → IsFree content k.current_running
  pub not_ready : (i : ℕ) → i < 5 → has k.current_running (content i) ≡ false

pub InRange-set_pcb :
    (k : Kernel) (i : ℕ) (p : Pcb) → InRange k → p.priority < 5 → InRange (set_pcb i p k)
InRange-set_pcb k i p h small j = elim (Bool-cases (j == i)) [
  | inl e ↦ rw e small
  | inr e ↦ rw e (h j)
]

-- Taking blocks out of the queues, and counting, keep the invariant.
pub fewer-IsSound :
    (k new : Kernel) (content c : ℕ → List ℕ)
    → IsSound k content
    → new.pcb ≡ k.pcb
    → new.current_running ≡ k.current_running
    → Holds new.queues new.links c
    → ((q a : ℕ) → has a (content q) ≡ false → has a (c q) ≡ false)
    → IsSound new c
fewer-IsSound k new content c s same cur h less = record {
  holds = h;
  in_range = λ i. rw same (s.in_range i);
  small = rw cur s.small;
  running = rw (same, cur) (λ e q. less q k.current_running (s.running e q));
  not_ready = rw cur (λ i lt. less i k.current_running (s.not_ready i lt));
}

pub behind_less :
    (pcb : ℕ → Pcb) (content : ℕ → List ℕ) (i q a : ℕ)
    → has a (content q) ≡ false
    → has a (update content i (behind (alive pcb (content i))) q) ≡ false
behind_less pcb content i q a h = elim (Bool-cases (q == i)) [
  | inl e ↦ rw e (elim (Bool-cases (has a (behind (alive pcb (content i))))) [
    | inl on ↦
        let at : q ≡ i = (==_iff q i).0 e in
        absurd (
          ground (
            arith,
            h,
            ap (λ q. has a (content q)) at,
            has-alive pcb a (content i) (has-behind a (alive pcb (content i)) on),
          ))
    | inr off ↦ off
  ])
  | inr e ↦ rw e h
]
