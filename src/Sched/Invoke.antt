-- ===== src/Sched/Invoke.antt =====
-- What waking a process does: `invoke_blocked_proc` and `do_unblock_one` of kernel/sched/sched.c.
use mips_os.Common.{ℕ, ◌+◌, ◌*◌, ◌%◌, ◌^◌, ◌<◌, ◌≡◌, refl, ap, subst}
use mips_os.Common.{inl, inr, none, some}
use mips_os.Common.{List, [], ◌∷◌, ◌++◌, arith, ◌==◌, if◌then◌else◌, update}
use mips_os.Common.{lt→ltb, Bool-cases}
use mips_os.Common.{Ends-bind, first, has, Distinct}
use mips_os.Common.{Ends-bind, Ends-map}
use mips_os.Queue.{Ptr}
use mips_os.Sched.{Pcb, Kernel, task_running, set_status, push_new_on}
use mips_os.Sched.Wake.{
  clamp, increase_priority_upper_bound, invoke_blocked_proc, take_live, do_unblock_one,
}
use mips_os.Sched.Sound.{
  Requeued-trans, Holds, IsFree, Requeued, Leaves, behind, push_new_on-Holds, length_content,
}
use mips_os.Sched.Unblock.{alive, has-alive, Distinct-alive, take_live-TakesLive}

-- The process `p` made running, with the bound of its priority raised.
abbrev pub roused : Ptr → Kernel → Kernel
roused none k = k
roused (some p) k =
    let i = (k.pcb p).priority in
    record k {
      pcb = update k.pcb p (record (k.pcb p) { status = task_running });
      upper_bound = update k.upper_bound i ((k.upper_bound i + 3 * (i + 1)) % 2 ^ 32);
    }

-- `p` behind the others of its priority.
abbrev pub readied : (ℕ → Pcb) → ℕ → (ℕ → List ℕ) → ℕ → List ℕ
readied pcb p content = update content (pcb p).priority (content (pcb p).priority ++ p ∷ [])

raise-roused :
    (k : Kernel) (p : ℕ)
    → (k.pcb p).priority < 5
    → increase_priority_upper_bound (k.pcb p).priority (set_status p task_running k)
      ≡ roused (some p) k
unfolding increase_priority_upper_bound
raise-roused k p prio =
    let e : clamp (k.pcb p).priority ≡ (k.pcb p).priority = ground arith in
    ap
      (λ i. record (set_status p task_running k) {
        upper_bound = update k.upper_bound i ((k.upper_bound i + 3 * (i + 1)) % 2 ^ 32);
      })
      e

-- Waking a process that is in no queue makes it running, raises the bound of its priority and
-- appends it to the ready queue of that priority, leaving every other queue as it is.
pub invoke_blocked_proc-readied :
    (k : Kernel) (content : ℕ → List ℕ) (p : ℕ)
    → Holds k.queues k.links content
    → IsFree content p
    → p < 16
    → (k.pcb p).priority < 5
    → Leaves (roused (some p) k) (readied k.pcb p content) (invoke_blocked_proc (some p) k)
unfolding invoke_blocked_proc
invoke_blocked_proc-readied k content p h free small prio =
    rw (lt→ltb (k.pcb p).priority 5 prio, raise-roused k p prio)
      (subst
        (λ xs.
          Leaves (roused (some p) k) (update content (k.pcb p).priority xs)
            (push_new_on (k.pcb p).priority p (roused (some p) k)))
        (let e = free (k.pcb p).priority in
          ap (λ b. if b then content (k.pcb p).priority else content (k.pcb p).priority ++ p ∷ [])
            e)
        (push_new_on-Holds (roused (some p) k) content (k.pcb p).priority p h (λ s ne. free s)
          small))

-- The queues after the first live process `p` of the queue `q`, with `rest` behind it, is woken.
abbrev pub woken : (ℕ → Pcb) → (ℕ → List ℕ) → ℕ → List ℕ → ℕ → List ℕ
woken pcb content q [] = update content q []
woken pcb content q (p ∷ rest) = readied pcb p (update content q rest)

-- Waking one waiter passes over the exited processes at the front of the queue. The first live one
-- is made running, leaves the queue and joins the ready queue of its priority, at the end; without
-- one the queue is emptied and nothing else changes. The queues are well-formed and the priorities
-- are in range.
pub do_unblock_one-woken :
    (k : Kernel) (content : ℕ → List ℕ) (q : ℕ)
    → Holds k.queues k.links content
    → ((i : ℕ) → (k.pcb i).priority < 5)
    → let xs = alive k.pcb (content q) in
      Leaves (roused (first xs) k) (woken k.pcb content q xs) (do_unblock_one q k)
unfolding do_unblock_one invoke_blocked_proc
do_unblock_one-woken k content q h prio =
    Ends-bind _ _ (take_live 17 q k) _
      (take_live-TakesLive 17 k content q (content q) h refl (length_content q h))
      (λ r t. wake (alive k.pcb (content q)) refl r t)
  where
    free : (x : ℕ) (xs : List ℕ) → alive k.pcb (content q) ≡ x ∷ xs → IsFree (update content q xs) x
    free x xs e s = elim (Bool-cases (s == q)) [
      | inl f ↦
          rw f
            (subst (λ (ys : List ℕ). Distinct ys) e
              (Distinct-alive k.pcb (content q) (h.queued q).distinct)).0
      | inr f ↦ rw f (elim (Bool-cases (has x (content s))) [
        | inl on ↦
            absurd (
              ground
                (arith, h.apart s q x on (has-alive k.pcb x (content q) (rw e (ground arith)))))
        | inr off ↦ off
      ])
    ]

    wake :
        (xs : List ℕ)
        → alive k.pcb (content q) ≡ xs
        → (r : Ptr × Kernel)
        → (r.0 ≡ first xs)
          × Requeued k r.1
          × Holds r.1.queues r.1.links (update content q (behind xs))
        → Leaves (roused (first xs) k) (woken k.pcb content q xs) (invoke_blocked_proc r.0 r.1)
    wake [] e (p, new) (a, b, c) = rw a (b, c)
    wake (x ∷ xs) e (p, new) (a, b, c) = rw a (
        Ends-map _ _ (invoke_blocked_proc (some x) new)
          (invoke_blocked_proc-readied new (update content q xs) x c (free x xs e)
            (h.inside q x (has-alive k.pcb x (content q) (rw e (ground arith)))) (rw same (prio x)))
          (λ last (d, f). (
            Requeued-trans (roused (some x) k) (roused (some x) new) last (ap (roused (some x)) b)
                d,
            subst (λ pcb. Holds last.queues last.links (readied pcb x (update content q xs))) same
                f,
          )))
      where
        same : new.pcb ≡ k.pcb
        same = ap (λ (k : Kernel). k.pcb) b
