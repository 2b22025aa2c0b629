-- ===== src/Sched/Scheduled.antt =====
-- That a run of `scheduler` of kernel/sched/sched.c leaves exactly the queues of Sched/Next.
use mips_os.Common.{ℕ, ◌+◌, ◌<◌, ◌≡◌, refl, sym, ap, ◌∙◌, subst}
use mips_os.Common.{◌≢◌, inl, inr, true, false, none, some}
use mips_os.Common.{List, [], ◌∷◌, arith, leb, ◌==◌, update}
use mips_os.Common.{==_iff, Bool-cases, Option-cases}
use mips_os.Common.{ok, Ends, Ends-bind, first, has, Distinct}
use mips_os.Common.{Ends, Ends-bind, Ends-map}
use mips_os.Queue.{Ptr}
use mips_os.Sched.{Pcb, Kernel, task_running}
use mips_os.Sched.Wake.{take_live}
use mips_os.Sched.Select.{advance, select_queue, switch_to, scheduler}
use mips_os.Sched.Sound.{Holds, IsFree, Requeued, behind, length_content}
use mips_os.Sched.Unblock.{alive, has-alive, Distinct-alive, take_live-TakesLive}
use mips_os.Sched.Awake.{IsFree-head}
use mips_os.Sched.Invariant.{IsSound, fewer-IsSound, behind_less}
use mips_os.Sched.Next.{chosen_queue, switched, Follows, Scheduled}
use mips_os.Sched.Switch.{switch_to-Switched}

-- Only the counters differ, and the last index is one.
abbrev Counted : Kernel → Kernel → Type 0
Counted k new =
    (new ≡ record k {
      counter = new.counter;
      glb_sched_cnt = new.glb_sched_cnt;
      last_sel_index = new.last_sel_index;
    })
    × (new.last_sel_index ≢ none)

chosen_queue-lt : (k : Kernel) (content : ℕ → List ℕ) (last : ℕ) → chosen_queue k content last < 5
unfolding advance
chosen_queue-lt k content last = ground arith

select_queue-Counted :
    (k : Kernel) (content : ℕ → List ℕ) (last : ℕ)
    → Holds k.queues k.links content
    → k.last_sel_index ≡ some last
    → Ends (λ (i, new). (i ≡ chosen_queue k content last) × Counted k new) (select_queue k)
unfolding select_queue
select_queue-Counted k content last h e =
    simp (e, select_queue)
      (elim (Bool-cases (leb k.glb_sched_bound (k.glb_sched_cnt + 1))) [
        | inl f ↦ rw f (refl, (refl, λ z. cc))
        | inr f ↦ rw f (elim (Option-cases (k.queues (advance k last).0).head) [
          | inl g ↦ rw (g, sym (h.queued (advance k last).0).head ∙ g) (refl, (refl, λ z. cc))
          | inr (x, g) ↦ rw (g, sym (h.queued (advance k last).0).head ∙ g) (refl, (refl, λ z. cc))
        ])
      ])

head_of : (x b : ℕ) → some x ≡ some b → x ≡ b
head_of x b z = ground arith

-- A run of the scheduler ends well, where the queues are well-formed, the priorities in range, the
-- running process in no ready queue, and in no queue at all if it is runnable, and the last index is not
-- -1. It takes the first live process of the chosen queue, passing over exited ones, and runs it; the
-- process that ran goes to the end of its ready queue unless it is blocked or has exited; then the first
-- sleeper, if it is due, and the first receiver, if it has received, move to the ends of their ready
-- queues. Without a live process in the chosen queue the run only empties that queue. The queues
-- hold exactly this afterwards and the invariant holds again; the process that was taken has the status
-- of a running one, no process that waits in a queue beyond those of the sleepers and receivers changes
-- its status, the last index is not -1, and the clock, the locks and the semaphores are as they were.
pub scheduler-Scheduled :
    (k : Kernel) (content : ℕ → List ℕ) (last : ℕ)
    → IsSound k content
    → k.last_sel_index ≡ some last
    → Ends (Scheduled k content (chosen_queue k content last)) (scheduler k)
unfolding scheduler
scheduler-Scheduled k content last s known =
    Ends-bind _ _ (select_queue k) _ (select_queue-Counted k content last s.holds known)
      λ (i, k1) (at, (counted, index)).
        let h1 : Holds k1.queues k1.links content =
          rw (ap (λ (k : Kernel). k.queues) counted, ap (λ (k : Kernel). k.links) counted)
            s.holds in
        Ends-bind _ _ (take_live 17 i k1) _
          (take_live-TakesLive 17 k1 content i (content i) h1 refl (length_content i h1))
          λ (p, k2) (a, re, h2).
            subst
              (λ q.
                Ends (Scheduled k content q)
                  (elim p [ none ↦ ok k2 | some top ↦ switch_to top k2 ]))
              at
              (go i (subst (λ q. q < 5) (sym at) (chosen_queue-lt k content last)) k1 p k2 counted
                index re
                (subst (λ pcb. p ≡ first (alive pcb (content i)))
                  (ap (λ (k : Kernel). k.pcb) counted) a)
                (subst
                  (λ pcb.
                    Holds k2.queues k2.links (update content i (behind (alive pcb (content i)))))
                  (ap (λ (k : Kernel). k.pcb) counted) h2)
                (alive k.pcb (content i)) refl)
  where
    go :
        (i : ℕ)
        → i < 5
        → (k1 : Kernel) (p : Ptr) (k2 : Kernel)
        → k1 ≡ record k {
          counter = k1.counter;
          glb_sched_cnt = k1.glb_sched_cnt;
          last_sel_index = k1.last_sel_index;
        }
        → k1.last_sel_index ≢ none
        → Requeued k1 k2
        → p ≡ first (alive k.pcb (content i))
        → Holds k2.queues k2.links (update content i (behind (alive k.pcb (content i))))
        → (xs : List ℕ) → alive k.pcb (content i) ≡ xs
        → Ends (Follows k content i xs) (elim p [ none ↦ ok k2 | some top ↦ switch_to top k2 ])
    go i lt k1 p k2 counted index re a h2 xs e =
        let agree =
          re ∙ ap (λ (k : Kernel). record k { queues = k2.queues; links = k2.links }) counted in
        let pcb : k2.pcb ≡ k.pcb = ap (λ (k : Kernel). k.pcb) agree in
        let cur : k2.current_running ≡ k.current_running =
          ap (λ (k : Kernel). k.current_running) agree in
        let chosen : k2.last_sel_index ≢ none =
          λ z. index (sym (ap (λ (k : Kernel). k.last_sel_index) agree) ∙ z) in
        let sound : IsSound k2 (update content i (behind xs)) =
          subst (λ ys. IsSound k2 (update content i (behind ys))) e
            (fewer-IsSound k k2 content _ s pcb cur h2
              (λ q a h. behind_less k.pcb content i q a h)) in
        take xs e (a ∙ ap first e) agree pcb cur chosen sound
      where
        take :
            (xs : List ℕ)
            → alive k.pcb (content i) ≡ xs
            → p ≡ first xs
            → k2 ≡ record k {
              counter = k1.counter;
              glb_sched_cnt = k1.glb_sched_cnt;
              last_sel_index = k1.last_sel_index;
              queues = k2.queues;
              links = k2.links;
            }
            → k2.pcb ≡ k.pcb
            → k2.current_running ≡ k.current_running
            → k2.last_sel_index ≢ none
            → IsSound k2 (update content i (behind xs))
            → Ends (Follows k content i xs) (elim p [ none ↦ ok k2 | some top ↦ switch_to top k2 ])
        take [] e a agree pcb cur chosen sound = rw a (
          sound,
          cur,
          λ x z. absurd cc,
          λ b q high in_q. ap (λ (f : ℕ → Pcb). (f b).status) pcb,
          chosen,
          ap (λ (k : Kernel). k.time_elapsed) agree,
          ap (λ (k : Kernel). k.mutexes) agree,
          ap (λ (k : Kernel). k.semaphores) agree,
        )
        take (x ∷ xs) e a agree pcb cur chosen sound =
            let on : has x (content i) ≡ true =
              has-alive k.pcb x (content i) (rw e (ground arith)) in
            let other : (x == k.current_running) ≡ false =
              elim (Bool-cases (x == k.current_running)) [
                | inl f ↦ absurd (ground (arith, on, s.not_ready i lt, ==_iff x k.current_running))
                | inr f ↦ f
              ] in
            let out : IsFree (update content i xs) x =
              IsFree-head i x xs s.holds
                (subst (λ (ys : List ℕ). Distinct ys) e
                  (Distinct-alive k.pcb (content i) (s.holds.queued i).distinct)).0
                on in
            rw a (
              Ends-map _ _ (switch_to x k2)
                (switch_to-Switched x k2 (update content i xs) sound (s.holds.inside i x on)
                  (rw cur other) out)
                λ new (sound', runs, running, waits, index', time, locks, sems). (
                  subst (λ c. IsSound new c)
                      (ap (λ (k : Kernel). switched k (update content i xs)) agree) sound',
                  runs,
                  λ b z. subst (λ c. (new.pcb c).status ≡ task_running) (head_of x b z) running,
                  λ b q high in_q.
                      waits b q high (let ne : (q == i) ≡ false = ground arith in rw ne in_q)
                      ∙ ap (λ (f : ℕ → Pcb). (f b).status) pcb,
                  λ z. chosen (sym index' ∙ z),
                  time ∙ ap (λ (k : Kernel). k.time_elapsed) agree,
                  locks ∙ ap (λ (k : Kernel). k.mutexes) agree,
                  sems ∙ ap (λ (k : Kernel). k.semaphores) agree,
                ))
