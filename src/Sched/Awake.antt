-- ===== src/Sched/Awake.antt =====
-- `check_sleeping` and `check_net_recv` of kernel/sched/sched.c keep the queues well-formed and put
-- no block into a queue that was not in one; which queues they leave is stated exactly.
use mips_os.Common.{ℕ, ◌<◌, ◌≡◌, refl, sym, ap, ◌∙◌, subst, fun_ext}
use mips_os.Common.{inl, inr, true, false, none, some}
use mips_os.Common.{List, [], ◌∷◌, arith, ltb, ◌==◌, update}
use mips_os.Common.{==_iff, ==_self, update_self, Bool-cases}
use mips_os.Common.{Ends, Ends-bind, first, has, Distinct, has-append}
use mips_os.Common.{Ends, Ends-bind, Ends-map, update_self, bit_and}
use mips_os.Queue.{Queue, Links}
use mips_os.Common.{Bool, ◌++◌, ◌≤◌, if◌then◌else◌}
use mips_os.Sched.{Pcb, Kernel, task_running, set_pcb, take_from}
use mips_os.Sched.Wake.{invoke_blocked_proc, check_sleeping, check_net_recv}
use mips_os.Sched.Sound.{Holds, IsFree, Requeued, behind, take_from-Takes}
use mips_os.Sched.Invoke.{roused, readied, invoke_blocked_proc-readied}

-- The priorities index the ready queues.
abbrev pub InRange : Kernel → Type 0
InRange k = (i : ℕ) → (k.pcb i).priority < 5

-- Neither the running process nor the last index nor a priority differs, nor what the network
-- descriptors hold, which one a process waits for, the clock, the locks and the semaphores.
abbrev pub Keeps : Kernel → Kernel → Type 0
Keeps k new =
    (new.current_running ≡ k.current_running)
    × (new.last_sel_index ≡ k.last_sel_index)
    × ((i : ℕ) → (new.pcb i).priority ≡ (k.pcb i).priority)
    × ((i : ℕ) → (new.pcb i).waiting_desc ≡ (k.pcb i).waiting_desc)
    × (new.tdes0 ≡ k.tdes0)
    × (new.time_elapsed ≡ k.time_elapsed)
    × (new.mutexes ≡ k.mutexes)
    × (new.semaphores ≡ k.semaphores)

-- The queues after the head of the queue `q`, which holds `xs`, is woken if `go` holds of it.
abbrev pub head_woken :
    (priority : ℕ → ℕ) → (q : ℕ) → (go : ℕ → Bool) → (xs : List ℕ) → (ℕ → List ℕ) → ℕ → List ℕ
head_woken priority q go [] content = content
head_woken priority q go (x ∷ xs) content =
    let c = update content q xs in
    if go x then update c (priority x) (c (priority x) ++ x ∷ []) else content

-- A sleeper that is due, and a receiver whose descriptor is no longer owned by the network.
abbrev pub is_due : Kernel → ℕ → Bool
is_due k x = ltb (k.pcb x).awake_time k.time_elapsed

abbrev pub has_received : Kernel → ℕ → Bool
has_received k x = bit_and (k.tdes0 (k.pcb x).waiting_desc) 2147483648 == 0

-- Queues beyond those of the sleepers and receivers are as they were, and so is the status of the
-- processes in them; and what was running is.
abbrev pub Stays : Kernel → (content c : ℕ → List ℕ) → Kernel → Type 0
Stays k content c new =
    ((q : ℕ) → 7 ≤ q → c q ≡ content q)
    × ((a q : ℕ) → 7 ≤ q → has a (content q) ≡ true → (new.pcb a).status ≡ (k.pcb a).status)
    × ((a : ℕ) → (k.pcb a).status ≡ task_running → (new.pcb a).status ≡ task_running)

-- The queues hold `c`, and what was in no queue is in none.
abbrev pub Awoken : Kernel → (content c : ℕ → List ℕ) → Kernel → Type 0
Awoken k content c new =
    Holds new.queues new.links c
    × ((a : ℕ) → IsFree content a → IsFree c a)
    × Keeps k new
    × Stays k content c new

pub IsFree-head :
    {queues : ℕ → Queue} {links : Links} {content : ℕ → List ℕ} (q x : ℕ) (xs : List ℕ)
    → Holds queues links content
    → has x xs ≡ false
    → has x (content q) ≡ true
    → IsFree (update content q xs) x
IsFree-head {content} q x xs h out on s = elim (Bool-cases (s == q)) [
  | inl f ↦ rw f out
  | inr f ↦ rw f (elim (Bool-cases (has x (content s))) [
    | inl e ↦ absurd (ground (arith, h.apart s q x e on))
    | inr off ↦ off
  ])
]

pub readied-IsFree :
    (pcb : ℕ → Pcb) (p : ℕ) (content : ℕ → List ℕ) (a : ℕ)
    → (a == p) ≡ false
    → IsFree content a
    → IsFree (readied pcb p content) a
readied-IsFree pcb p content a ne free s = elim (Bool-cases (s == (pcb p).priority)) [
  | inl f ↦
      rw f (ground (arith, has-append a (content (pcb p).priority) (p ∷ []), free (pcb p).priority))
  | inr f ↦ rw f (free s)
]

-- The head of a queue, taken off and woken, with its block changed to `block`.
wake_head :
    (k : Kernel) (content : ℕ → List ℕ) (q x : ℕ) (xs : List ℕ) (block : Pcb) (new : Kernel)
    → Holds k.queues k.links content
    → InRange k
    → content q ≡ x ∷ xs
    → block.priority ≡ (k.pcb x).priority
    → Requeued k new
    → Holds new.queues new.links (update content q xs)
    → block.waiting_desc ≡ (k.pcb x).waiting_desc
    → q < 7
    → Ends
        (Awoken k content (
          let c = update content q xs in
          update c (k.pcb x).priority (c (k.pcb x).priority ++ x ∷ [])))
        (invoke_blocked_proc (some x) (set_pcb x block new))
wake_head k content q x xs block new h prio e same re after desc low =
    Ends-map _ _ (invoke_blocked_proc (some x) (set_pcb x block new))
      (invoke_blocked_proc-readied (set_pcb x block new) (update content q xs) x after
        (IsFree-head q x xs h (subst (λ (ys : List ℕ). Distinct ys) e (h.queued q).distinct).0 on)
        (h.inside q x on) (rw same' (prio x)))
      (λ last (d, f). (
        subst (λ c. Holds last.queues last.links c) placed f,
        λ a out.
            subst (λ c. IsFree c a) placed
              (readied-IsFree (update new.pcb x block) x (update content q xs) a (other a out)
                (left a out)),
        (
          ap (λ (k : Kernel). k.current_running) d ∙ ap (λ (k : Kernel). k.current_running) re,
          ap (λ (k : Kernel). k.last_sel_index) d ∙ ap (λ (k : Kernel). k.last_sel_index) re,
          λ i. ap (λ (k : Kernel). (k.pcb i).priority) d ∙ kept i,
          λ i. ap (λ (k : Kernel). (k.pcb i).waiting_desc) d ∙ kept_desc i,
          ap (λ (k : Kernel). k.tdes0) d ∙ ap (λ (k : Kernel). k.tdes0) re,
          ap (λ (k : Kernel). k.time_elapsed) d ∙ ap (λ (k : Kernel). k.time_elapsed) re,
          ap (λ (k : Kernel). k.mutexes) d ∙ ap (λ (k : Kernel). k.mutexes) re,
          ap (λ (k : Kernel). k.semaphores) d ∙ ap (λ (k : Kernel). k.semaphores) re,
        ),
        (
          λ r high. elsewhere r high,
          λ a r high in_r.
              ap (λ (k : Kernel). (k.pcb a).status) d ∙ unchanged a (apart a r high in_r),
          λ a was. ap (λ (k : Kernel). (k.pcb a).status) d ∙ runs a was,
        ),
      ))
  where
    placed : readied (update new.pcb x block) x (update content q xs) ≡ (
        let c = update content q xs in update c (k.pcb x).priority (c (k.pcb x).priority ++ x ∷ []))
    placed =
        ap (λ (i : ℕ). let c = update content q xs in update c i (c i ++ x ∷ []))
          (ap (λ (b : Pcb). b.priority) (update_self new.pcb x block) ∙ same)

    elsewhere :
        (r : ℕ)
        → 7 ≤ r
        → (let c = update content q xs in
              update c (k.pcb x).priority (c (k.pcb x).priority ++ x ∷ []))
            r
          ≡ content r
    elsewhere r high =
        let ne : (r == (k.pcb x).priority) ≡ false = ground (arith, prio x) in
        let ne' : (r == q) ≡ false = ground arith in rw (ne, ne') refl

    apart : (a r : ℕ) → 7 ≤ r → has a (content r) ≡ true → (a == x) ≡ false
    apart a r high in_r = elim (Bool-cases (a == x)) [
      | inl f ↦
          absurd (omega (arith, h.apart r q a in_r (rw ((==_iff a x).0 f) (rw e (ground arith)))))
      | inr f ↦ f
    ]

    unchanged :
        (a : ℕ)
        → (a == x) ≡ false
        → ((roused (some x) (set_pcb x block new)).pcb a).status ≡ (k.pcb a).status
    unchanged a f = rw f (ap (λ (k : Kernel). (k.pcb a).status) re)

    runs :
        (a : ℕ)
        → (k.pcb a).status ≡ task_running
        → ((roused (some x) (set_pcb x block new)).pcb a).status ≡ task_running
    runs a was = elim (Bool-cases (a == x)) [ inl f ↦ rw f refl | inr f ↦ unchanged a f ∙ was ]

    kept_desc :
        (i : ℕ)
        → ((roused (some x) (set_pcb x block new)).pcb i).waiting_desc ≡ (k.pcb i).waiting_desc
    kept_desc i = elim (Bool-cases (i == x)) [
      | inl f ↦ rw ((==_iff i x).0 f, ==_self x) desc
      | inr f ↦ rw f (ap (λ (k : Kernel). (k.pcb i).waiting_desc) re)
    ]

    other : (a : ℕ) → IsFree content a → (a == x) ≡ false
    other a out = elim (Bool-cases (a == x)) [
      | inl f ↦ absurd (ground (arith, out q, e, ==_iff a x))
      | inr f ↦ f
    ]

    left : (a : ℕ) → IsFree content a → IsFree (update content q xs) a
    left a out s = elim (Bool-cases (s == q)) [
      | inl f ↦ rw f (ground (arith, subst (λ ys. has a ys ≡ false) e (out q)))
      | inr f ↦ rw f (out s)
    ]

    kept : (i : ℕ) → ((roused (some x) (set_pcb x block new)).pcb i).priority ≡ (k.pcb i).priority
    kept i = elim (Bool-cases (i == x)) [
      | inl f ↦ rw ((==_iff i x).0 f, ==_self x) same
      | inr f ↦ rw f (ap (λ (k : Kernel). (k.pcb i).priority) re)
    ]

    on : has x (content q) ≡ true
    on = rw e (ground arith)

    same' : (update new.pcb x block x).priority ≡ (k.pcb x).priority
    same' = ap (λ (b : Pcb). b.priority) (update_self new.pcb x block) ∙ same

-- Nothing is woken.
asleep :
    (k : Kernel) (content : ℕ → List ℕ)
    → Holds k.queues k.links content
    → Awoken k content content k
asleep k content h = (
  h,
  λ a out. out,
  (refl, refl, λ i. refl, λ i. refl, refl, refl, refl, refl),
  (λ q high. refl, λ a q high in_q. refl, λ a was. was),
)

pub check_sleeping-Awoken :
    (k : Kernel) (content : ℕ → List ℕ)
    → Holds k.queues k.links content
    → InRange k
    → Ends
        (Awoken k content (head_woken (λ i. (k.pcb i).priority) 5 (is_due k) (content 5) content))
        (check_sleeping k)
unfolding check_sleeping
check_sleeping-Awoken k content h prio = go (content 5) refl
  where
    go :
        (xs : List ℕ)
        → content 5 ≡ xs
        → Ends
            (Awoken k content (head_woken (λ i. (k.pcb i).priority) 5 (is_due k) xs content))
            (check_sleeping k)
    go [] e =
        let hd : (k.queues 5).head ≡ none = (h.queued 5).head ∙ ap first e in
        rw (hd, check_sleeping) (asleep k content h)
    go (x ∷ xs) e =
        let hd : (k.queues 5).head ≡ some x = (h.queued 5).head ∙ ap first e in
        rw (hd, check_sleeping)
          (elim (Bool-cases (ltb (k.pcb x).awake_time k.time_elapsed)) [
            | inr off ↦ rw off (asleep k content h)
            | inl on ↦ rw on (
                Ends-bind _ _ (take_from 5 k) _ (take_from-Takes k content 5 h)
                  λ (p, new) (a, b, c).
                    let at : p ≡ some x = a ∙ ap first e in
                    rw at (
                      wake_head k content 5 x xs _ new h prio e
                        (ap (λ (k : Kernel). (k.pcb x).priority) b) b
                        (subst (λ xs. Holds new.queues new.links (update content 5 (behind xs))) e
                          c)
                        (ap (λ (k : Kernel). (k.pcb x).waiting_desc) b) (omega arith)))
          ])

-- Writing what is there changes nothing.
update_same {ℓ} : {A : Type ℓ} (f : ℕ → A) (i : ℕ) → update f i (f i) ≡ f
update_same f i = fun_ext λ j. elim (Bool-cases (j == i)) [
  | inl e ↦ rw e (ap f (sym ((==_iff j i).0 e)))
  | inr e ↦ rw e refl
]

pub check_net_recv-Awoken :
    (k : Kernel) (content : ℕ → List ℕ)
    → Holds k.queues k.links content
    → InRange k
    → Ends
        (Awoken k content
          (head_woken (λ i. (k.pcb i).priority) 6 (has_received k) (content 6) content))
        (check_net_recv k)
unfolding check_net_recv
check_net_recv-Awoken k content h prio = go (content 6) refl
  where
    go :
        (xs : List ℕ)
        → content 6 ≡ xs
        → Ends
            (Awoken k content (head_woken (λ i. (k.pcb i).priority) 6 (has_received k) xs content))
            (check_net_recv k)
    go [] e =
        let hd : (k.queues 6).head ≡ none = (h.queued 6).head ∙ ap first e in
        rw (hd, check_net_recv) (asleep k content h)
    go (x ∷ xs) e =
        let hd : (k.queues 6).head ≡ some x = (h.queued 6).head ∙ ap first e in
        rw (hd, check_net_recv)
          (elim (Bool-cases (bit_and (k.tdes0 (k.pcb x).waiting_desc) 2147483648 == 0)) [
            | inr off ↦ rw off (asleep k content h)
            | inl on ↦ rw on (
                Ends-bind _ _ (take_from 6 k) _ (take_from-Takes k content 6 h)
                  λ (p, new) (a, b, c).
                    subst
                      (λ pcb.
                        Ends
                          (Awoken k content (
                            let c = update content 6 xs in
                            update c (k.pcb x).priority (c (k.pcb x).priority ++ x ∷ [])))
                          (invoke_blocked_proc (some x) (record new { pcb = pcb })))
                      (update_same new.pcb x)
                      (wake_head k content 6 x xs (new.pcb x) new h prio e
                        (ap (λ (k : Kernel). (k.pcb x).priority) b) b
                        (subst (λ xs. Holds new.queues new.links (update content 6 (behind xs))) e
                          c)
                        (ap (λ (k : Kernel). (k.pcb x).waiting_desc) b) (omega arith)))
          ])
