-- ===== src/Sched/Switch.antt =====
-- The switch to the process that `scheduler` of kernel/sched/sched.c has taken.
use mips_os.Common.{ℕ, ◌<◌, ◌≡◌, refl, sym, ap, ◌∙◌, subst}
use mips_os.Common.{inl, inr, Bool, true, false}
use mips_os.Common.{List, [], ◌∷◌, arith, ◌==◌, update}
use mips_os.Common.{lt→ltb, ==_iff, update_self, update_other, Bool-cases}
use mips_os.Common.{Ends, Ends-bind, has}
use mips_os.Common.{Ends, Ends-bind, Ends-map, update_self, update_other}
use mips_os.Sched.{Pcb, Kernel, task_running, set_pcb, set_status, push_on}
use mips_os.Sched.Wake.{check_sleeping, check_net_recv}
use mips_os.Sched.Select.{requeue_current, switch_to}
use mips_os.Sched.Sound.{Holds, IsFree, Requeued, push_on-Holds, joined-IsFree}
use mips_os.Sched.Awake.{InRange, check_sleeping-Awoken, check_net_recv-Awoken}
use mips_os.Common.{◌++◌, ◌≤◌, if◌then◌else◌}
use mips_os.Sched.Awake.{head_woken, is_due, has_received, Keeps}
use mips_os.Sched.Invariant.{is_runnable, IsSound}
use mips_os.Sched.Next.{put_back, switched}

-- Putting the running process back frees no block and takes no other one in.
abbrev Back : Kernel → (content c : ℕ → List ℕ) → Kernel → Type 0
Back k content c new =
    Holds new.queues new.links c
    × ((a : ℕ) → (a == k.current_running) ≡ false → IsFree content a → IsFree c a)
    × Requeued k new

requeue_current-Back :
    (k : Kernel) (content : ℕ → List ℕ)
    → Holds k.queues k.links content
    → InRange k
    → k.current_running < 16
    → (is_runnable (k.pcb k.current_running).status ≡ true → IsFree content k.current_running)
    → let cur = k.pcb k.current_running in
      Ends
        (Back k content (put_back (is_runnable cur.status) cur.priority k.current_running content))
        (requeue_current k)
unfolding requeue_current
requeue_current-Back k content h prio small free =
    let i = (k.pcb k.current_running).priority in
    elim (Bool-cases (is_runnable (k.pcb k.current_running).status)) [
      | inr e ↦ rw e (h, λ a ne out. out, refl)
      | inl e ↦
          let out : has k.current_running (content i) ≡ false = free e i in
          rw (e, lt→ltb i 5 (prio k.current_running))
            (subst
              (λ xs. Ends (Back k content (update content i xs)) (push_on i k.current_running k))
              (ap (λ b. if b then content i else content i ++ k.current_running ∷ []) out)
              (Ends-map _ _ (push_on i k.current_running k)
                (push_on-Holds k content i k.current_running h (free e) small)
                (λ new (a, b).
                  (b, λ x ne out. joined-IsFree content i k.current_running x ne out, a))))
    ]

head_woken_same :
    (p r : ℕ → ℕ) (q : ℕ) (go also : ℕ → Bool) (xs : List ℕ) (content : ℕ → List ℕ)
    → ((i : ℕ) → p i ≡ r i)
    → ((i : ℕ) → go i ≡ also i)
    → head_woken p q go xs content ≡ head_woken r q also xs content
head_woken_same p r q go also [] content same test = refl
head_woken_same p r q go also (x ∷ xs) content same test = rw (same x, test x) refl

put_back_elsewhere :
    (b : Bool) (i cur q : ℕ) (content : ℕ → List ℕ)
    → i < 5
    → 7 ≤ q
    → put_back b i cur content q ≡ content q
put_back_elsewhere b i cur q content low high = ground arith

update_field {ℓ} :
    {A : Type ℓ} (f : Pcb → A) (g : ℕ → Pcb) (i : ℕ) (p : Pcb) (j : ℕ)
    → f p ≡ f (g i)
    → f (update g i p j) ≡ f (g j)
update_field f g i p j e = elim (Bool-cases (j == i)) [
  | inl h ↦ rw (h, (==_iff j i).0 h) e
  | inr h ↦ rw h refl
]

-- The process that was taken is marked as running, and the cursor of the running one is kept.
abbrev chosen_pcb : ℕ → Kernel → ℕ → Pcb
chosen_pcb top k = (set_status top task_running k).pcb

abbrev marked : ℕ → Kernel → Kernel
marked top k =
    set_pcb k.current_running
      (record (chosen_pcb top k k.current_running) {
        cursor_x = k.screen_cursor_x;
        cursor_y = k.screen_cursor_y;
      })
      (set_status top task_running k)

marked_priority :
    (top : ℕ) (k : Kernel) (i : ℕ) → ((marked top k).pcb i).priority ≡ (k.pcb i).priority
marked_priority top k i =
    update_field (λ (p : Pcb). p.priority) (chosen_pcb top k) k.current_running _ i refl
    ∙ update_field (λ (p : Pcb). p.priority) k.pcb top _ i refl

marked_awake_time :
    (top : ℕ) (k : Kernel) (i : ℕ) → ((marked top k).pcb i).awake_time ≡ (k.pcb i).awake_time
marked_awake_time top k i =
    update_field (λ (p : Pcb). p.awake_time) (chosen_pcb top k) k.current_running _ i refl
    ∙ update_field (λ (p : Pcb). p.awake_time) k.pcb top _ i refl

marked_waiting_desc :
    (top : ℕ) (k : Kernel) (i : ℕ) → ((marked top k).pcb i).waiting_desc ≡ (k.pcb i).waiting_desc
marked_waiting_desc top k i =
    update_field (λ (p : Pcb). p.waiting_desc) (chosen_pcb top k) k.current_running _ i refl
    ∙ update_field (λ (p : Pcb). p.waiting_desc) k.pcb top _ i refl

marked_status :
    (top : ℕ) (k : Kernel) (i : ℕ)
    → (i == top) ≡ false
    → ((marked top k).pcb i).status ≡ (k.pcb i).status
marked_status top k i other =
    update_field (λ (p : Pcb). p.status) (chosen_pcb top k) k.current_running _ i refl
    ∙ ap (λ (p : Pcb). p.status) (update_other k.pcb top _ i (ground arith))

marked_top : (top : ℕ) (k : Kernel) → ((marked top k).pcb top).status ≡ task_running
marked_top top k =
    update_field (λ (p : Pcb). p.status) (chosen_pcb top k) k.current_running _ top refl
    ∙ ap (λ (p : Pcb). p.status) (update_self k.pcb top _)

-- What `switch_to` leaves.
abbrev pub Switched : ℕ → Kernel → (ℕ → List ℕ) → Kernel → Type 0
Switched top k content new =
    IsSound new (switched k content)
    × (new.current_running ≡ top)
    × ((new.pcb top).status ≡ task_running)
    × ((a q : ℕ) → 7 ≤ q → has a (content q) ≡ true → (new.pcb a).status ≡ (k.pcb a).status)
    × (new.last_sel_index ≡ k.last_sel_index)
    × (new.time_elapsed ≡ k.time_elapsed)
    × (new.mutexes ≡ k.mutexes)
    × (new.semaphores ≡ k.semaphores)

-- The three steps one after the other: putting back, and the two wake-ups.
switched_steps :
    (top : ℕ) (k k1 k2 : Kernel) (content : ℕ → List ℕ)
    → (top == k.current_running) ≡ false
    → Requeued (marked top k) k1
    → Keeps k1 k2
    → let m = marked top k in
      let cur = m.pcb k.current_running in
      let c1 = put_back (is_runnable cur.status) cur.priority k.current_running content in
      let c2 = head_woken (λ i. (k1.pcb i).priority) 5 (is_due k1) (c1 5) c1 in
      head_woken (λ i. (k2.pcb i).priority) 6 (has_received k2) (c2 6) c2 ≡ switched k content
switched_steps top k k1 k2 content ne re (cur2, last2, prio2, desc2, tdes2, time2, _, _) =
    let cur = k.current_running in
    let block : Pcb = (marked top k).pcb cur in
    let c1 : ℕ → List ℕ = put_back (is_runnable block.status) block.priority cur content in
    let c2 : ℕ → List ℕ = head_woken (λ i. (k1.pcb i).priority) 5 (is_due k1) (c1 5) c1 in
    let p1 : (i : ℕ) → (k1.pcb i).priority ≡ (k.pcb i).priority =
      λ i. ap (λ (k : Kernel). (k.pcb i).priority) re ∙ marked_priority top k i in
    let w1 : (i : ℕ) → (k1.pcb i).awake_time ≡ (k.pcb i).awake_time =
      λ i. ap (λ (k : Kernel). (k.pcb i).awake_time) re ∙ marked_awake_time top k i in
    let d1 : (i : ℕ) → (k1.pcb i).waiting_desc ≡ (k.pcb i).waiting_desc =
      λ i. ap (λ (k : Kernel). (k.pcb i).waiting_desc) re ∙ marked_waiting_desc top k i in
    let t1 : k1.time_elapsed ≡ k.time_elapsed = ap (λ (k : Kernel). k.time_elapsed) re in
    let n1 : k1.tdes0 ≡ k.tdes0 = ap (λ (k : Kernel). k.tdes0) re in
    let m1 : is_runnable ((marked top k).pcb cur).status ≡ is_runnable (k.pcb cur).status =
      ap is_runnable (marked_status top k cur (ground arith)) in
    let due : (i : ℕ) → is_due k1 i ≡ is_due k i = λ i. rw (w1 i, t1) refl in
    let got : (i : ℕ) → has_received k2 i ≡ has_received k i =
      λ i. rw (desc2 i, d1 i, tdes2, n1) refl in
    head_woken_same (λ i. (k2.pcb i).priority) (λ i. (k.pcb i).priority) 6 (has_received k2)
      (has_received k) (c2 6) c2 (λ i. prio2 i ∙ p1 i) got
    ∙ ap (λ (c : ℕ → List ℕ). head_woken (λ i. (k.pcb i).priority) 6 (has_received k) (c 6) c)
        (head_woken_same (λ i. (k1.pcb i).priority) (λ i. (k.pcb i).priority) 5 (is_due k1)
            (is_due k) (c1 5) c1 p1 due
          ∙ ap (λ (c : ℕ → List ℕ). head_woken (λ i. (k.pcb i).priority) 5 (is_due k) (c 5) c)
              (ap (λ b. put_back b ((marked top k).pcb cur).priority cur content) m1
                ∙ ap (λ p. put_back (is_runnable (k.pcb cur).status) p cur content)
                    (marked_priority top k cur)))

pub switch_to-Switched :
    (top : ℕ) (k : Kernel) (content : ℕ → List ℕ)
    → IsSound k content
    → top < 16
    → (top == k.current_running) ≡ false
    → IsFree content top
    → Ends (Switched top k content) (switch_to top k)
unfolding switch_to
switch_to-Switched top k content s top_small ne out =
    let cur = k.current_running in
    let prio : InRange (marked top k) = λ i. rw (marked_priority top k i) (s.in_range i) in
    let still = marked_status top k cur (ground arith) in
    Ends-bind _ _ (requeue_current (marked top k)) _
      (requeue_current-Back (marked top k) content s.holds prio s.small
        (λ e. s.running (ap is_runnable (sym still) ∙ e)))
      λ k1 (h1, f1, r1).
        Ends-bind _ _ (check_sleeping k1) _
          (check_sleeping-Awoken k1 _ h1
            (λ i. rw (ap (λ (k : Kernel). (k.pcb i).priority) r1) (prio i)))
          λ k2 (h2, f2, keeps2, stays2).
            Ends-bind _ _ (check_net_recv k2) _
              (check_net_recv-Awoken k2 _ h2
                (λ i. rw (keeps2.2 i, ap (λ (k : Kernel). (k.pcb i).priority) r1) (prio i)))
              λ k3 (h3, f3, keeps3, stays3).
                let same = switched_steps top k k1 k2 content ne r1 keeps2 in
                let left : IsFree (switched k content) top =
                  subst (λ c. IsFree c top) same (f3 top (f2 top (f1 top ne out))) in
                let at1 : (i : ℕ) → (k1.pcb i).status ≡ ((marked top k).pcb i).status =
                  λ i. ap (λ (k : Kernel). (k.pcb i).status) r1 in
                (
                  record {
                    holds = subst (λ c. Holds k3.queues k3.links c) same h3;
                    in_range = λ i.
                        rw (keeps3.2 i, keeps2.2 i, ap (λ (k : Kernel). (k.pcb i).priority) r1)
                          (prio i);
                    small = top_small;
                    running = λ e. left;
                    not_ready = λ i lt. left i;
                  },
                  refl,
                  stays3.2 top (stays2.2 top (at1 top ∙ marked_top top k)),
                  λ a q high in_q.
                      let here : has a (
                            put_back (is_runnable ((marked top k).pcb cur).status)
                              ((marked top k).pcb cur).priority cur content q)
                          ≡ true =
                        ap (λ xs. has a xs)
                          (put_back_elsewhere (is_runnable ((marked top k).pcb cur).status)
                            ((marked top k).pcb cur).priority cur q content (prio cur) high)
                        ∙ in_q in
                      stays3.1 a q high (ap (λ xs. has a xs) (stays2.0 q high) ∙ here)
                      ∙ stays2.1 a q high here
                      ∙ at1 a
                      ∙ marked_status top k a (elim (Bool-cases (a == top)) [
                        | inl e ↦ absurd (
                            ground (
                              arith,
                              (==_iff a top).0 e,
                              subst (λ b. has b (content q) ≡ true) ((==_iff a top).0 e) in_q,
                              out q,
                            ))
                        | inr e ↦ e
                      ]),
                  keeps3.1 ∙ keeps2.1 ∙ ap (λ (k : Kernel). k.last_sel_index) r1,
                  keeps3.5 ∙ keeps2.5 ∙ ap (λ (k : Kernel). k.time_elapsed) r1,
                  keeps3.6 ∙ keeps2.6 ∙ ap (λ (k : Kernel). k.mutexes) r1,
                  keeps3.7 ∙ keeps2.7 ∙ ap (λ (k : Kernel). k.semaphores) r1,
                )
