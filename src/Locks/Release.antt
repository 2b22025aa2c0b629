-- ===== src/Locks/Release.antt =====
-- Releasing: `do_mutex_lock_release` and `do_semaphore_up` of kernel/locking.
use mips_os.Common.{ℕ, ◌+◌, ◌*◌, ◌%◌, ◌^◌, ◌≡◌, refl, ap, ◌∙◌, subst}
use mips_os.Common.{◌≢◌, inl, inr, false, ◌||◌, none, some}
use mips_os.Common.{List, [], ◌∷◌, ◌==◌, if◌then◌else◌, update}
use mips_os.Common.{==_iff, update_self, update_other, Bool-cases}
use mips_os.Common.{Ends}
use mips_os.Common.{Ends, Ends-map, update_self, update_other}
use mips_os.Queue.{Ptr}
use mips_os.Sched.{Pcb, Kernel, Mutex, Semaphore}
use mips_os.Sched.Wake.{do_unblock_one}
use mips_os.Sched.Sound.{Holds}
use mips_os.Sched.Unblock.{alive}
use mips_os.Sched.Invoke.{roused, woken, do_unblock_one-woken}
use mips_os.Sched.Awake.{InRange}
use mips_os.Locks.{
  replace_lock, relock, set_locked, set_value, is_negative, do_mutex_lock_release, do_semaphore_up,
}

-- Equal statuses and priorities wake alike.
alive_status :
    (p r : ℕ → Pcb) (xs : List ℕ)
    → ((i : ℕ) → (p i).status ≡ (r i).status)
    → alive p xs ≡ alive r xs
alive_status p r [] h = refl
alive_status p r (x ∷ xs) h = rw (h x, alive_status p r xs h) refl

woken_priority :
    (p r : ℕ → Pcb) (content : ℕ → List ℕ) (q : ℕ) (xs : List ℕ)
    → ((i : ℕ) → (p i).priority ≡ (r i).priority)
    → woken p content q xs ≡ woken r content q xs
woken_priority p r content q [] h = refl
woken_priority p r content q (x ∷ xs) h = rw (h x) refl

set_pcb_same {ℓ} :
    {A : Type ℓ} (f : Pcb → A) (k : Kernel) (i : ℕ) (p : Pcb) (j : ℕ)
    → f p ≡ f (k.pcb i)
    → f (update k.pcb i p j) ≡ f (k.pcb j)
set_pcb_same f k i p j e = elim (Bool-cases (j == i)) [
  | inl g ↦ rw (g, (==_iff j i).0 g) e
  | inr g ↦ rw g refl
]

-- The queues after a live waiter of the queue `q`, if there is one, has been woken.
abbrev pub one_woken : (ℕ → Pcb) → (ℕ → List ℕ) → ℕ → ℕ → List ℕ
one_woken pcb content q = woken pcb content q (alive pcb (content q))

one_woken_same :
    (p r : ℕ → Pcb) (content : ℕ → List ℕ) (q : ℕ)
    → ((i : ℕ) → (p i).status ≡ (r i).status)
    → ((i : ℕ) → (p i).priority ≡ (r i).priority)
    → one_woken p content q ≡ one_woken r content q
one_woken_same p r content q status priority =
    woken_priority p r content q (alive p (content q)) priority
    ∙ ap (woken r content q) (alive_status p r (content q) status)

roused_mutexes : (p : Ptr) (k : Kernel) → (roused p k).mutexes ≡ k.mutexes
roused_mutexes none k = refl
roused_mutexes (some p) k = refl

roused_semaphores : (p : Ptr) (k : Kernel) → (roused p k).semaphores ≡ k.semaphores
roused_semaphores none k = refl
roused_semaphores (some p) k = refl

-- Releasing a lock opens it and no other, and the longest waiting live process, if there is one,
-- moves from the queue of the lock to the ready queue of its priority.
pub do_mutex_lock_release-one_woken :
    (lock : ℕ) (k : Kernel) (content : ℕ → List ℕ)
    → Holds k.queues k.links content
    → InRange k
    → Ends
        (λ new.
          ((new.mutexes lock).locked ≡ false)
          × ((j : ℕ) → j ≢ lock → new.mutexes j ≡ k.mutexes j)
          × Holds new.queues new.links (one_woken k.pcb content (23 + 4 * lock)))
        (do_mutex_lock_release lock k)
unfolding do_mutex_lock_release
do_mutex_lock_release-one_woken lock k content h prio =
    Ends-map _ _ (do_unblock_one (23 + 4 * lock) k')
      (do_unblock_one-woken k' content (23 + 4 * lock) h (λ i. rw (priority i) (prio i)))
      λ new (re, held).
        let same : new.mutexes ≡ k'.mutexes =
          ap (λ (k : Kernel). k.mutexes) re ∙ roused_mutexes _ k' in
        (
          ap (λ (m : ℕ → Mutex). (m lock).locked) same
              ∙ ap (λ (m : Mutex). m.locked) (update_self k.mutexes lock _),
          λ j ne. ap (λ (m : ℕ → Mutex). m j) same ∙ update_other k.mutexes lock _ j ne,
          subst (λ c. Holds new.queues new.links c)
              (one_woken_same k'.pcb k.pcb content (23 + 4 * lock) status priority) held,
        )
  where
    cur : Pcb
    cur = record (k.pcb k.current_running) {
      locks = replace_lock 8 0 (some lock) none (k.pcb k.current_running).locks;
    }

    k' : Kernel
    k' = relock (some lock) none (set_locked lock false k)

    status : (i : ℕ) → (k'.pcb i).status ≡ (k.pcb i).status
    status i = set_pcb_same (λ (p : Pcb). p.status) k k.current_running cur i refl

    priority : (i : ℕ) → (k'.pcb i).priority ≡ (k.pcb i).priority
    priority i = set_pcb_same (λ (p : Pcb). p.priority) k k.current_running cur i refl

-- Raising a semaphore, where the queues are well-formed and the priorities in range, adds one to its
-- value, and wakes the longest waiting live process, if there is one, exactly when
-- the new value is not positive.
pub do_semaphore_up-one_woken :
    (s : ℕ) (k : Kernel) (content : ℕ → List ℕ)
    → Holds k.queues k.links content
    → InRange k
    → let v = ((k.semaphores s).value + 1) % 2 ^ 32 in
      Ends
        (λ new.
          ((new.semaphores s).value ≡ v)
          × Holds new.queues new.links
              (if is_negative v || (v == 0) then one_woken k.pcb content (24 + 4 * s) else content))
        (do_semaphore_up s k)
unfolding do_semaphore_up
do_semaphore_up-one_woken s k content h prio =
    let v = ((k.semaphores s).value + 1) % 2 ^ 32 in
    elim (Bool-cases (is_negative v || (v == 0))) [
      | inr e ↦ rw e (ap (λ (m : Semaphore). m.value) (update_self k.semaphores s _), h)
      | inl e ↦ rw e (
          Ends-map _ _ (do_unblock_one (24 + 4 * s) (set_value s v k))
            (do_unblock_one-woken (set_value s v k) content (24 + 4 * s) h prio)
            λ new (re, held). (
              ap (λ (k : Kernel). (k.semaphores s).value) re
                  ∙ ap (λ (m : ℕ → Semaphore). (m s).value) (roused_semaphores _ (set_value s v k))
                  ∙ ap (λ (m : Semaphore). m.value) (update_self k.semaphores s _),
              held,
            ))
    ]
