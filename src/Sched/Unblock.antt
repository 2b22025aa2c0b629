-- ===== src/Sched/Unblock.antt =====
-- What the waking operations of kernel/sched/sched.c do to the queues: `invoke_blocked_proc`,
-- `do_unblock_one` and `do_unblock_all`.
use mips_os.Common.{ℕ, zero, suc, ◌<◌, ◌≡◌, ap, ◌∙◌, subst, fun_ext}
use mips_os.Common.{inl, inr, true, false, none, some}
use mips_os.Common.{List, [], ◌∷◌, arith, if◌then◌else◌, update}
use mips_os.Common.{update_self, Bool-cases}
use mips_os.Common.{Outcome, ok, Ends, Ends-bind, length, first, has, Distinct}
use mips_os.Common.{Ends, Ends-bind, Ends-map, update_self}
use mips_os.Queue.{Ptr}
use mips_os.Sched.{Pcb, Kernel, is_exited, take_from}
use mips_os.Sched.Wake.{take_live}
use mips_os.Sched.Sound.{Requeued-trans, Holds, Requeued, behind, take_from-Takes}

-- The processes from the first that has not exited.
abbrev pub alive : (ℕ → Pcb) → List ℕ → List ℕ
alive pcb [] = []
alive pcb (x ∷ xs) = let rest = alive pcb xs in if is_exited (pcb x).status then rest else x ∷ xs

pub has-alive :
    (pcb : ℕ → Pcb) (a : ℕ) (xs : List ℕ) → has a (alive pcb xs) ≡ true → has a xs ≡ true
has-alive pcb a [] h = h
has-alive pcb a (x ∷ xs) h = ground (arith, has-alive pcb a xs)

pub Distinct-alive : (pcb : ℕ → Pcb) (xs : List ℕ) → Distinct xs → Distinct (alive pcb xs)
Distinct-alive pcb [] d = d
Distinct-alive pcb (x ∷ xs) d = elim (Bool-cases (is_exited (pcb x).status)) [
  | inl e ↦ rw e (Distinct-alive pcb xs d.1)
  | inr e ↦ rw e d
]

pub update_twice {ℓ} :
    {A : Type ℓ} (f : ℕ → A) (q : ℕ) (a b : A) → update (update f q a) q b ≡ update f q b
update_twice f q a b = fun_ext (λ i. ground arith)

-- A run that takes the first process of the queue `q` that has not exited, with those before it.
abbrev pub TakesLive : Kernel → (ℕ → List ℕ) → ℕ → List ℕ → Outcome (Ptr × Kernel) → Type 0
TakesLive k content q xs r =
    Ends
      (λ (p, new).
        (p ≡ first xs) × Requeued k new × Holds new.queues new.links (update content q (behind xs)))
      r

pub take_live-TakesLive :
    (fuel : ℕ) (k : Kernel) (content : ℕ → List ℕ) (q : ℕ) (xs : List ℕ)
    → Holds k.queues k.links content
    → content q ≡ xs
    → length xs < fuel
    → TakesLive k content q (alive k.pcb xs) (take_live fuel q k)
unfolding take_live
take_live-TakesLive zero k content q xs h e small = absurd (omega arith)
take_live-TakesLive (suc fuel) k content q xs h e small =
    Ends-bind _ _ (take_from q k) _ (take_from-Takes k content q h) (λ r t.
      go (λ new c xs h e small. take_live-TakesLive fuel new c q xs h e small) xs e small r t)
  where
    go :
        ((new : Kernel) (c : ℕ → List ℕ) (xs : List ℕ)
          → Holds new.queues new.links c
          → c q ≡ xs
          → length xs < fuel
          → TakesLive new c q (alive new.pcb xs) (take_live fuel q new))
        → (xs : List ℕ) → content q ≡ xs
        → length xs < suc fuel
        → (r : Ptr × Kernel)
        → (r.0 ≡ first (content q))
          × Requeued k r.1
          × Holds r.1.queues r.1.links (update content q (behind (content q)))
        → TakesLive k content q (alive k.pcb xs) (elim r.0 [
          | none ↦ ok r
          | some proc ↦ elim (is_exited (r.1.pcb proc).status) [
            | true ↦ take_live fuel q r.1
            | false ↦ ok r
          ]
        ])
    go again [] e small (p, new) (a, b, c) =
        rw (a, e)
          (
            a ∙ ap first e,
            b,
            subst (λ xs. Holds new.queues new.links (update content q (behind xs))) e c,
          )
    go again (x ∷ xs) e small (p, new) (a, b, c) =
        let same : new.pcb ≡ k.pcb = ap (λ (k : Kernel). k.pcb) b in
        let c' = subst (λ xs. Holds new.queues new.links (update content q (behind xs))) e c in
        rw (a, e, same)
          (elim (Bool-cases (is_exited (k.pcb x).status)) [
            | inr live ↦ rw live (a ∙ ap first e, b, c')
            | inl dead ↦ rw dead (
                Ends-map _ _ (take_live fuel q new)
                  (again new (update content q xs) xs c' (update_self content q xs) (omega arith))
                  (λ (p, last) (d, f, g). (
                    d ∙ ap (λ pcb. first (alive pcb xs)) same,
                    Requeued-trans k new last b f,
                    subst (λ c. Holds last.queues last.links c)
                        (update_twice content q xs _
                          ∙ ap (λ pcb. update content q (behind (alive pcb xs))) same)
                        g,
                  )))
          ])
