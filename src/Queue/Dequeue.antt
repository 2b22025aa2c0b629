-- ===== src/Queue/Dequeue.antt =====
-- `queue_dequeue`: removal at the head, and what emptying a queue gives.
use mips_os.Common.{ℕ, ◌≡◌, refl}
use mips_os.Common.{◌↔◌, true, false, none, some}
use mips_os.Common.{List, [], ◌∷◌, arith}
use mips_os.Common.{==_iff}
use mips_os.Common.{Outcome, ok, fault, hang, has}
use mips_os.Queue.{Ptr, Queue, Links, set_prev, set_next, queue_dequeue, queue_is_empty}
use mips_os.Queue.Shape.{Linked, IsQueue, SameOn, SameOff, Linked-SameOn}

-- A run that ends well, with the block that it returns, the queue that is left, and the pointers of
-- that block cleared.
abbrev pub Dequeued : List ℕ → Links → Outcome (Ptr × Queue × Links) → Type 0
Dequeued [] l (ok (p, q, m)) = (p ≡ none) × IsQueue q m [] × (m ≡ l)
Dequeued (x ∷ xs) l (ok (p, q, m)) =
    (p ≡ some x) × IsQueue q m xs × (m.prev x ≡ none) × (m.next x ≡ none) × SameOff (x ∷ xs) l m
Dequeued _ l fault = ⊥
Dequeued _ l hang = ⊥

-- The pointers after the head `x` is taken off in front of `y`.
abbrev popped_links : Links → ℕ → ℕ → Links
popped_links l x y = set_next (set_prev (set_prev l y none) x none) x none

popped_links-Linked :
    (l : Links) (x y : ℕ) (ys : List ℕ)
    → has x (y ∷ ys) ≡ false
    → has y ys ≡ false
    → Linked l (some x) (y ∷ ys)
    → Linked (popped_links l x y) none (y ∷ ys)
popped_links-Linked l x y ys n d (a, c, h) =
    (ground arith, ground arith, Linked-SameOn l _ (some y) ys spared h)
  where
    spared : SameOn ys l (popped_links l x y)
    spared i m = (ground (arith, ==_iff i x, ==_iff i y), ground (arith, ==_iff i x))

-- Taking from an empty queue gives NULL and changes nothing; taking from any other gives its oldest
-- block, clears the pointers of that block, leaves the rest in order and writes outside the queue
-- nowhere: the run neither faults nor hangs.
pub queue_dequeue-Dequeued :
    (q : Queue) (l : Links) (xs : List ℕ) → IsQueue q l xs → Dequeued xs l (queue_dequeue q l)
unfolding queue_dequeue
queue_dequeue-Dequeued q l [] h = simp (h.head, queue_dequeue) (refl, h, refl)
queue_dequeue-Dequeued q l (x ∷ []) h =
    simp (h.head, h.linked.1, queue_dequeue)
      (
        refl,
        record { head = refl; tail = refl; linked = tt; distinct = tt },
        ground arith,
        ground arith,
        λ i out. ground arith,
      )
queue_dequeue-Dequeued q l (x ∷ y ∷ ys) h =
    simp (h.head, h.linked.1, queue_dequeue)
      (
        refl,
        record {
          head = refl;
          tail = h.tail;
          linked = popped_links-Linked l x y ys h.distinct.0 h.distinct.1.0 h.linked.2;
          distinct = h.distinct.1;
        },
        ground arith,
        ground arith,
        λ i out. ground arith,
      )

-- On a well-formed queue the emptiness test says whether the list is empty.
pub queue_is_empty-nil :
    (q : Queue) (l : Links) (xs : List ℕ) → IsQueue q l xs → (queue_is_empty q ≡ true) ↔ (xs ≡ [])
unfolding queue_is_empty
queue_is_empty-nil q l [] h = simp (h.head, queue_is_empty) (λ _. refl, λ _. refl)
queue_is_empty-nil q l (x ∷ xs) h = simp (h.head, queue_is_empty) (λ e. cc, λ e. cc)
