-- ===== src/Queue/Remove.antt =====
-- `queue_remove`, which is right at both ends and wrong inside, and a push of a block that is
-- already queued.
use mips_os.Common.{ℕ, ◌≡◌, refl}
use mips_os.Common.{◌≢◌, inl, inr, true, false, ◌||◌, none, some}
use mips_os.Common.{List, [], ◌∷◌, ◌++◌, arith, ◌==◌, points_to}
use mips_os.Common.{==_iff, ==_self, Bool-cases}
use mips_os.Common.{Outcome, ok, fault, hang, first, last_from, has, Distinct, has-append}
use mips_os.Queue.{
  Ptr, Queue, Links, set_prev, set_next, queue_push, queue_remove, queue_insert_at_head,
}
use mips_os.Queue.Shape.{Linked, IsQueue, Chain, SameOn, Linked-SameOn, last_from-some}

-- A run that ends well with the successor of the removed block and a queue of the rest.
abbrev pub Removed : Ptr → List ℕ → Outcome (Ptr × Queue × Links) → Type 0
Removed p xs (ok (r, q, m)) = (r ≡ p) × IsQueue q m xs
Removed p xs fault = ⊥
Removed p xs hang = ⊥

pub Linked-append :
    (l : Links) (p : Ptr) (xs ys : List ℕ) → Linked l p (xs ++ ys) → Linked l (last_from p xs) ys
Linked-append l p [] ys h = h
Linked-append l p (x ∷ xs) ys (a, b, h) = Linked-append l (some x) xs ys h

pub Distinct-append : (xs ys : List ℕ) → Distinct (xs ++ ys) → Distinct ys
Distinct-append [] ys d = d
Distinct-append (x ∷ xs) ys d = Distinct-append xs ys d.1

pub last_from-append :
    (p : Ptr) (xs ys : List ℕ) → last_from p (xs ++ ys) ≡ last_from (last_from p xs) ys
last_from-append p [] ys = refl
last_from-append p (x ∷ xs) ys = last_from-append (some x) xs ys

-- What `first` gives of a list with `a` in it comes before whatever follows `a`.
first_before :
    (xs : List ℕ) (a b : ℕ) (ys : List ℕ)
    → has b ys ≡ true
    → Distinct (xs ++ a ∷ ys)
    → points_to (first (xs ++ a ∷ ys)) b ≡ false
first_before [] a b ys m d = elim (Bool-cases (a == b)) [
  | inl same ↦ absurd (ground (arith, (==_iff a b).0 same))
  | inr other ↦ other
]
first_before (x ∷ xs) a b ys m d = elim (Bool-cases (x == b)) [
  | inl same ↦ absurd (ground (arith, (==_iff x b).0 same, has-append x xs (a ∷ ys)))
  | inr other ↦ other
]

last_after :
    (p : Ptr) (xs : List ℕ) (b c : ℕ) (ys : List ℕ)
    → Distinct (xs ++ b ∷ c ∷ ys)
    → points_to (last_from p (xs ++ b ∷ c ∷ ys)) b ≡ false
last_after p xs b c ys d = go (last_from-some c ys) (Distinct-append xs (b ∷ c ∷ ys) d)
  where
    go :
        (t : ℕ) × (last_from (some c) ys ≡ some t) × (has t (c ∷ ys) ≡ true)
        → Distinct (b ∷ c ∷ ys)
        → points_to (last_from p (xs ++ b ∷ c ∷ ys)) b ≡ false
    go (t, e, m) (n, _) =
        rw (last_from-append p xs (b ∷ c ∷ ys), e)
          (elim (Bool-cases (t == b)) [
            | inl same ↦ absurd (ground (arith, (==_iff t b).0 same))
            | inr other ↦ other
          ])

-- Removing the head block leaves the rest in order, and returns its successor.
pub queue_remove-head :
    (q : Queue) (l : Links) (x : ℕ) (xs : List ℕ)
    → IsQueue q l (x ∷ xs)
    → Removed (first xs) xs (queue_remove q l x)
unfolding queue_remove
queue_remove-head q l x [] h =
    simp (h.head, h.tail, h.linked.1, ==_self)
      (refl, record { head = refl; tail = refl; linked = tt; distinct = tt })
queue_remove-head q l x (y ∷ ys) h =
    simp (h.head, h.tail, h.linked.1, ==_self, last_after none [] x y ys h.distinct)
      (
        refl,
        record {
          head = refl;
          tail = refl;
          linked = (ground arith, ground arith, Linked-SameOn l _ (some y) ys spared h.linked.2.2);
          distinct = h.distinct.1;
        },
      )
  where
    spared : SameOn ys l (set_next (set_prev (set_prev l y none) x none) x none)
    spared i m = (ground (arith, ==_iff i x, ==_iff i y), ground (arith, ==_iff i x))

-- Removing the interior block `b`, with `a` before it, dereferences NULL whenever block 0 is not its
-- predecessor and block 0 has no successor, as when block 0 is in no queue.
pub queue_remove_inside_faults :
    (q : Queue) (l : Links) (xs : List ℕ) (a b c : ℕ) (ys : List ℕ)
    → IsQueue q l (xs ++ a ∷ b ∷ c ∷ ys)
    → l.next 0 ≡ none
    → a ≢ 0
    → queue_remove q l b ≡ fault
unfolding queue_remove
queue_remove_inside_faults q l xs a b c ys h z ne =
    simp
      (
        h.head,
        h.tail,
        first_before xs a b (b ∷ c ∷ ys) (ground arith) h.distinct,
        at_tail,
        (Linked-append l none xs (a ∷ b ∷ c ∷ ys) h.linked).2.0,
      )
      (ground arith)
  where
    at_tail : points_to (last_from none (xs ++ a ∷ b ∷ c ∷ ys)) b ≡ false
    at_tail =
        rw (last_from-append none xs (a ∷ b ∷ c ∷ ys))
          (last_after none [] b c ys (Distinct-append xs (a ∷ b ∷ c ∷ ys) h.distinct).1)

-- The pointers that pushing `b` leaves where `t` is the tail.
abbrev repushed : Links → ℕ → ℕ → Links
repushed l t b = set_prev (set_next (set_next l t (some b)) b none) b (some t)

Chain-repushed :
    (l : Links) (p : Ptr) (xs : List ℕ) (t b : ℕ) (ys : List ℕ)
    → has t ys ≡ true
    → Distinct (xs ++ b ∷ ys)
    → Linked l p (xs ++ b ∷ ys)
    → Chain (repushed l t b) (first (xs ++ b ∷ ys)) (xs ++ b ∷ [])
Chain-repushed l p [] t b ys m d h = (refl, ground arith)
Chain-repushed l p (x ∷ xs) t b ys m d h =
    (refl, rw (not_b, not_t, h.1) (Chain-repushed l (some x) xs t b ys m d.1 h.2))
  where
    apart : (has x xs || ((x == b) || has x ys)) ≡ false
    apart = rw (← has-append x xs (b ∷ ys)) d.0

    not_b : (x == b) ≡ false
    not_b = ground (arith, apart)

    not_t : (x == t) ≡ false
    not_t = elim (Bool-cases (x == t)) [
      | inl same ↦ absurd (ground (arith, apart, (==_iff x t).0 same))
      | inr other ↦ other
    ]

-- A run that ends well, and from whose head the blocks `xs` and no others are reached.
abbrev pub Reaches : List ℕ → Outcome (Queue × Links) → Type 0
Reaches xs (ok (q, m)) = Chain m q.head xs
Reaches xs fault = ⊥
Reaches xs hang = ⊥

-- Pushing a block `b` that is already queued with blocks behind it cuts the queue off after `b`:
-- the blocks behind it are no longer reached from the head.
pub queue_push_queued_cuts :
    (q : Queue) (l : Links) (xs : List ℕ) (b y : ℕ) (ys : List ℕ)
    → IsQueue q l (xs ++ b ∷ y ∷ ys)
    → Reaches (xs ++ b ∷ []) (queue_push q l b)
unfolding queue_push
queue_push_queued_cuts q l xs b y ys h = go (last_from-some y ys) (first-some xs)
  where
    first-some : (zs : List ℕ) → (a : ℕ) × (first (zs ++ b ∷ y ∷ ys) ≡ some a)
    first-some [] = (b, refl)
    first-some (z ∷ zs) = (z, refl)

    go :
        (t : ℕ) × (last_from (some y) ys ≡ some t) × (has t (y ∷ ys) ≡ true)
        → (a : ℕ) × (first (xs ++ b ∷ y ∷ ys) ≡ some a)
        → Reaches (xs ++ b ∷ []) (queue_push q l b)
    go (t, e, m) (a, f) =
        simp (h.head, h.tail, f, last_from-append none xs (b ∷ y ∷ ys), e, queue_push)
          (rw f at (Chain-repushed l none xs t b (y ∷ ys) m h.distinct h.linked))

-- A block inserted at the head of an empty queue leaves the tail NULL, so that the next push
-- dereferences NULL.
pub queue_insert_at_head_faults :
    (q : Queue) (l : Links) (a b : ℕ)
    → IsQueue q l []
    → queue_push (queue_insert_at_head q l a).0 (queue_insert_at_head q l a).1 b ≡ fault
unfolding queue_push queue_insert_at_head
queue_insert_at_head_faults q l a b h = simp (h.head, h.tail, queue_push, queue_insert_at_head) refl
