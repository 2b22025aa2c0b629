-- ===== src/Queue/Push.antt =====
-- `queue_push`, `queue_push_if_not_exist` and the walk: insertion at the tail.
use mips_os.Common.{ℕ, zero, suc, ◌<◌, ◌≡◌, refl, sym, ◌∙◌}
use mips_os.Common.{inl, inr, true, false, ◌||◌, none, some}
use mips_os.Common.{List, [], ◌∷◌, ◌++◌, arith, ◌==◌, if◌then◌else◌}
use mips_os.Common.{==_iff, Bool-cases}
use mips_os.Common.{Outcome, ok, fault, hang, length, last_from, has, Distinct, has-append}
use mips_os.Queue.{Ptr, Queue, Links, set_prev, set_next, queue_push, walk, queue_push_if_not_exist}
use mips_os.Queue.Shape.{Linked, IsQueue, Chain, SameOff, IsQueue-Chain, last_from-some}

-- A run that ends well, with what holds of its result.
abbrev pub Pushed : List ℕ → Links → Outcome (Queue × Links) → Type 0
Pushed xs l (ok (q, m)) = IsQueue q m xs × SameOff xs l m
Pushed xs l fault = ⊥
Pushed xs l hang = ⊥

pub has_middle : (a : ℕ) (xs : List ℕ) (b : ℕ) → has a (xs ++ b ∷ []) ≡ (has a xs || (a == b))
has_middle a xs b = ground (arith, has-append a xs (b ∷ []))

pub Distinct-snoc : (xs : List ℕ) (b : ℕ) → Distinct xs → has b xs ≡ false → Distinct (xs ++ b ∷ [])
Distinct-snoc [] b d h = (refl, tt)
Distinct-snoc (x ∷ xs) b d h =
    (ground (arith, has_middle x xs b), Distinct-snoc xs b d.1 (ground arith))

last_from-snoc : (o : Ptr) (xs : List ℕ) (b : ℕ) → last_from o (xs ++ b ∷ []) ≡ some b
last_from-snoc o [] b = refl
last_from-snoc o (x ∷ xs) b = last_from-snoc (some x) xs b

-- The pointers that a push leaves, with `t` the old tail.
abbrev pushed_links : Links → ℕ → ℕ → Links
pushed_links l t b = set_prev (set_next (set_next l t (some b)) b none) b (some t)

head_ne : (b x : ℕ) (xs : List ℕ) → has b (x ∷ xs) ≡ false → (x == b) ≡ false
head_ne b x xs h = ground arith

tail_ne : (x t : ℕ) (xs : List ℕ) → has x xs ≡ false → has t xs ≡ true → (x == t) ≡ false
tail_ne x t xs h m = elim (Bool-cases (x == t)) [
  | inl same ↦ absurd (ground (arith, (==_iff x t).0 same))
  | inr other ↦ other
]

last_from-has :
    (x : ℕ) (xs : List ℕ) (t : ℕ) → last_from (some x) xs ≡ some t → has t (x ∷ xs) ≡ true
last_from-has x [] t e = ground arith
last_from-has x (y ∷ ys) t e = ground (arith, last_from-has y ys t e)

Linked-push :
    (l : Links) (p : Ptr) (x : ℕ) (xs : List ℕ) (t b : ℕ)
    → last_from (some x) xs ≡ some t
    → Distinct (x ∷ xs)
    → has b (x ∷ xs) ≡ false
    → Linked l p (x ∷ xs)
    → Linked (pushed_links l t b) p (x ∷ xs ++ b ∷ [])
Linked-push l p x [] t b e d n (a, c, _) =
    (ground arith, ground arith, (ground arith, ground arith, tt))
Linked-push l p x (y ∷ ys) t b e d n (a, c, h) = (
  rw (head_ne b x (y ∷ ys) n) a,
  rw (head_ne b x (y ∷ ys) n, tail_ne x t (y ∷ ys) d.0 (last_from-has y ys t e)) c,
  Linked-push l (some x) y ys t b e d.1 (ground arith) h,
)

pushed_links-SameOff :
    (l : Links) (xs : List ℕ) (t b : ℕ)
    → has t xs ≡ true
    → SameOff (xs ++ b ∷ []) l (pushed_links l t b)
pushed_links-SameOff l xs t b m i out = apart (has_middle i xs b)
  where
    apart :
        has i (xs ++ b ∷ []) ≡ (has i xs || (i == b))
        → ((pushed_links l t b).prev i ≡ l.prev i) × ((pushed_links l t b).next i ≡ l.next i)
    apart e = (
      ground arith,
      elim (Bool-cases (i == t)) [
        | inl same ↦ absurd (ground (arith, (==_iff i t).0 same))
        | inr other ↦ ground arith
      ],
    )

queue_push-cons :
    (l : Links) (q : Queue) (x : ℕ) (xs : List ℕ) (b : ℕ)
    → IsQueue q l (x ∷ xs)
    → has b (x ∷ xs) ≡ false
    → Pushed (x ∷ xs ++ b ∷ []) l (queue_push q l b)
unfolding queue_push
queue_push-cons l q x xs b h n = go (last_from-some x xs)
  where
    go :
        (t : ℕ) × (last_from (some x) xs ≡ some t) × (has t (x ∷ xs) ≡ true)
        → Pushed (x ∷ xs ++ b ∷ []) l (queue_push q l b)
    go (t, e, m) =
        rw (h.head, h.tail, e)
          (
            record {
              head = refl;
              tail = sym (last_from-snoc (some x) xs b);
              linked = Linked-push l none x xs t b e h.distinct n h.linked;
              distinct = Distinct-snoc (x ∷ xs) b h.distinct n;
            },
            pushed_links-SameOff l (x ∷ xs) t b m,
          )

-- Pushing a block that is in no queue appends it, and writes the pointers of no block outside the
-- new queue: the run neither faults nor hangs.
pub queue_push-append :
    (q : Queue) (l : Links) (xs : List ℕ) (b : ℕ)
    → IsQueue q l xs
    → has b xs ≡ false
    → Pushed (xs ++ b ∷ []) l (queue_push q l b)
unfolding queue_push
queue_push-append q l [] b h n = rw h.head (
  record { head = refl; tail = refl; linked = ground arith; distinct = (refl, tt) },
  λ i out. ground arith,
)
queue_push-append q l (x ∷ xs) b h n = queue_push-cons l q x xs b h n

-- The walk decides membership, given more fuel than there are blocks.
pub walk-has :
    (fuel : ℕ) (l : Links) (p : Ptr) (xs : List ℕ) (b : ℕ)
    → length xs < fuel
    → Chain l p xs
    → walk fuel l p b ≡ ok (has b xs)
unfolding walk
walk-has zero l p xs b h c = absurd (omega arith)
walk-has (suc fuel) l p [] b h c = rw c refl
walk-has (suc fuel) l p (x ∷ xs) b h (e, c) = rw e (elim (Bool-cases (x == b)) [
  | inl s ↦ rw (s, walk) (ground arith)
  | inr s ↦ rw (s, walk) (walk-has fuel l (l.next x) xs b (omega arith) c ∙ ground arith)
])

-- A push that first looks for the block leaves a queue that holds it as it is, and appends it to
-- any other; the walk ends because its fuel exceeds the length of the queue.
pub queue_push_if_not_exist-append :
    (fuel : ℕ) (q : Queue) (l : Links) (xs : List ℕ) (b : ℕ)
    → IsQueue q l xs
    → length xs < fuel
    → Pushed (if has b xs then xs else xs ++ b ∷ []) l (queue_push_if_not_exist fuel q l b)
unfolding queue_push_if_not_exist
queue_push_if_not_exist-append fuel q l xs b h small =
    rw (walk-has fuel l q.head xs b small (IsQueue-Chain h)) (elim (Bool-cases (has b xs)) [
      | inl s ↦ rw s (h, λ i o. (refl, refl))
      | inr s ↦ rw s (queue_push-append q l xs b h s)
    ])
