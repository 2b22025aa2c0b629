-- ===== src/Queue/Shape.antt =====
-- What a queue of kernel/sched/queue.c stands for: the list of its blocks, oldest first.
use mips_os.Common.{ℕ, ◌≡◌, refl}
use mips_os.Common.{true, false, none, some}
use mips_os.Common.{List, [], ◌∷◌, arith}
use mips_os.Common.{first, last_from, has, Distinct}
use mips_os.Queue.{Ptr, Queue, Links}

-- From a block after `p`, both pointers of each block agree with the list.
abbrev pub Linked : Links → Ptr → List ℕ → Type 0
Linked l p [] = Unit
Linked l p (x ∷ xs) = (l.prev x ≡ p) × (l.next x ≡ first xs) × Linked l (some x) xs

pub record IsQueue (q : Queue) (l : Links) (xs : List ℕ) : Type 0 where
  pub head : q.head ≡ first xs
  pub tail : q.tail ≡ last_from none xs
  pub linked : Linked l none xs
  pub distinct : Distinct xs

-- Following `next` from `p` meets exactly `xs` and then NULL.
abbrev pub Chain : Links → Ptr → List ℕ → Type 0
Chain l p [] = p ≡ none
Chain l p (x ∷ xs) = (p ≡ some x) × Chain l (l.next x) xs

-- Two stores have the same pointers on `xs`.
abbrev pub SameOn : List ℕ → Links → Links → Type 0
SameOn xs l m = (i : ℕ) → has i xs ≡ true → (m.prev i ≡ l.prev i) × (m.next i ≡ l.next i)

-- A store changes nothing outside `xs`.
abbrev pub SameOff : List ℕ → Links → Links → Type 0
SameOff xs l m = (i : ℕ) → has i xs ≡ false → (m.prev i ≡ l.prev i) × (m.next i ≡ l.next i)

pub Linked-SameOn :
    (l m : Links) (p : Ptr) (xs : List ℕ) → SameOn xs l m → Linked l p xs → Linked m p xs
Linked-SameOn l m p [] s h = h
Linked-SameOn l m p (x ∷ xs) s (a, b, h) = (
  ground (arith, s x),
  ground (arith, s x),
  Linked-SameOn l m (some x) xs (λ i e. s i (ground arith)) h,
)

pub Linked-Chain : (l : Links) (p : Ptr) (xs : List ℕ) → Linked l p xs → Chain l (first xs) xs
Linked-Chain l p [] h = refl
Linked-Chain l p (x ∷ xs) (a, b, h) = (refl, rw b (Linked-Chain l (some x) xs h))

pub IsQueue-Chain : {q : Queue} {l : Links} {xs : List ℕ} → IsQueue q l xs → Chain l q.head xs
IsQueue-Chain {q} {l} {xs} h = rw h.head (Linked-Chain l none xs h.linked)

pub last_from-some :
    (x : ℕ) (xs : List ℕ) → (t : ℕ) × (last_from (some x) xs ≡ some t) × (has t (x ∷ xs) ≡ true)
last_from-some x [] = (x, refl, ground arith)
last_from-some x (y ∷ ys) = widen (last_from-some y ys)
  where
    widen :
        (t : ℕ) × (last_from (some y) ys ≡ some t) × (has t (y ∷ ys) ≡ true)
        → (t : ℕ) × (last_from (some y) ys ≡ some t) × (has t (x ∷ y ∷ ys) ≡ true)
    widen (t, e, m) = (t, e, ground arith)

-- A queue whose blocks nothing has written is still that queue.
pub IsQueue-frame :
    {q : Queue} {l m : Links} {xs : List ℕ} → SameOn xs l m → IsQueue q l xs → IsQueue q m xs
IsQueue-frame {l} {m} {xs} s h = record {
  head = h.head;
  tail = h.tail;
  linked = Linked-SameOn l m none xs s h.linked;
  distinct = h.distinct;
}
