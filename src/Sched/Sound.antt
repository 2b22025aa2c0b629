-- ===== src/Sched/Sound.antt =====
-- What the queues of the scheduler hold, and what the queue operations do to it: every queue is a
-- list of blocks, and no block is in two queues.
use mips_os.Common.{ℕ, ◌<◌, ◌≡◌, refl, sym, ap, ◌∙◌}
use mips_os.Common.{◌≢◌, inl, inr, true, false, ◌||◌}
use mips_os.Common.{List, [], ◌∷◌, ◌++◌, arith, ◌==◌, if◌then◌else◌, update}
use mips_os.Common.{==_iff, Bool-cases}
use mips_os.Common.{Outcome, ok, fault, hang, ◌>>=◌, Ends, length, first, has, has-append}
use mips_os.Common.{Ends, length-Distinct}
use mips_os.Queue.{Ptr, Queue, Links, queue_push, queue_push_if_not_exist, queue_dequeue}
use mips_os.Queue.Shape.{IsQueue, IsQueue-frame, SameOn}
use mips_os.Queue.Push.{Pushed, queue_push-append, queue_push_if_not_exist-append}
use mips_os.Queue.Dequeue.{Dequeued, queue_dequeue-Dequeued}
use mips_os.Sched.{Kernel, set_queue, push_on, push_new_on, take_from}

-- The queue `q` holds the blocks `content q`, oldest first.
pub record Holds (queues : ℕ → Queue) (links : Links) (content : ℕ → List ℕ) : Type 0 where
  pub queued : (q : ℕ) → IsQueue (queues q) links (content q)
  pub apart : (q r a : ℕ) → has a (content q) ≡ true → has a (content r) ≡ true → q ≡ r
  pub inside : (q a : ℕ) → has a (content q) ≡ true → a < 16

-- A block is in no queue.
abbrev pub IsFree : (ℕ → List ℕ) → ℕ → Type 0
IsFree content a = (q : ℕ) → has a (content q) ≡ false

-- Only the queues and the pointers of the blocks differ.
abbrev pub Requeued : Kernel → Kernel → Type 0
Requeued k new = new ≡ record k { queues = new.queues; links = new.links }

-- A change to the queue `q` and to the pointers of blocks that no other queue has.
replace-Holds :
    (queues : ℕ → Queue) (l m : Links) (content : ℕ → List ℕ) (q : ℕ) (queue : Queue) (xs : List ℕ)
    → Holds queues l content
    → IsQueue queue m xs
    → ((r : ℕ) → r ≢ q → SameOn (content r) l m)
    → ((r a : ℕ) → r ≢ q → has a xs ≡ true → has a (content r) ≡ false)
    → ((a : ℕ) → has a xs ≡ true → a < 16)
    → Holds (update queues q queue) m (update content q xs)
replace-Holds queues l m content q queue xs h new same apart inside = record {
  queued = λ r. elim (Bool-cases (r == q)) [
    | inl e ↦ rw e new
    | inr e ↦ rw e (IsQueue-frame (same r (ground arith)) (h.queued r))
  ];
  apart = λ r s a hr hs. elim (Bool-cases (r == q)) [
    | inl e ↦ elim (Bool-cases (s == q)) [
      | inl f ↦ (==_iff r q).0 e ∙ sym ((==_iff s q).0 f)
      | inr f ↦ absurd (ground (arith, apart s a (ground arith)))
    ]
    | inr e ↦ elim (Bool-cases (s == q)) [
      | inl f ↦ absurd (ground (arith, apart r a (ground arith)))
      | inr f ↦ h.apart r s a (ground arith) (ground arith)
    ]
  ];
  inside = λ r a hr. elim (Bool-cases (r == q)) [
    | inl e ↦ inside a (ground arith)
    | inr e ↦ h.inside r a (ground arith)
  ];
}

-- A run that ends well, and after which only the queues differ and hold `content`.
abbrev pub Leaves : Kernel → (ℕ → List ℕ) → Outcome Kernel → Type 0
Leaves k content r = Ends (λ new. Requeued k new × Holds new.queues new.links content) r

store-Pushed :
    (k : Kernel) (content : ℕ → List ℕ) (q : ℕ) (xs : List ℕ) (r : Outcome (Queue × Links))
    → Holds k.queues k.links content
    → Pushed xs k.links r
    → ((s a : ℕ) → s ≢ q → has a xs ≡ true → has a (content s) ≡ false)
    → ((a : ℕ) → has a xs ≡ true → a < 16)
    → Leaves k (update content q xs) (r >>= λ r. ok (set_queue q r.0 r.1 k))
store-Pushed k content q xs (ok (queue, m)) h (new, same) apart inside = (
  refl,
  replace-Holds k.queues k.links m content q queue xs h new
      (λ s ne i on. same i (elim (Bool-cases (has i xs)) [
        | inl e ↦ absurd (ground (arith, apart s i ne e))
        | inr e ↦ e
      ]))
      apart inside,
)
store-Pushed k content q xs fault h p apart inside = absurd p
store-Pushed k content q xs hang h p apart inside = absurd p

-- A block joins the queue `q` unless it is there.
abbrev pub joined : ℕ → List ℕ → List ℕ
joined a xs = if has a xs then xs else xs ++ a ∷ []

pub has-joined : (a b : ℕ) (xs : List ℕ) → has b (joined a xs) ≡ (has b xs || (b == a))
has-joined a b xs = elim (Bool-cases (has a xs)) [
  | inl e ↦ ground (arith, ==_iff b a)
  | inr e ↦ ground (arith, has-append b xs (a ∷ []))
]

joined_apart :
    {queues : ℕ → Queue} {links : Links} {content : ℕ → List ℕ} (q a s b : ℕ)
    → Holds queues links content
    → ((s : ℕ) → s ≢ q → has a (content s) ≡ false)
    → s ≢ q
    → has b (joined a (content q)) ≡ true
    → has b (content s) ≡ false
joined_apart {content} q a s b h free ne on = elim (Bool-cases (has b (content s))) [
  | inl e ↦
      absurd (ground (arith, has-joined a b (content q), h.apart s q b e, ==_iff b a, free s ne))
  | inr e ↦ e
]

joined_inside :
    {queues : ℕ → Queue} {links : Links} {content : ℕ → List ℕ} (q a b : ℕ)
    → Holds queues links content
    → a < 16
    → has b (joined a (content q)) ≡ true
    → b < 16
joined_inside {content} q a b h small on =
    ground (arith, has-joined a b (content q), h.inside q b, ==_iff b a)

pub length_content :
    {queues : ℕ → Queue} {links : Links} {content : ℕ → List ℕ} (q : ℕ)
    → Holds queues links content
    → length (content q) < 17
length_content {content} q h =
    omega (arith, length-Distinct 16 (content q) (h.queued q).distinct (h.inside q))

-- The push that looks first appends a block that no other queue has, unless it is there.
pub push_new_on-Holds :
    (k : Kernel) (content : ℕ → List ℕ) (q a : ℕ)
    → Holds k.queues k.links content
    → ((s : ℕ) → s ≢ q → has a (content s) ≡ false)
    → a < 16
    → Leaves k (update content q (joined a (content q))) (push_new_on q a k)
unfolding push_new_on
push_new_on-Holds k content q a h free small =
    store-Pushed k content q (joined a (content q))
      (queue_push_if_not_exist 17 (k.queues q) k.links a) h
      (queue_push_if_not_exist-append 17 (k.queues q) k.links (content q) a (h.queued q)
        (length_content q h))
      (λ s b ne on. joined_apart q a s b h free ne on) (λ b on. joined_inside q a b h small on)

-- The plain push appends a block that is in no queue.
pub push_on-Holds :
    (k : Kernel) (content : ℕ → List ℕ) (q a : ℕ)
    → Holds k.queues k.links content
    → IsFree content a
    → a < 16
    → Leaves k (update content q (joined a (content q))) (push_on q a k)
unfolding push_on
push_on-Holds k content q a h free small =
    store-Pushed k content q (joined a (content q)) (queue_push (k.queues q) k.links a) h
      (rw (free q) (queue_push-append (k.queues q) k.links (content q) a (h.queued q) (free q)))
      (λ s b ne on. joined_apart q a s b h (λ s ne. free s) ne on)
      (λ b on. joined_inside q a b h small on)

-- The list without its head.
abbrev pub behind : List ℕ → List ℕ
behind [] = []
behind (x ∷ xs) = xs

pub has-behind : (a : ℕ) (xs : List ℕ) → has a (behind xs) ≡ true → has a xs ≡ true
has-behind a [] h = h
has-behind a (x ∷ xs) h = ground arith

-- A run that takes the head of the queue `q`.
abbrev pub Takes : Kernel → (ℕ → List ℕ) → ℕ → Outcome (Ptr × Kernel) → Type 0
Takes k content q r =
    Ends
      (λ (p, new).
        (p ≡ first (content q))
        × Requeued k new
        × Holds new.queues new.links (update content q (behind (content q))))
      r

store-Dequeued :
    (k : Kernel) (content : ℕ → List ℕ) (q : ℕ) (xs : List ℕ) (r : Outcome (Ptr × Queue × Links))
    → Holds k.queues k.links content
    → content q ≡ xs
    → Dequeued xs k.links r
    → Takes k content q (r >>= λ r. ok (r.0, set_queue q r.1 r.2 k))
store-Dequeued k content q [] (ok (p, queue, m)) h e (a, new, same) = rw e (
  a,
  refl,
  replace-Holds k.queues k.links m content q queue [] h new (λ s ne i on. rw same (refl, refl))
      (λ s b ne on. absurd (ground arith)) (λ b on. absurd (ground arith)),
)
store-Dequeued k content q (x ∷ xs) (ok (p, queue, m)) h e (a, new, _, _, same) = rw e (
  a,
  refl,
  replace-Holds k.queues k.links m content q queue xs h new (λ s ne i on. same i (out s i ne on))
      (λ s b ne on. elim (Bool-cases (has b (content s))) [
        | inl f ↦ absurd (ground (arith, out s b ne f))
        | inr f ↦ f
      ])
      (λ b on. h.inside q b (rw e (ground arith))),
)
  where
    out : (s i : ℕ) → s ≢ q → has i (content s) ≡ true → has i (x ∷ xs) ≡ false
    out s i ne on = elim (Bool-cases (has i (x ∷ xs))) [
      | inl f ↦ absurd (ne (h.apart s q i on (rw e f)))
      | inr f ↦ f
    ]
store-Dequeued k content q [] fault h e p = absurd p
store-Dequeued k content q (x ∷ xs) fault h e p = absurd p
store-Dequeued k content q [] hang h e p = absurd p
store-Dequeued k content q (x ∷ xs) hang h e p = absurd p

pub take_from-Takes :
    (k : Kernel) (content : ℕ → List ℕ) (q : ℕ)
    → Holds k.queues k.links content
    → Takes k content q (take_from q k)
unfolding take_from
take_from-Takes k content q h =
    store-Dequeued k content q (content q) (queue_dequeue (k.queues q) k.links) h refl
      (queue_dequeue-Dequeued (k.queues q) k.links (content q) (h.queued q))

pub Requeued-trans : (a b c : Kernel) → Requeued a b → Requeued b c → Requeued a c
Requeued-trans a b c p q =
    q ∙ ap (λ (k : Kernel). record k { queues = c.queues; links = c.links }) p

-- A block that joins a queue leaves every other block where it is.
pub joined-IsFree :
    (content : ℕ → List ℕ) (q a b : ℕ)
    → (b == a) ≡ false
    → IsFree content b
    → IsFree (update content q (joined a (content q))) b
joined-IsFree content q a b ne free s = elim (Bool-cases (s == q)) [
  | inl f ↦ rw f (ground (arith, has-joined a b (content q), free q))
  | inr f ↦ rw f (free s)
]
