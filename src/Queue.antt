-- ===== src/Queue.antt =====
-- kernel/sched/queue.c and include/os/queue.h: intrusive doubly linked queues of process control
-- blocks. A pointer is `none` for NULL and `some i` for `&pcb[i]`; the `prev` and `next` fields of
-- all blocks are two arrays.
pub mod Shape
pub mod Push
pub mod Dequeue
pub mod Remove
pub mod Examples
use mips_os.Common.{
  ℕ, zero, suc, ◌+◌, ◌-◌, ◌*◌, ◌/◌, ◌%◌, ◌^◌, ◌≤◌, ◌<◌, ◌≡◌, refl, sym, ap, ◌∙◌, subst, fun_ext,
}
use mips_os.Common.{◌≢◌, ◌↔◌, ◌⊎◌, inl, inr, Bool, true, false, not, ◌&&◌, ◌||◌, Option, none, some}
use mips_os.Common.{
  List, [], ◌∷◌, ◌++◌, map, arith, ltb, leb, ◌==◌, if◌then◌else◌, update, points_to,
}
use mips_os.Common.{ltb→lt, ltb→le, lt→ltb, le→ltb, ==_iff, ==_self, Bool-cases, Option-cases}
use mips_os.Common.{
  Outcome, ok, fault, hang, ◌>>=◌, length, get_elem?, set, first, last_from, length-append, has,
  Distinct, has-append,
}

abbrev pub Ptr : Type 0
Ptr = Option ℕ

pub record Queue : Type 0 where
  pub head : Ptr
  pub tail : Ptr

pub record Links : Type 0 where
  pub prev : ℕ → Ptr
  pub next : ℕ → Ptr

abbrev pub set_prev : Links → ℕ → Ptr → Links
set_prev l i p = record l { prev = update l.prev i p }

abbrev pub set_next : Links → ℕ → Ptr → Links
set_next l i p = record l { next = update l.next i p }

-- `p->prev = v` and `p->next = v`, where `p` may be NULL.
abbrev pub store_prev : Ptr → Ptr → Links → Outcome Links
store_prev none v l = fault
store_prev (some i) v l = ok (set_prev l i v)

abbrev pub store_next : Ptr → Ptr → Links → Outcome Links
store_next none v l = fault
store_next (some i) v l = ok (set_next l i v)

unfoldable pub queue_init : Queue → Queue
queue_init q = record q { head = none; tail = none }

unfoldable pub queue_is_empty : Queue → Bool
queue_is_empty q = elim q.head [ none ↦ true | some _ ↦ false ]

unfoldable pub queue_push : Queue → Links → ℕ → Outcome (Queue × Links)
queue_push q l item = elim q.head [
  | none ↦
      ok
        (record q { head = some item; tail = some item }, set_prev (set_next l item none) item none)
  | some _ ↦ do
    l ← store_next q.tail (some item) l
    ok (record q { tail = some item }, set_prev (set_next l item none) item q.tail)
]

-- The walk of `queue_push_if_not_exist`: whether it meets `item`. A cyclic chain never ends.
unfoldable pub walk : ℕ → Links → Ptr → ℕ → Outcome Bool
walk zero l cur item = hang
walk (suc fuel) l none item = ok false
walk (suc fuel) l (some c) item = elim (c == item) [
  | true ↦ ok true
  | false ↦ walk fuel l (l.next c) item
]

unfoldable pub queue_push_if_not_exist : ℕ → Queue → Links → ℕ → Outcome (Queue × Links)
queue_push_if_not_exist fuel q l item = do
  found ← walk fuel l q.head item
  if found then ok (q, l) else queue_push q l item

unfoldable pub queue_dequeue : Queue → Links → Outcome (Ptr × Queue × Links)
queue_dequeue q l = elim q.head [
  | none ↦ ok (none, q, l)
  | some temp ↦ elim (l.next temp) [
    | none ↦ ok (
      some temp,
      record q { head = none; tail = none },
      set_next (set_prev l temp none) temp none,
    )
    | some n ↦ ok (
      some temp,
      record q { head = some n },
      set_next (set_prev (set_prev l n none) temp none) temp none,
    )
  ]
]

-- In the interior case the source writes through `pcb->next`, which is `pcb[0].next`, and not
-- through `_item->next`.
unfoldable pub queue_remove : Queue → Links → ℕ → Outcome (Ptr × Queue × Links)
queue_remove q l item =
    let next = l.next item in
    let clear = λ (l : Links). set_next (set_prev l item none) item none in
    let alone : Outcome (Ptr × Queue × Links) =
      ok (next, record q { head = none; tail = none }, clear l) in
    let at_head : Outcome (Ptr × Queue × Links) = (do
      l' ← store_prev next none l
      ok (next, record q { head = next }, clear l')) in
    let at_tail : Outcome (Ptr × Queue × Links) = (do
      l' ← store_next (l.prev item) none l
      ok (next, record q { tail = l.prev item }, clear l')) in
    let inside : Outcome (Ptr × Queue × Links) = (do
      l' ← store_next (l.prev item) next l
      l'' ← store_prev (l'.next 0) (l'.prev item) l'
      ok (next, q, clear l'')) in
    if points_to q.head item && points_to q.tail item
    then alone
    else if points_to q.head item
    then at_head
    else if points_to q.tail item
    then at_tail
    else inside

unfoldable pub queue_top : Queue → Ptr
queue_top q = q.head

-- Neither the tail nor a `prev` pointer is written.
unfoldable pub queue_insert_at_head : Queue → Links → ℕ → Queue × Links
queue_insert_at_head q l item = elim q.head [
  | none ↦ (record q { head = some item }, l)
  | some _ ↦ (record q { head = some item }, set_next l item q.head)
]
