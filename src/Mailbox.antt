-- ===== src/Mailbox.antt =====
-- libs/mailbox.c and include/libs/mailbox.h: the table of mailboxes. Sending and receiving are modelled
-- by what they do while they hold the lock of the mailbox, `mbox_put` and `mbox_get`. `mutexes`,
-- `empty` and `full` number the locks and semaphores of the mailboxes.
pub mod Fifo
pub mod Examples
use mips_os.Common.{ℕ, zero, suc, ◌+◌, ◌%◌}
use mips_os.Common.{◌&&◌, Option, none, some}
use mips_os.Common.{ltb, leb, ◌==◌, if◌then◌else◌, update}
use mips_os.Common.{Outcome, ok, ◌>>=◌}
use mips_os.Sched.{Kernel}
use mips_os.Locks.{do_mutex_lock_init, do_semaphore_init}
use mips_os.Text.{strcmp}

abbrev pub msg_max_len : ℕ
msg_max_len = 64

abbrev pub msg_max_num : ℕ
msg_max_num = 2

abbrev pub mailbox_max_num : ℕ
mailbox_max_num = 8

-- A name is the address of its string.
pub record Mailbox : Type 0 where
  pub msg : ℕ → ℕ → ℕ
  pub head : ℕ
  pub tail : ℕ
  pub name : ℕ
  pub valid : ℕ

abbrev pub cleared : Mailbox → Mailbox
cleared mb = record mb {
  msg = λ k j. if ltb k msg_max_num && ltb j msg_max_len then 0 else mb.msg k j;
  valid = 0;
  name = 0;
  head = 0;
  tail = 0;
}

-- The rounds of `mbox_init` below `n`.
unfoldable pub mbox_init_below :
    (mutexes empty full : ℕ → ℕ) → ℕ → (ℕ → Mailbox) × Kernel → (ℕ → Mailbox) × Kernel
mbox_init_below mutexes empty full zero s = s
mbox_init_below mutexes empty full (suc n) s =
    let (boxes, k) = mbox_init_below mutexes empty full n s in
    (
      update boxes n (cleared (boxes n)),
      do_semaphore_init (full n) 0
          (do_semaphore_init (empty n) msg_max_num (do_mutex_lock_init (mutexes n) k)),
    )

unfoldable pub mbox_init :
    (mutexes empty full : ℕ → ℕ) → (ℕ → Mailbox) × Kernel → (ℕ → Mailbox) × Kernel
mbox_init mutexes empty full s = mbox_init_below mutexes empty full mailbox_max_num s

-- The search of `mbox_open` for an open mailbox of the name, from `i`.
unfoldable pub find_name : ℕ → ℕ → (ℕ → ℕ) → ℕ → (ℕ → Mailbox) → ℕ → Outcome (Option ℕ)
find_name fuel zero mem name boxes i = ok none
find_name fuel (suc left) mem name boxes i =
    let next = find_name fuel left mem name boxes (i + 1) in
    let compared : Outcome (Option ℕ) = (do
      r ← strcmp fuel mem name (boxes i).name
      if r == 0 then ok (some i) else next) in
    if (boxes i).valid == 0 then next else compared

-- The search for a mailbox that is not open.
unfoldable pub find_invalid : ℕ → (ℕ → Mailbox) → ℕ → Option ℕ
find_invalid zero boxes i = none
find_invalid (suc left) boxes i =
    let next = find_invalid left boxes (i + 1) in if (boxes i).valid == 0 then some i else next

unfoldable pub mbox_open : ℕ → (ℕ → ℕ) → ℕ → (ℕ → Mailbox) → Outcome (Option ℕ × (ℕ → Mailbox))
mbox_open fuel mem name boxes = do
  found ← find_name fuel mailbox_max_num mem name boxes 0
  elim found [
    | some i ↦ ok (some i, boxes)
    | none ↦ elim (find_invalid mailbox_max_num boxes 0) [
      | none ↦ ok (none, boxes)
      | some i ↦ ok (some i, update boxes i (record (boxes i) { name = name; valid = 1 }))
    ]
  ]

unfoldable pub mbox_close : ℕ → (ℕ → Mailbox) → ℕ → Mailbox
mbox_close i boxes = update boxes i (record (boxes i) { valid = 0 })

unfoldable pub mbox_put : Mailbox → (msg : ℕ → ℕ) → (msg_length : ℕ) → Mailbox
mbox_put mb msg msg_length =
    let cnt = (mb.tail + 1) % msg_max_num in
    record mb {
      tail = cnt;
      msg =
          if leb msg_length msg_max_len
          then update mb.msg cnt (λ i. if ltb i msg_length then msg i else mb.msg cnt i)
          else mb.msg;
    }

unfoldable pub mbox_get : Mailbox → (msg : ℕ → ℕ) → (msg_length : ℕ) → (ℕ → ℕ) × Mailbox
mbox_get mb msg msg_length =
    let cnt = (mb.head + 1) % msg_max_num in
    (
      if leb msg_length msg_max_len
          then (λ (i : ℕ). if ltb i msg_length then mb.msg cnt i else msg i)
          else msg,
      record mb { head = cnt },
    )
