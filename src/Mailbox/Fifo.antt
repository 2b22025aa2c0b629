-- ===== src/Mailbox/Fifo.antt =====
-- The messages that a mailbox of libs/mailbox.c holds, in the order in which they were sent.
use mips_os.Common.{ℕ, ◌+◌, ◌%◌, ◌≤◌, ◌<◌, ◌≡◌, refl, ap, subst}
use mips_os.Common.{true, false, List, [], ◌∷◌, ◌++◌, arith, leb, ◌==◌}
use mips_os.Common.{lt→ltb, ==_self, length}
use mips_os.Mailbox.{Mailbox, mbox_put, mbox_get, msg_max_len, msg_max_num}

-- The length of a message and its bytes.
abbrev pub Message : Type 0
Message = ℕ × (ℕ → ℕ)

-- From the slot after `i` on, the messages stand up to the slot `last`.
abbrev pub Waits : (ℕ → ℕ → ℕ) → (i last : ℕ) → List Message → Type 0
Waits msg i last [] = i ≡ last
Waits msg i last (m ∷ ms) =
    (m.0 ≤ msg_max_len)
    × ((j : ℕ) → j < m.0 → msg ((i + 1) % msg_max_num) j ≡ m.1 j)
    × Waits msg ((i + 1) % msg_max_num) last ms

abbrev pub HoldsMessages : Mailbox → List Message → Type 0
HoldsMessages mb ms =
    (mb.head < msg_max_num) × (length ms ≤ msg_max_num) × Waits mb.msg mb.head mb.tail ms

leb-true : (a b : ℕ) → a ≤ b → leb a b ≡ true
leb-true a b le = ground (arith, le)

-- A message that is sent to a mailbox with a free slot comes after those that wait in it.
HoldsMessages-mbox_put :
    (mb : Mailbox) (ms : List Message) (msg : ℕ → ℕ) (n : ℕ)
    → HoldsMessages mb ms
    → length ms < msg_max_num
    → n ≤ msg_max_len
    → HoldsMessages (mbox_put mb msg n) (ms ++ (n, msg) ∷ [])
unfolding mbox_put
HoldsMessages-mbox_put mb [] msg n (low, _, here) free fits =
    let slot : (mb.head + 1) % 2 ≡ (mb.tail + 1) % 2 = ap (λ (i : ℕ). (i + 1) % 2) here in
    rw (leb-true n 64 fits, slot)
      (low, omega arith, (fits, λ j lt. rw (==_self ((mb.tail + 1) % 2), lt→ltb j n lt) refl, refl))
HoldsMessages-mbox_put mb (m ∷ []) msg n (low, _, (short, same, here)) free fits =
    let next : ((mb.head + 1) % 2 + 1) % 2 ≡ (mb.tail + 1) % 2 = ap (λ (i : ℕ). (i + 1) % 2) here in
    let other : ((mb.head + 1) % 2 == (mb.tail + 1) % 2) ≡ false = ground (arith, here) in
    rw (leb-true n 64 fits, next)
      (
        low,
        omega arith,
        (
          short,
          λ j lt. rw other (same j lt),
          (fits, λ j lt. rw (==_self ((mb.tail + 1) % 2), lt→ltb j n lt) refl, refl),
        ),
      )
HoldsMessages-mbox_put mb (m ∷ m' ∷ ms) msg n h free fits = absurd (omega (arith, free))

-- A receiver that takes no more bytes than the first message has gets these, and the others stay.
HoldsMessages-mbox_get :
    (mb : Mailbox) (m : Message) (ms : List Message) (buf : ℕ → ℕ) (n : ℕ)
    → HoldsMessages mb (m ∷ ms)
    → n ≤ m.0
    → ((j : ℕ) → j < n → (mbox_get mb buf n).0 j ≡ m.1 j) × HoldsMessages (mbox_get mb buf n).1 ms
unfolding mbox_get
HoldsMessages-mbox_get mb m ms buf n (low, room, (short, same, rest)) le =
    rw (leb-true n 64 (omega (arith, le, short))) (
      λ j lt. rw (lt→ltb j n lt) (same j (omega (arith, le, lt))),
      (omega arith, omega (arith, room), rest),
    )

-- After a message of at most 64 bytes is sent to a mailbox with a free slot, a receiver that takes no
-- more bytes than the first of all the messages has gets the bytes of this message, and the mailbox
-- holds the others in their order.
pub mbox_get-mbox_put :
    (mb : Mailbox) (ms rest : List Message) (m : Message) (msg buf : ℕ → ℕ) (n k : ℕ)
    → HoldsMessages mb ms
    → length ms < msg_max_num
    → n ≤ msg_max_len
    → ms ++ (n, msg) ∷ [] ≡ m ∷ rest
    → k ≤ m.0
    → ((j : ℕ) → j < k → (mbox_get (mbox_put mb msg n) buf k).0 j ≡ m.1 j)
      × HoldsMessages (mbox_get (mbox_put mb msg n) buf k).1 rest
mbox_get-mbox_put mb ms rest m msg buf n k h free fits all le =
    HoldsMessages-mbox_get (mbox_put mb msg n) m rest buf k
      (subst (HoldsMessages (mbox_put mb msg n)) all
        (HoldsMessages-mbox_put mb ms msg n h free fits))
      le
