-- ===== src/Mailbox/Examples.antt =====
-- The theorem on mailboxes at a mailbox with one message.
use mips_os.Common.{ℕ, ◌<◌, ◌≡◌, refl, [], ◌∷◌, arith, ◌==◌, if◌then◌else◌}
use mips_os.Mailbox.{Mailbox, mbox_put, mbox_get}
use mips_os.Mailbox.Fifo.{HoldsMessages, mbox_get-mbox_put}

-- The message of two bytes 7 stands in slot 1.
abbrev one_message : Mailbox
one_message = record {
  msg = λ i j. if i == 1 then 7 else 0;
  head = 0;
  tail = 1;
  name = 4096;
  valid = 1;
}

mbox_get-mbox_put_example :
    ((j : ℕ) → j < 2 → (mbox_get (mbox_put one_message (λ _. 9) 3) (λ _. 0) 2).0 j ≡ 7)
    × HoldsMessages (mbox_get (mbox_put one_message (λ _. 9) 3) (λ _. 0) 2).1 ((3, λ _. 9) ∷ [])
mbox_get-mbox_put_example =
    mbox_get-mbox_put one_message ((2, λ _. 7) ∷ []) ((3, λ _. 9) ∷ []) (2, λ _. 7) (λ _. 9)
      (λ _. 0) 3 2 (omega arith, omega arith, (omega arith, λ j lt. refl, refl)) (omega arith)
      (omega arith) refl (omega arith)
