-- ===== src/Irq.antt =====
-- kernel/irq/irq.c and the clock of kernel/sched/time.c: what an interrupt does to the state of the
-- scheduler. The registers of the processor and of the interrupt controller are arguments, and so is
-- the handler that the network driver installs; the screen and the timer's compare register, which the
-- handler of the timer also writes, are no part of this state.
pub mod Interrupted
pub mod Examples
use mips_os.Common.{
  ℕ, zero, suc, ◌+◌, ◌-◌, ◌*◌, ◌/◌, ◌%◌, ◌^◌, ◌≤◌, ◌<◌, ◌≡◌, refl, sym, ap, ◌∙◌, subst, fun_ext,
}
use mips_os.Common.{◌≢◌, ◌↔◌, ◌⊎◌, inl, inr, Bool, true, false, not, ◌&&◌, ◌||◌, Option, none, some}
use mips_os.Common.{
  List, [], ◌∷◌, ◌++◌, map, arith, ltb, leb, ◌==◌, if◌then◌else◌, update, points_to,
}
use mips_os.Common.{
  ltb→lt, ltb→le, lt→ltb, le→ltb, ==_iff, ==_self, update_self, update_other, Bool-cases,
  Option-cases,
}
use mips_os.Common.{
  Outcome, ok, fault, hang, ◌>>=◌, >>=-fault, >>=-returns, Ends, Ends-bind, length, get_elem?, set,
  first, last_from, length-append, has, Distinct, has-append,
}
use mips_os.Common.{bit_and}
use mips_os.Sched.{Kernel}
use mips_os.Sched.Select.{scheduler}

-- Milliseconds: the count as an `int`, divided with its sign, on a clock of 32 bits.
unfoldable pub update_time_stamp : (count : ℕ) → Kernel → Kernel
update_time_stamp count k =
    let ms_cnt = 300 * 1000 / 2 in
    let delta = if ltb count (2 ^ 31) then count / ms_cnt else 2 ^ 32 - (2 ^ 32 - count) / ms_cnt in
    record k { time_elapsed = (k.time_elapsed + delta) % 2 ^ 32 }

unfoldable pub get_timer : Kernel → ℕ
get_timer k = k.time_elapsed

unfoldable pub get_timer_in_sec : Kernel → ℕ
get_timer_in_sec k = k.time_elapsed / 1000

unfoldable pub irq_timer : (count : ℕ) → Kernel → Outcome Kernel
irq_timer count k = do k ← scheduler k; ok (update_time_stamp count k)

-- `LS1C_MAC_IRQ` is the bit of value 8; without a handler only a message is printed.
unfoldable pub irq_device :
    (int_sr : ℕ) → (mac_int_handler : Option (Kernel → Outcome Kernel)) → Kernel → Outcome Kernel
irq_device int_sr mac_int_handler k =
    if bit_and int_sr 8 == 0
    then ok k
    else elim mac_int_handler [ none ↦ ok k | some handler ↦ handler k ]

-- The interrupts that are pending and not masked.
unfoldable pub pending : (status cause : ℕ) → ℕ
pending status cause = bit_and (bit_and cause status / 256) 255

unfoldable pub interrupt_helper :
    (count int_sr : ℕ)
    → (mac_int_handler : Option (Kernel → Outcome Kernel)) → (status cause : ℕ) → Kernel
    → Outcome Kernel
interrupt_helper count int_sr mac_int_handler status cause k = do
  k ← (if bit_and (pending status cause) 128 == 0 then ok k else irq_timer count k)
  if bit_and (pending status cause) 8 == 0 then ok k else irq_device int_sr mac_int_handler k
