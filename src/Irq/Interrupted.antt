-- ===== src/Irq/Interrupted.antt =====
-- What an interrupt of kernel/irq/irq.c does before the network driver has installed its handler.
use mips_os.Common.{ℕ, ◌+◌, ◌/◌, ◌^◌, ◌<◌, ◌≡◌}
use mips_os.Common.{Bool, true}
use mips_os.Common.{List, arith}
use mips_os.Common.{lt→ltb}
use mips_os.Common.{Ends-bind}
use mips_os.Common.{Ends-bind}
use mips_os.Sched.{Kernel}
use mips_os.Common.{◌+◌, ◌%◌, false}
use mips_os.Sched.Next.{Scheduled, chosen_queue}
use mips_os.Irq.{update_time_stamp}

-- What is left: with the timer pending, a run of the scheduler, and the clock `count` cycles later,
-- at 150000 cycles each millisecond; without it, everything as it was.
abbrev pub Interrupted : (count last : ℕ) → Bool → Kernel → (ℕ → List ℕ) → Kernel → Type 0
Interrupted count last true k content new =
    Scheduled k content (chosen_queue k content last) (record new { time_elapsed = k.time_elapsed })
    × (new.time_elapsed ≡ (k.time_elapsed + count / 150000) % 2 ^ 32)
Interrupted count last false k content new = new ≡ k

-- The time of `count` cycles since the last interrupt is added in milliseconds, at 150000 cycles each,
-- and the clock does not go back unless it wraps: the count is that of an `int` that is not negative.
pub update_time_stamp_lem :
    (count : ℕ) (k : Kernel)
    → count < 2 ^ 31
    → k.time_elapsed + count / 150000 < 2 ^ 32
    → (update_time_stamp count k).time_elapsed ≡ k.time_elapsed + count / 150000
unfolding update_time_stamp
update_time_stamp_lem count k small fits = rw (lt→ltb count (2 ^ 31) small) (omega arith)
