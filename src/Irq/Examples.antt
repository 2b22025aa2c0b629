-- ===== src/Irq/Examples.antt =====
-- A timer interrupt in the state of the scheduler's tests.
use mips_os.Irq.Interrupted.{Interrupted}
