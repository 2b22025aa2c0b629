-- ===== src/Syscall/Stubs.antt =====
-- The stubs of kernel/syscall/syscall.c, which user programs call: the trap that each one raises.
use mips_os.Common.{ℕ}
use mips_os.Syscall.{Trap}
use mips_os.Syscall.Numbers.{
  ignore, screen_height, syscall_barrier_init, syscall_barrier_wait, syscall_block, syscall_cat,
  syscall_change_dir, syscall_clear, syscall_cond_broadcast, syscall_cond_init, syscall_cond_signal,
  syscall_cond_wait, syscall_cursor, syscall_exec, syscall_exit, syscall_fclose, syscall_find,
  syscall_fopen, syscall_fread, syscall_fs_info, syscall_fseek, syscall_fwrite, syscall_get_pid,
  syscall_getchar, syscall_kill, syscall_link, syscall_mac_init, syscall_mkdir, syscall_mkfs,
  syscall_mknod, syscall_mutex_lock_acquire, syscall_mutex_lock_init, syscall_mutex_lock_release,
  syscall_mutex_lock_release_multiple, syscall_net_recv, syscall_net_send,
  syscall_net_wait_recv_pkg, syscall_ps, syscall_read_dir, syscall_reboot, syscall_reflush,
  syscall_rename, syscall_rmdir, syscall_semaphore_down, syscall_semaphore_init,
  syscall_semaphore_up, syscall_sleep, syscall_spawn, syscall_spawn_priority, syscall_unblock_all,
  syscall_unblock_one, syscall_wait, syscall_write,
}

abbrev invoke_syscall : ℕ → ℕ → ℕ → ℕ → Trap
invoke_syscall fn a1 a2 a3 = record { fn = fn; arg1 = a1; arg2 = a2; arg3 = a3 }

pub data SchedCall : Type 0 where
  sys_sleep : (time : ℕ) → SchedCall
  sys_block : (queue : ℕ) → SchedCall
  sys_unblock_one : (queue : ℕ) → SchedCall
  sys_unblock_all : (queue : ℕ) → SchedCall

unfoldable pub sched_stub : SchedCall → Trap
sched_stub (sys_sleep time) = invoke_syscall syscall_sleep time ignore ignore
sched_stub (sys_block queue) = invoke_syscall syscall_block queue ignore ignore
sched_stub (sys_unblock_one queue) = invoke_syscall syscall_unblock_one queue ignore ignore
sched_stub (sys_unblock_all queue) = invoke_syscall syscall_unblock_all queue ignore ignore

pub data ScreenCall : Type 0 where
  sys_write : (buff : ℕ) → ScreenCall
  sys_reflush : ScreenCall
  sys_clear : ScreenCall
  sys_move_cursor : (x y : ℕ) → ScreenCall

unfoldable pub screen_stub : ScreenCall → Trap
screen_stub (sys_write buff) = invoke_syscall syscall_write buff ignore ignore
screen_stub sys_reflush = invoke_syscall syscall_reflush ignore ignore ignore
screen_stub sys_clear = invoke_syscall syscall_clear 0 screen_height ignore
screen_stub (sys_move_cursor x y) = invoke_syscall syscall_cursor x y ignore

pub data LockCall : Type 0 where
  mutex_lock_init : (lock : ℕ) → LockCall
  mutex_lock_acquire : (lock : ℕ) → LockCall
  mutex_lock_release : (lock : ℕ) → LockCall
  mutex_lock_release_multiple : (locks num : ℕ) → LockCall

unfoldable pub lock_stub : LockCall → Trap
lock_stub (mutex_lock_init lock) = invoke_syscall syscall_mutex_lock_init lock ignore ignore
lock_stub (mutex_lock_acquire lock) = invoke_syscall syscall_mutex_lock_acquire lock ignore ignore
lock_stub (mutex_lock_release lock) = invoke_syscall syscall_mutex_lock_release lock ignore ignore
lock_stub (mutex_lock_release_multiple locks num) =
    invoke_syscall syscall_mutex_lock_release_multiple locks num ignore

pub data ProcessCall : Type 0 where
  sys_ps : ProcessCall
  sys_exit : ProcessCall
  sys_spawn : (task arg : ℕ) → ProcessCall
  sys_spawn_with_priority : (task priority arg : ℕ) → ProcessCall
  sys_get_pid : (entry_point result : ℕ) → ProcessCall
  sys_waitpid : (pid : ℕ) → ProcessCall
  sys_exec : (task_id arg : ℕ) → ProcessCall
  sys_kill : (pid : ℕ) → ProcessCall
  sys_getchar : (s : ℕ) → ProcessCall

unfoldable pub process_stub : ProcessCall → Trap
process_stub sys_ps = invoke_syscall syscall_ps ignore ignore ignore
process_stub sys_exit = invoke_syscall syscall_exit ignore ignore ignore
process_stub (sys_spawn task arg) = invoke_syscall syscall_spawn task arg ignore
process_stub (sys_spawn_with_priority task priority arg) =
    invoke_syscall syscall_spawn_priority task priority arg
process_stub (sys_get_pid entry_point result) =
    invoke_syscall syscall_get_pid entry_point result ignore
process_stub (sys_waitpid pid) = invoke_syscall syscall_wait pid ignore ignore
process_stub (sys_exec task_id arg) = invoke_syscall syscall_exec task_id arg ignore
process_stub (sys_kill pid) = invoke_syscall syscall_kill pid ignore ignore
process_stub (sys_getchar s) = invoke_syscall syscall_getchar s ignore ignore

pub data SyncCall : Type 0 where
  semaphore_init : (sem val : ℕ) → SyncCall
  semaphore_up : (sem : ℕ) → SyncCall
  semaphore_down : (sem : ℕ) → SyncCall
  condition_init : (cond : ℕ) → SyncCall
  condition_wait : (lock cond : ℕ) → SyncCall
  condition_signal : (cond : ℕ) → SyncCall
  condition_broadcast : (cond : ℕ) → SyncCall
  barrier_init : (barrier bound : ℕ) → SyncCall
  barrier_wait : (barrier : ℕ) → SyncCall

unfoldable pub sync_stub : SyncCall → Trap
sync_stub (semaphore_init sem val) = invoke_syscall syscall_semaphore_init sem val ignore
sync_stub (semaphore_up sem) = invoke_syscall syscall_semaphore_up sem ignore ignore
sync_stub (semaphore_down sem) = invoke_syscall syscall_semaphore_down sem ignore ignore
sync_stub (condition_init cond) = invoke_syscall syscall_cond_init cond ignore ignore
sync_stub (condition_wait lock cond) = invoke_syscall syscall_cond_wait lock cond ignore
sync_stub (condition_signal cond) = invoke_syscall syscall_cond_signal cond ignore ignore
sync_stub (condition_broadcast cond) = invoke_syscall syscall_cond_broadcast cond ignore ignore
sync_stub (barrier_init barrier bound) = invoke_syscall syscall_barrier_init barrier bound ignore
sync_stub (barrier_wait barrier) = invoke_syscall syscall_barrier_wait barrier ignore ignore

pub data DeviceCall : Type 0 where
  sys_reboot : DeviceCall
  sys_init_mac : DeviceCall
  sys_net_send : (td td_phy : ℕ) → DeviceCall
  sys_net_recv : (rd rd_phy daddr : ℕ) → DeviceCall
  sys_wait_recv_package : (waiting_desc : ℕ) → DeviceCall

unfoldable pub device_stub : DeviceCall → Trap
device_stub sys_reboot = invoke_syscall syscall_reboot ignore ignore ignore
device_stub sys_init_mac = invoke_syscall syscall_mac_init ignore ignore ignore
device_stub (sys_net_send td td_phy) = invoke_syscall syscall_net_send td td_phy ignore
device_stub (sys_net_recv rd rd_phy daddr) = invoke_syscall syscall_net_recv rd rd_phy daddr
device_stub (sys_wait_recv_package waiting_desc) =
    invoke_syscall syscall_net_wait_recv_pkg waiting_desc ignore ignore

pub data FileCall : Type 0 where
  sys_mkfs : FileCall
  sys_statfs : FileCall
  sys_ls : (name : ℕ) → FileCall
  sys_mkdir : (name : ℕ) → FileCall
  sys_rm : (name : ℕ) → FileCall
  sys_cd : (name : ℕ) → FileCall
  sys_touch : (name : ℕ) → FileCall
  sys_cat : (name : ℕ) → FileCall
  sys_fopen : (name access : ℕ) → FileCall
  sys_fwrite : (fd buf sz : ℕ) → FileCall
  sys_fread : (fd buf sz : ℕ) → FileCall
  sys_fclose : (fd : ℕ) → FileCall
  sys_fseek : (fd pos : ℕ) → FileCall
  sys_link : (master servant link_type : ℕ) → FileCall
  sys_find : (path name : ℕ) → FileCall
  sys_rename : (old new : ℕ) → FileCall

unfoldable pub file_stub : FileCall → Trap
file_stub sys_mkfs = invoke_syscall syscall_mkfs ignore ignore ignore
file_stub sys_statfs = invoke_syscall syscall_fs_info ignore ignore ignore
file_stub (sys_ls name) = invoke_syscall syscall_read_dir name ignore ignore
file_stub (sys_mkdir name) = invoke_syscall syscall_mkdir name ignore ignore
file_stub (sys_rm name) = invoke_syscall syscall_rmdir name ignore ignore
file_stub (sys_cd name) = invoke_syscall syscall_change_dir name ignore ignore
file_stub (sys_touch name) = invoke_syscall syscall_mknod name ignore ignore
file_stub (sys_cat name) = invoke_syscall syscall_cat name ignore ignore
file_stub (sys_fopen name access) = invoke_syscall syscall_fopen name access ignore
file_stub (sys_fwrite fd buf sz) = invoke_syscall syscall_fwrite fd buf sz
file_stub (sys_fread fd buf sz) = invoke_syscall syscall_fread fd buf sz
file_stub (sys_fclose fd) = invoke_syscall syscall_fclose fd ignore ignore
file_stub (sys_fseek fd pos) = invoke_syscall syscall_fseek fd ignore ignore
file_stub (sys_link master servant link_type) = invoke_syscall syscall_link master servant link_type
file_stub (sys_find path name) = invoke_syscall syscall_find path name ignore
file_stub (sys_rename old new) = invoke_syscall syscall_rename old new ignore

pub data Call : Type 0 where
  sched_call : SchedCall → Call
  screen_call : ScreenCall → Call
  lock_call : LockCall → Call
  process_call : ProcessCall → Call
  sync_call : SyncCall → Call
  device_call : DeviceCall → Call
  file_call : FileCall → Call

unfoldable pub stub : Call → Trap
stub (sched_call c) = sched_stub c
stub (screen_call c) = screen_stub c
stub (lock_call c) = lock_stub c
stub (process_call c) = process_stub c
stub (sync_call c) = sync_stub c
stub (device_call c) = device_stub c
stub (file_call c) = file_stub c
