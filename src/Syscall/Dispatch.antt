-- ===== src/Syscall/Dispatch.antt =====
-- That each stub of kernel/syscall/syscall.c reaches the handler it is written for.
use mips_os.Common.{ℕ, ◌≡◌, refl, ◌∙◌}
use mips_os.Common.{inl, inr, Bool, true, false, Option, none, some}
use mips_os.Common.{List, [], ◌∷◌, map, arith, ltb, update}
use mips_os.Common.{update_other}
use mips_os.Common.{update_other, Bool-cases}
use mips_os.Common.{ok, fault, has}
use mips_os.Syscall.Numbers.{num_syscalls}
use mips_os.Syscall.{
  run_entry, assign, Request, Trap, Entry, assignments, init_syscall, system_call_helper, do_sleep,
  do_block, do_unblock_one, do_unblock_all, screen_write, screen_move_cursor, screen_reflush,
  do_mutex_lock_init, do_mutex_lock_acquire, do_mutex_lock_release, do_mutex_lock_release_multiple,
  screen_clear, do_ps, do_spawn, do_spawn_with_priority, do_exit, do_get_pid, do_waitpid, do_exec,
  do_kill, do_getchar, do_semaphore_init, do_semaphore_up, do_semaphore_down, do_condition_init,
  do_condition_wait, do_condition_signal, do_condition_broadcast, do_barrier_init, do_barrier_wait,
  do_reboot, do_init_mac, do_net_send, do_net_recv, do_wait_recv_package, do_mkfs, do_print_fs_info,
  do_ls, do_mkdir, do_rm, do_cd, do_touch, do_cat, do_fopen, do_fread, do_fwrite, do_fclose,
  do_fseek, do_link, do_find, do_rename,
}
use mips_os.Syscall.Stubs.{
  Call, stub, SchedCall, sched_call, sched_stub, ScreenCall, screen_call, screen_stub, LockCall,
  lock_call, lock_stub, ProcessCall, process_call, process_stub, SyncCall, sync_call, sync_stub,
  DeviceCall, device_call, device_stub, FileCall, file_call, file_stub, sys_sleep, sys_block,
  sys_unblock_one, sys_unblock_all, sys_write, sys_reflush, sys_clear, sys_move_cursor,
  mutex_lock_init, mutex_lock_acquire, mutex_lock_release, mutex_lock_release_multiple, sys_ps,
  sys_exit, sys_spawn, sys_spawn_with_priority, sys_get_pid, sys_waitpid, sys_exec, sys_kill,
  sys_getchar, semaphore_init, semaphore_up, semaphore_down, condition_init, condition_wait,
  condition_signal, condition_broadcast, barrier_init, barrier_wait, sys_reboot, sys_init_mac,
  sys_net_send, sys_net_recv, sys_wait_recv_package, sys_mkfs, sys_statfs, sys_ls, sys_mkdir,
  sys_rm, sys_cd, sys_touch, sys_cat, sys_fopen, sys_fwrite, sys_fread, sys_fclose, sys_fseek,
  sys_link, sys_find, sys_rename,
}

unfoldable pub sched_request : SchedCall → Request
sched_request (sys_sleep time) = do_sleep time
sched_request (sys_block queue) = do_block queue
sched_request (sys_unblock_one queue) = do_unblock_one queue
sched_request (sys_unblock_all queue) = do_unblock_all queue

unfoldable pub screen_request : ScreenCall → Request
screen_request (sys_write buff) = screen_write buff
screen_request sys_reflush = screen_reflush
screen_request sys_clear = screen_clear 0 30
screen_request (sys_move_cursor x y) = screen_move_cursor x y

unfoldable pub lock_request : LockCall → Request
lock_request (mutex_lock_init lock) = do_mutex_lock_init lock
lock_request (mutex_lock_acquire lock) = do_mutex_lock_acquire lock
lock_request (mutex_lock_release lock) = do_mutex_lock_release lock
lock_request (mutex_lock_release_multiple locks num) = do_mutex_lock_release_multiple locks num

unfoldable pub process_request : ProcessCall → Request
process_request sys_ps = do_ps
process_request sys_exit = do_exit
process_request (sys_spawn task arg) = do_spawn task arg
process_request (sys_spawn_with_priority task priority arg) =
    do_spawn_with_priority task priority arg
process_request (sys_get_pid entry_point result) = do_get_pid entry_point result
process_request (sys_waitpid pid) = do_waitpid pid
process_request (sys_exec task_id arg) = do_exec task_id arg
process_request (sys_kill pid) = do_kill pid
process_request (sys_getchar s) = do_getchar s

unfoldable pub sync_request : SyncCall → Request
sync_request (semaphore_init sem val) = do_semaphore_init sem val
sync_request (semaphore_up sem) = do_semaphore_up sem
sync_request (semaphore_down sem) = do_semaphore_down sem
sync_request (condition_init cond) = do_condition_init cond
sync_request (condition_wait lock cond) = do_condition_wait lock cond
sync_request (condition_signal cond) = do_condition_signal cond
sync_request (condition_broadcast cond) = do_condition_broadcast cond
sync_request (barrier_init barrier bound) = do_barrier_init barrier bound
sync_request (barrier_wait barrier) = do_barrier_wait barrier

unfoldable pub device_request : DeviceCall → Request
device_request sys_reboot = do_reboot
device_request sys_init_mac = do_init_mac
device_request (sys_net_send td td_phy) = do_net_send td td_phy
device_request (sys_net_recv rd rd_phy daddr) = do_net_recv rd rd_phy daddr
device_request (sys_wait_recv_package waiting_desc) = do_wait_recv_package waiting_desc

unfoldable pub file_request : FileCall → Request
file_request sys_mkfs = do_mkfs
file_request sys_statfs = do_print_fs_info
file_request (sys_ls name) = do_ls name
file_request (sys_mkdir name) = do_mkdir name
file_request (sys_rm name) = do_rm name
file_request (sys_cd name) = do_cd name
file_request (sys_touch name) = do_touch name
file_request (sys_cat name) = do_cat name
file_request (sys_fopen name access) = do_fopen name access
file_request (sys_fwrite fd buf sz) = do_fwrite fd buf sz
file_request (sys_fread fd buf sz) = do_fread fd buf sz
file_request (sys_fclose fd) = do_fclose fd
file_request (sys_fseek fd pos) = do_fseek fd pos
file_request (sys_link master servant link_type) = do_link master servant link_type
file_request (sys_find path name) = do_find path name
file_request (sys_rename old new) = do_rename old new

-- What a caller of the stub asks for: the handler of that service, with the parameters of the
-- stub in their order.
unfoldable pub request : Call → Request
unfolding sched_request screen_request lock_request process_request sync_request device_request
    file_request
request (sched_call c) = sched_request c
request (screen_call c) = screen_request c
request (lock_call c) = lock_request c
request (process_call c) = process_request c
request (sync_call c) = sync_request c
request (device_call c) = device_request c
request (file_call c) = file_request c

abbrev pub is_fseek : Call → Bool
is_fseek (file_call (sys_fseek fd pos)) = true
is_fseek _ = false

sched_served :
    (c : SchedCall) → system_call_helper init_syscall (sched_stub c) ≡ ok (sched_request c)
unfolding sched_stub sched_request system_call_helper init_syscall
sched_served (sys_sleep time) = refl
sched_served (sys_block queue) = refl
sched_served (sys_unblock_one queue) = refl
sched_served (sys_unblock_all queue) = refl

screen_served :
    (c : ScreenCall) → system_call_helper init_syscall (screen_stub c) ≡ ok (screen_request c)
unfolding screen_stub screen_request system_call_helper init_syscall
screen_served (sys_write buff) = refl
screen_served sys_reflush = refl
screen_served sys_clear = refl
screen_served (sys_move_cursor x y) = refl

lock_served : (c : LockCall) → system_call_helper init_syscall (lock_stub c) ≡ ok (lock_request c)
unfolding lock_stub lock_request system_call_helper init_syscall
lock_served (mutex_lock_init lock) = refl
lock_served (mutex_lock_acquire lock) = refl
lock_served (mutex_lock_release lock) = refl
lock_served (mutex_lock_release_multiple locks num) = refl

process_served :
    (c : ProcessCall) → system_call_helper init_syscall (process_stub c) ≡ ok (process_request c)
unfolding process_stub process_request system_call_helper init_syscall
process_served sys_ps = refl
process_served sys_exit = refl
process_served (sys_spawn task arg) = refl
process_served (sys_spawn_with_priority task priority arg) = refl
process_served (sys_get_pid entry_point result) = refl
process_served (sys_waitpid pid) = refl
process_served (sys_exec task_id arg) = refl
process_served (sys_kill pid) = refl
process_served (sys_getchar s) = refl

sync_served : (c : SyncCall) → system_call_helper init_syscall (sync_stub c) ≡ ok (sync_request c)
unfolding sync_stub sync_request system_call_helper init_syscall
sync_served (semaphore_init sem val) = refl
sync_served (semaphore_up sem) = refl
sync_served (semaphore_down sem) = refl
sync_served (condition_init cond) = refl
sync_served (condition_wait lock cond) = refl
sync_served (condition_signal cond) = refl
sync_served (condition_broadcast cond) = refl
sync_served (barrier_init barrier bound) = refl
sync_served (barrier_wait barrier) = refl

device_served :
    (c : DeviceCall) → system_call_helper init_syscall (device_stub c) ≡ ok (device_request c)
unfolding device_stub device_request system_call_helper init_syscall
device_served sys_reboot = refl
device_served sys_init_mac = refl
device_served (sys_net_send td td_phy) = refl
device_served (sys_net_recv rd rd_phy daddr) = refl
device_served (sys_wait_recv_package waiting_desc) = refl

file_served :
    (c : FileCall)
    → is_fseek (file_call c) ≡ false
    → system_call_helper init_syscall (file_stub c) ≡ ok (file_request c)
unfolding file_stub file_request system_call_helper init_syscall
file_served sys_mkfs h = refl
file_served sys_statfs h = refl
file_served (sys_ls name) h = refl
file_served (sys_mkdir name) h = refl
file_served (sys_rm name) h = refl
file_served (sys_cd name) h = refl
file_served (sys_touch name) h = refl
file_served (sys_cat name) h = refl
file_served (sys_fopen name access) h = refl
file_served (sys_fwrite fd buf sz) h = refl
file_served (sys_fread fd buf sz) h = refl
file_served (sys_fclose fd) h = refl
file_served (sys_fseek fd pos) h = absurd cc
file_served (sys_link master servant link_type) h = refl
file_served (sys_find path name) h = refl
file_served (sys_rename old new) h = refl

-- Every stub but `sys_fseek` ends in the handler of its service, called with the parameters of the
-- stub in their order.
pub system_call_helper-stub :
    (c : Call) → is_fseek c ≡ false → system_call_helper init_syscall (stub c) ≡ ok (request c)
unfolding stub request
system_call_helper-stub (sched_call c) h = sched_served c
system_call_helper-stub (screen_call c) h = screen_served c
system_call_helper-stub (lock_call c) h = lock_served c
system_call_helper-stub (process_call c) h = process_served c
system_call_helper-stub (sync_call c) h = sync_served c
system_call_helper-stub (device_call c) h = device_served c
system_call_helper-stub (file_call c) h = file_served c h

-- `sys_fseek` seeks to position 0 whatever position it is given.
pub system_call_helper-sys_fseek :
    (fd pos : ℕ)
    → system_call_helper init_syscall (file_stub (sys_fseek fd pos)) ≡ ok (do_fseek fd 0)
unfolding system_call_helper init_syscall file_stub
system_call_helper-sys_fseek fd pos = refl

assign-has :
    (l : List (ℕ × Entry)) (table : ℕ → Option Entry) (fn : ℕ)
    → has fn (map (λ a. a.0) l) ≡ false
    → assign l table fn ≡ table fn
unfolding assign
assign-has [] table fn h = refl
assign-has (a ∷ rest) table fn h =
    assign-has rest (update table a.0 (some a.1)) fn (ground arith)
    ∙ update_other table a.0 (some a.1) fn (ground arith)

-- A trap whose number no line of `init_syscall` assigns, as 21 of SYSCALL_READ, jumps to a wild address.
pub system_call_helper-unassigned :
    (t : Trap)
    → has t.fn (map (λ a. a.0) assignments) ≡ false
    → system_call_helper init_syscall t ≡ fault
unfolding system_call_helper init_syscall
system_call_helper-unassigned t h = elim (Bool-cases (ltb t.fn num_syscalls)) [
  | inl small ↦ rw (small, assign-has assignments (λ fn. none) t.fn h) (unfold run_entry in refl)
  | inr big ↦ rw big refl
]
