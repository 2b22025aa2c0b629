-- ===== src/Syscall.antt =====
-- The table of the handlers: `init_syscall` of init/main.c and `system_call_helper` of
-- kernel/syscall/syscall.c. A request is a call of a handler, with the handler's own parameters.
pub mod Numbers
pub mod Stubs
pub mod Dispatch
pub mod Examples
use mips_os.Common.{
  ℕ, zero, suc, ◌+◌, ◌-◌, ◌*◌, ◌/◌, ◌%◌, ◌^◌, ◌≤◌, ◌<◌, ◌≡◌, refl, sym, ap, ◌∙◌, subst, fun_ext,
}
use mips_os.Common.{◌≢◌, ◌↔◌, ◌⊎◌, inl, inr, Bool, true, false, not, ◌&&◌, ◌||◌, Option, none, some}
use mips_os.Common.{
  List, [], ◌∷◌, ◌++◌, map, arith, ltb, leb, ◌==◌, if◌then◌else◌, update, points_to,
}
use mips_os.Common.{
  ltb→lt, ltb→le, lt→ltb, le→ltb, ==_iff, ==_self, update_self, update_other, Bool-cases,
  Option-cases,
}
use mips_os.Common.{
  Outcome, ok, fault, hang, ◌>>=◌, >>=-fault, >>=-returns, Ends, Ends-bind, length, get_elem?, set,
  first, last_from, length-append, has, Distinct, has-append,
}
use mips_os.Syscall.Numbers.{
  num_syscalls, syscall_barrier_init, syscall_barrier_wait, syscall_block, syscall_cat,
  syscall_change_dir, syscall_clear, syscall_cond_broadcast, syscall_cond_init, syscall_cond_signal,
  syscall_cond_wait, syscall_cursor, syscall_exec, syscall_exit, syscall_fclose, syscall_find,
  syscall_fopen, syscall_fread, syscall_fs_info, syscall_fseek, syscall_fwrite, syscall_get_pid,
  syscall_getchar, syscall_kill, syscall_link, syscall_mac_init, syscall_mkdir, syscall_mkfs,
  syscall_mknod, syscall_mutex_lock_acquire, syscall_mutex_lock_init, syscall_mutex_lock_release,
  syscall_mutex_lock_release_multiple, syscall_net_recv, syscall_net_send,
  syscall_net_wait_recv_pkg, syscall_ps, syscall_read_dir, syscall_reboot, syscall_reflush,
  syscall_rename, syscall_rmdir, syscall_semaphore_down, syscall_semaphore_init,
  syscall_semaphore_up, syscall_sleep, syscall_spawn, syscall_spawn_priority, syscall_unblock_all,
  syscall_unblock_one, syscall_wait, syscall_write,
}

-- The call of a handler that a trap ends in.
pub data Request : Type 0 where
  do_sleep : (sleep_time : ℕ) → Request
  do_block : (blk_queue : ℕ) → Request
  do_unblock_one : (queue : ℕ) → Request
  do_unblock_all : (queue : ℕ) → Request
  screen_write : (buff : ℕ) → Request
  screen_move_cursor : (x y : ℕ) → Request
  screen_reflush : Request
  do_mutex_lock_init : (lock : ℕ) → Request
  do_mutex_lock_acquire : (lock : ℕ) → Request
  do_mutex_lock_release : (lock : ℕ) → Request
  do_mutex_lock_release_multiple : (locks num : ℕ) → Request
  screen_clear : (line1 line2 : ℕ) → Request
  do_ps : Request
  do_spawn : (task arg : ℕ) → Request
  do_spawn_with_priority : (task priority arg : ℕ) → Request
  do_exit : Request
  do_get_pid : (entry_point ret : ℕ) → Request
  do_waitpid : (pid : ℕ) → Request
  do_exec : (task_id arg : ℕ) → Request
  do_kill : (pid : ℕ) → Request
  do_getchar : (s : ℕ) → Request
  do_semaphore_init : (s val : ℕ) → Request
  do_semaphore_up : (s : ℕ) → Request
  do_semaphore_down : (s : ℕ) → Request
  do_condition_init : (condition : ℕ) → Request
  do_condition_wait : (lock condition : ℕ) → Request
  do_condition_signal : (condition : ℕ) → Request
  do_condition_broadcast : (condition : ℕ) → Request
  do_barrier_init : (barrier goal : ℕ) → Request
  do_barrier_wait : (barrier : ℕ) → Request
  do_reboot : Request
  do_init_mac : Request
  do_net_send : (td td_phy : ℕ) → Request
  do_net_recv : (rd rd_phy daddr : ℕ) → Request
  do_wait_recv_package : (waiting_desc : ℕ) → Request
  do_mkfs : Request
  do_print_fs_info : Request
  do_ls : (name : ℕ) → Request
  do_mkdir : (name : ℕ) → Request
  do_rm : (name : ℕ) → Request
  do_cd : (name : ℕ) → Request
  do_touch : (name : ℕ) → Request
  do_cat : (name : ℕ) → Request
  do_fopen : (name access : ℕ) → Request
  do_fread : (fd buf sz : ℕ) → Request
  do_fwrite : (fd buf sz : ℕ) → Request
  do_fclose : (fd : ℕ) → Request
  do_fseek : (fd pos : ℕ) → Request
  do_link : (master servant link_type : ℕ) → Request
  do_find : (path name : ℕ) → Request
  do_rename : (old new : ℕ) → Request

-- What an entry of the table does with the three arguments: C passes all three, and a handler with
-- fewer parameters does not read the rest.
abbrev pub Entry : Type 0
Entry = ℕ → ℕ → ℕ → Request

-- The assignments, in the order of the source.
unfoldable pub assignments : List (ℕ × Entry)
assignments =
    (syscall_sleep, λ a1 a2 a3. do_sleep a1)
    ∷ (syscall_block, λ a1 a2 a3. do_block a1)
    ∷ (syscall_unblock_one, λ a1 a2 a3. do_unblock_one a1)
    ∷ (syscall_unblock_all, λ a1 a2 a3. do_unblock_all a1)
    ∷ (syscall_write, λ a1 a2 a3. screen_write a1)
    ∷ (syscall_cursor, λ a1 a2 a3. screen_move_cursor a1 a2)
    ∷ (syscall_reflush, λ a1 a2 a3. screen_reflush)
    ∷ (syscall_mutex_lock_init, λ a1 a2 a3. do_mutex_lock_init a1)
    ∷ (syscall_mutex_lock_acquire, λ a1 a2 a3. do_mutex_lock_acquire a1)
    ∷ (syscall_mutex_lock_release, λ a1 a2 a3. do_mutex_lock_release a1)
    ∷ (syscall_mutex_lock_release_multiple, λ a1 a2 a3. do_mutex_lock_release_multiple a1 a2)
    ∷ (syscall_clear, λ a1 a2 a3. screen_clear a1 a2)
    ∷ (syscall_ps, λ a1 a2 a3. do_ps)
    ∷ (syscall_spawn, λ a1 a2 a3. do_spawn a1 a2)
    ∷ (syscall_spawn_priority, λ a1 a2 a3. do_spawn_with_priority a1 a2 a3)
    ∷ (syscall_exit, λ a1 a2 a3. do_exit)
    ∷ (syscall_get_pid, λ a1 a2 a3. do_get_pid a1 a2)
    ∷ (syscall_wait, λ a1 a2 a3. do_waitpid a1)
    ∷ (syscall_exec, λ a1 a2 a3. do_exec a1 a2)
    ∷ (syscall_kill, λ a1 a2 a3. do_kill a1)
    ∷ (syscall_getchar, λ a1 a2 a3. do_getchar a1)
    ∷ (syscall_semaphore_init, λ a1 a2 a3. do_semaphore_init a1 a2)
    ∷ (syscall_semaphore_up, λ a1 a2 a3. do_semaphore_up a1)
    ∷ (syscall_semaphore_down, λ a1 a2 a3. do_semaphore_down a1)
    ∷ (syscall_cond_init, λ a1 a2 a3. do_condition_init a1)
    ∷ (syscall_cond_wait, λ a1 a2 a3. do_condition_wait a1 a2)
    ∷ (syscall_cond_signal, λ a1 a2 a3. do_condition_signal a1)
    ∷ (syscall_cond_broadcast, λ a1 a2 a3. do_condition_broadcast a1)
    ∷ (syscall_barrier_init, λ a1 a2 a3. do_barrier_init a1 a2)
    ∷ (syscall_barrier_wait, λ a1 a2 a3. do_barrier_wait a1)
    ∷ (syscall_reboot, λ a1 a2 a3. do_reboot)
    ∷ (syscall_mac_init, λ a1 a2 a3. do_init_mac)
    ∷ (syscall_net_send, λ a1 a2 a3. do_net_send a1 a2)
    ∷ (syscall_net_recv, λ a1 a2 a3. do_net_recv a1 a2 a3)
    ∷ (syscall_net_wait_recv_pkg, λ a1 a2 a3. do_wait_recv_package a1)
    ∷ (syscall_mkfs, λ a1 a2 a3. do_mkfs)
    ∷ (syscall_fs_info, λ a1 a2 a3. do_print_fs_info)
    ∷ (syscall_read_dir, λ a1 a2 a3. do_ls a1)
    ∷ (syscall_mkdir, λ a1 a2 a3. do_mkdir a1)
    ∷ (syscall_rmdir, λ a1 a2 a3. do_rm a1)
    ∷ (syscall_change_dir, λ a1 a2 a3. do_cd a1)
    ∷ (syscall_mknod, λ a1 a2 a3. do_touch a1)
    ∷ (syscall_cat, λ a1 a2 a3. do_cat a1)
    ∷ (syscall_fopen, λ a1 a2 a3. do_fopen a1 a2)
    ∷ (syscall_fread, λ a1 a2 a3. do_fread a1 a2 a3)
    ∷ (syscall_fwrite, λ a1 a2 a3. do_fwrite a1 a2 a3)
    ∷ (syscall_fclose, λ a1 a2 a3. do_fclose a1)
    ∷ (syscall_fseek, λ a1 a2 a3. do_fseek a1 a2)
    ∷ (syscall_link, λ a1 a2 a3. do_link a1 a2 a3)
    ∷ (syscall_find, λ a1 a2 a3. do_find a1 a2)
    ∷ (syscall_rename, λ a1 a2 a3. do_rename a1 a2)
    ∷ []

unfoldable pub assign : List (ℕ × Entry) → (ℕ → Option Entry) → ℕ → Option Entry
assign [] table = table
assign (a ∷ rest) table = assign rest (update table a.0 (some a.1))

-- The global array starts out as NULL pointers.
unfoldable pub init_syscall : ℕ → Option Entry
unfolding assign assignments
init_syscall = assign assignments (λ fn. none)

-- The four arguments of `invoke_syscall`, which the trap carries in registers.
pub record Trap : Type 0 where
  pub fn : ℕ
  pub arg1 : ℕ
  pub arg2 : ℕ
  pub arg3 : ℕ

unfoldable pub run_entry : Option Entry → Trap → Outcome Request
run_entry none t = fault
run_entry (some e) t = ok (e t.arg1 t.arg2 t.arg3)

-- A number beyond the table, or one without a handler, jumps to a wild address.
unfoldable pub system_call_helper : (ℕ → Option Entry) → Trap → Outcome Request
unfolding run_entry
system_call_helper table t = if ltb t.fn num_syscalls then run_entry (table t.fn) t else fault
