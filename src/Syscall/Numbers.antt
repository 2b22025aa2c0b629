-- ===== src/Syscall/Numbers.antt =====
-- include/sys/syscall.h and drivers/screen.h: the numbers of the system calls.
use mips_os.Common.{ℕ}

abbrev pub ignore : ℕ
ignore = 0

abbrev pub num_syscalls : ℕ
num_syscalls = 128

abbrev pub screen_height : ℕ
screen_height = 30

abbrev pub syscall_sleep : ℕ
syscall_sleep = 2

abbrev pub syscall_block : ℕ
syscall_block = 10

abbrev pub syscall_unblock_one : ℕ
syscall_unblock_one = 11

abbrev pub syscall_unblock_all : ℕ
syscall_unblock_all = 12

abbrev pub syscall_write : ℕ
syscall_write = 20

abbrev pub syscall_read : ℕ
syscall_read = 21

abbrev pub syscall_cursor : ℕ
syscall_cursor = 22

abbrev pub syscall_reflush : ℕ
syscall_reflush = 23

abbrev pub syscall_mutex_lock_init : ℕ
syscall_mutex_lock_init = 30

abbrev pub syscall_mutex_lock_acquire : ℕ
syscall_mutex_lock_acquire = 31

abbrev pub syscall_mutex_lock_release : ℕ
syscall_mutex_lock_release = 32

abbrev pub syscall_mutex_lock_release_multiple : ℕ
syscall_mutex_lock_release_multiple = 33

abbrev pub syscall_clear : ℕ
syscall_clear = 34

abbrev pub syscall_ps : ℕ
syscall_ps = 35

abbrev pub syscall_spawn : ℕ
syscall_spawn = 36

abbrev pub syscall_spawn_priority : ℕ
syscall_spawn_priority = 37

abbrev pub syscall_exit : ℕ
syscall_exit = 38

abbrev pub syscall_get_pid : ℕ
syscall_get_pid = 39

abbrev pub syscall_wait : ℕ
syscall_wait = 40

abbrev pub syscall_exec : ℕ
syscall_exec = 41

abbrev pub syscall_kill : ℕ
syscall_kill = 42

abbrev pub syscall_getchar : ℕ
syscall_getchar = 43

abbrev pub syscall_semaphore_init : ℕ
syscall_semaphore_init = 44

abbrev pub syscall_semaphore_up : ℕ
syscall_semaphore_up = 45

abbrev pub syscall_semaphore_down : ℕ
syscall_semaphore_down = 46

abbrev pub syscall_cond_init : ℕ
syscall_cond_init = 47

abbrev pub syscall_cond_wait : ℕ
syscall_cond_wait = 48

abbrev pub syscall_cond_signal : ℕ
syscall_cond_signal = 49

abbrev pub syscall_cond_broadcast : ℕ
syscall_cond_broadcast = 50

abbrev pub syscall_barrier_init : ℕ
syscall_barrier_init = 51

abbrev pub syscall_barrier_wait : ℕ
syscall_barrier_wait = 52

abbrev pub syscall_reboot : ℕ
syscall_reboot = 53

abbrev pub syscall_mac_init : ℕ
syscall_mac_init = 54

abbrev pub syscall_net_send : ℕ
syscall_net_send = 55

abbrev pub syscall_net_recv : ℕ
syscall_net_recv = 56

abbrev pub syscall_net_wait_recv_pkg : ℕ
syscall_net_wait_recv_pkg = 57

abbrev pub syscall_mkfs : ℕ
syscall_mkfs = 58

abbrev pub syscall_mkdir : ℕ
syscall_mkdir = 59

abbrev pub syscall_rmdir : ℕ
syscall_rmdir = 60

abbrev pub syscall_read_dir : ℕ
syscall_read_dir = 61

abbrev pub syscall_fs_info : ℕ
syscall_fs_info = 62

abbrev pub syscall_change_dir : ℕ
syscall_change_dir = 63

abbrev pub syscall_mknod : ℕ
syscall_mknod = 64

abbrev pub syscall_cat : ℕ
syscall_cat = 65

abbrev pub syscall_fopen : ℕ
syscall_fopen = 66

abbrev pub syscall_fread : ℕ
syscall_fread = 67

abbrev pub syscall_fwrite : ℕ
syscall_fwrite = 68

abbrev pub syscall_fclose : ℕ
syscall_fclose = 69

abbrev pub syscall_fseek : ℕ
syscall_fseek = 70

abbrev pub syscall_link : ℕ
syscall_link = 71

abbrev pub syscall_find : ℕ
syscall_find = 72

abbrev pub syscall_rename : ℕ
syscall_rename = 73
