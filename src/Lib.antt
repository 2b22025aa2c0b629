-- ===== src/Lib.antt =====
-- mips_os: a teaching kernel for a MIPS board, with a preemptive scheduler over priority queues, locks,
-- semaphores, paged memory, a file system on a memory card, and a small library of string functions.
--
-- How the parts interact. Every process has a control block; a block stands in at most one queue, linked
-- through its own prev and next fields. The scheduler takes a process from a ready queue, locks and
-- semaphores move processes between their own queues and the ready queues, and the file system serves
-- the system calls of the running process on one volume, whose inode table and bit maps it keeps in
-- memory and writes back to the card.
--
-- Which file models what:
--   Common        tests, lists, bits of bytes, and the outcomes of a run: a value, a fault, or no return.
--   Queue         kernel/sched/queue.c: Queue, Links and one function for each of queue_init to
--                 queue_insert_at_head. Queue/Shape says which list a queue stands for.
--   Sched         kernel/sched/sched.c: the state (Kernel), the queue operations on it; Sched/Wake has
--                 invoke_blocked_proc, do_unblock_one, do_unblock_all, check_sleeping and check_net_recv;
--                 Sched/Select has scheduler, do_block and do_sleep. Sched/Next says what the queues hold
--                 after a run of scheduler; Sched/Sound, Unblock, Invoke, Awake, Invariant, Switch,
--                 Scheduled and Block are proofs.
--   Locks         kernel/locking: lock.c, sem.c, cond.c and barrier.c.
--   Process       the rest of kernel/sched/sched.c: creation, exit, killing, waiting; Process/Init has
--                 init_pready_queue and init_pcb of init/main.c.
--   Mem           kernel/mm/memory.c: kalloc, kfree, the address arithmetic and the page tables.
--   Text          libs/string.c.
--   Mailbox       libs/mailbox.c; Mailbox/Fifo has the list of messages that a mailbox holds.
--   Fs            kernel/fs/fs.c: Fs/Card is the card that sdread and sdwrite of the firmware reach, an
--                 interface with an array as its instance; Fs/Bitmap, Fs/Inodes, Fs/File and Fs/Remove
--                 have the bit maps, the inode table, file input and output, and rm_recurse; Fs/Mkfs has
--                 do_mkfs and mount_fs; Fs/Path has name_parse, Fs/Directory do_mkdir, do_touch,
--                 do_link and do_rename, Fs/Unlink do_rm, Fs/Change do_cd, Fs/Open do_fopen, do_cat
--                 and do_ls, Fs/Find do_find. Fs/Path/Resolve says which list of entries a directory stands for.
--   Syscall       kernel/syscall/syscall.c, the numbers of include/sys/syscall.h and init_syscall of
--                 init/main.c.
--   Algo          libs/algo.c: qsort, on locks whose numbers are below 2 ^ 31, where cmp_lock does not
--                 wrap, and Algo/Tree the red-black tree; Algo/SearchTree has the trees that
--                 the linked nodes stand for.
--   Irq           kernel/irq/irq.c and the clock of kernel/sched/time.c.
--
-- How state and values correspond. A pointer to a control block is its index, with none for NULL; a
-- pointer to an inode is its number; a queue, a lock and a semaphore are numbers; arrays are functions of
-- the index. Words wrap at 2 ^ 32 where the source computes with uint32_t, and an int is its 32-bit word.
-- A wild access, the use of a value that a function did not return and a NULL dereference are the outcome
-- fault. Operations change the state by returning the new one.
--
-- From boot. last_sel_index is -1 until scheduler has first set it, and scheduler then reads outside its
-- arrays, which is the outcome fault: no run from boot gets past this in the model. The theorems on runs
-- of scheduler are about states in which last_sel_index is an index, as it is on a machine where that
-- read does no harm; they have this as a hypothesis.
--
-- Fuel. A walk along a chain of blocks has 17 steps of fuel, one more than there are blocks: a well-formed
-- queue has at most 16, which the theorems use, and a cyclic chain has the outcome hang. do_fread and
-- do_fwrite take the depth of the stack as fuel, and rm_recurse the depth of the directory tree; a
-- statement about them holds for every fuel that it names. The string functions take fuel beyond the
-- length of the string; name_parse has a fixed bound of its own, one more than the size of its
-- local array, which is proved to be enough, and qsort twice the length of the range.
--
-- A process that waits in a loop (do_mutex_lock_acquire, do_semaphore_down) is modelled by one round of
-- its loop, which it repeats when it next runs; do_scheduler is a run of scheduler, since the assembly
-- around it only saves and loads registers.
--
-- Not modelled: print_absolute_path and do_print_fs_info of kernel/fs/fs.c, which only print, the waiting of the
-- mailboxes, the shell and the drivers, which are to follow; libs/printk.c, which is a copy of another
-- library; assembly, the image tool and the test programs.
pub mod Common
pub mod Queue
pub mod Sched
pub mod Locks
pub mod Mem
pub mod Text
pub mod Fs
pub mod Algo
pub mod Irq
pub mod Mailbox
pub mod Process
pub mod Syscall
