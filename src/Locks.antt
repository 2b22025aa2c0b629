-- ===== src/Locks.antt =====
-- kernel/locking: mutex locks, semaphores, conditions and barriers. An operation that waits in a loop
-- is modelled by its round: a process that is blocked in it repeats the round when it next runs. The
-- result of a round is true when the process goes on, and false when it has been blocked.
pub mod Release
pub mod Wait
use mips_os.Common.{
  ℕ, zero, suc, ◌+◌, ◌-◌, ◌*◌, ◌/◌, ◌%◌, ◌^◌, ◌≤◌, ◌<◌, ◌≡◌, refl, sym, ap, ◌∙◌, subst, fun_ext,
}
use mips_os.Common.{◌≢◌, ◌↔◌, ◌⊎◌, inl, inr, Bool, true, false, not, ◌&&◌, ◌||◌, Option, none, some}
use mips_os.Common.{
  List, [], ◌∷◌, ◌++◌, map, arith, ltb, leb, ◌==◌, if◌then◌else◌, update, points_to,
}
use mips_os.Common.{
  ltb→lt, ltb→le, lt→ltb, le→ltb, ==_iff, ==_self, update_self, update_other, Bool-cases,
  Option-cases,
}
use mips_os.Common.{
  Outcome, ok, fault, hang, ◌>>=◌, >>=-fault, >>=-returns, Ends, Ends-bind, length, get_elem?, set,
  first, last_from, length-append, has, Distinct, has-append,
}
use mips_os.Queue.{Ptr, Queue, Links, queue_init}
use mips_os.Sched.{
  Pcb, Kernel, Mutex, Semaphore, Barrier, set_pcb, set_queue, push_new_on, take_from, waiting_queue,
  sem_block_queue, cond_block_queue, barrier_block_queue, max_lock_num_for_a_proc,
}
use mips_os.Sched.Wake.{do_unblock_one, do_unblock_all}
use mips_os.Sched.Select.{do_block}

abbrev pub same_pointer : Option ℕ → Option ℕ → Bool
same_pointer none none = true
same_pointer none (some b) = false
same_pointer (some a) none = false
same_pointer (some a) (some b) = a == b

-- The slots of `locks` from `i` on: the first that holds `old` gets `new`.
unfoldable pub replace_lock : ℕ → ℕ → (old new : Option ℕ) → (ℕ → Option ℕ) → ℕ → Option ℕ
replace_lock zero i old new locks = locks
replace_lock (suc left) i old new locks =
    let rest = replace_lock left (i + 1) old new locks in
    let here = same_pointer (locks i) old in if here then update locks i new else rest

-- The slots of the running process, with the first that holds `old` given `new`.
abbrev pub relock : (old new : Option ℕ) → Kernel → Kernel
relock old new k =
    let cur = k.pcb k.current_running in
    set_pcb k.current_running
      (record cur { locks = replace_lock max_lock_num_for_a_proc 0 old new cur.locks }) k

abbrev pub set_locked : ℕ → Bool → Kernel → Kernel
set_locked lock b k = record k {
  mutexes = update k.mutexes lock (record (k.mutexes lock) { locked = b });
}

abbrev pub empty_queue : ℕ → Kernel → Kernel
empty_queue q k = record k { queues = update k.queues q (queue_init (k.queues q)) }

-- `MUTEX_INITIALIZED` is 1.
unfoldable pub do_mutex_lock_init : ℕ → Kernel → Kernel
do_mutex_lock_init lock k =
    if (k.mutexes lock).is_init == 1 then k else record (empty_queue (waiting_queue lock) k) {
      mutexes =
          update k.mutexes lock (record { locked = false; is_init = 1; lock_id = k.lock_cnt });
      lock_cnt = (k.lock_cnt + 1) % 2 ^ 32;
    }

-- A round of the loop of `do_mutex_lock_acquire`, with what follows it when the lock is open.
unfoldable pub do_mutex_lock_acquire : ℕ → Kernel → Outcome (Bool × Kernel)
do_mutex_lock_acquire lock k =
    let wait : Outcome (Bool × Kernel) = (do
      k ← push_new_on (waiting_queue lock) k.current_running k
      k ← do_block (waiting_queue lock) k
      ok (false, k)) in
    let taken = relock none (some lock) (set_locked lock true k) in
    let own_head = points_to (k.queues (waiting_queue lock)).head k.current_running in
    let take : Outcome (Bool × Kernel) = (do
      r ← take_from (waiting_queue lock) taken
      ok (true, r.1)) in
    if (k.mutexes lock).locked then wait else if own_head then take else ok (true, taken)

unfoldable pub do_mutex_lock_release : ℕ → Kernel → Outcome Kernel
do_mutex_lock_release lock k =
    do_unblock_one (waiting_queue lock) (relock (some lock) none (set_locked lock false k))

-- `value < 0` and `value <= 0` of an `int`.
abbrev pub is_negative : ℕ → Bool
is_negative v = leb (2 ^ 31) v

abbrev pub set_value : ℕ → ℕ → Kernel → Kernel
set_value s v k = record k {
  semaphores = update k.semaphores s (record (k.semaphores s) { value = v });
}

unfoldable pub do_semaphore_init : ℕ → ℕ → Kernel → Kernel
do_semaphore_init s val k =
    if not ((k.semaphores s).initialized == 0)
    then k
    else record (empty_queue (sem_block_queue s) k) {
      semaphores = update k.semaphores s (record { value = val; initialized = 1 });
    }

unfoldable pub do_semaphore_up : ℕ → Kernel → Outcome Kernel
do_semaphore_up s k =
    let v = ((k.semaphores s).value + 1) % 2 ^ 32 in
    if is_negative v || (v == 0)
    then do_unblock_one (sem_block_queue s) (set_value s v k)
    else ok (set_value s v k)

-- A round of the loop of `do_semaphore_down`.
unfoldable pub semaphore_round : ℕ → Kernel → Outcome (Bool × Kernel)
semaphore_round s k =
    let wait : Outcome (Bool × Kernel) = (do k ← do_block (sem_block_queue s) k; ok (false, k)) in
    if is_negative (k.semaphores s).value then wait else ok (true, k)

unfoldable pub do_semaphore_down : ℕ → Kernel → Outcome (Bool × Kernel)
do_semaphore_down s k =
    semaphore_round s (set_value s (((k.semaphores s).value + 2 ^ 32 - 1) % 2 ^ 32) k)

unfoldable pub do_condition_init : ℕ → Kernel → Kernel
do_condition_init c k = if not (k.conditions c == 0) then k else empty_queue (cond_block_queue c) k

-- `do_condition_wait` up to the call of `do_mutex_lock_acquire`, which the process makes when it
-- next runs.
unfoldable pub do_condition_wait : (lock condition : ℕ) → Kernel → Outcome Kernel
do_condition_wait lock condition k = do
  k ← do_mutex_lock_release lock k
  do_block (cond_block_queue condition) k

unfoldable pub do_condition_signal : ℕ → Kernel → Outcome Kernel
do_condition_signal c k = do_unblock_one (cond_block_queue c) k

unfoldable pub do_condition_broadcast : ℕ → Kernel → Outcome Kernel
do_condition_broadcast c k = do_unblock_all (cond_block_queue c) k

unfoldable pub do_barrier_init : ℕ → ℕ → Kernel → Kernel
do_barrier_init b goal k = if not ((k.barriers b).initialized == 0) then k else record k {
  barriers = update k.barriers b (record (k.barriers b) { cur_val = 0; bound = goal });
}

-- `a < b` of two `int`s.
abbrev pub signed_ltb : ℕ → ℕ → Bool
signed_ltb a b = ltb ((a + 2 ^ 31) % 2 ^ 32) ((b + 2 ^ 31) % 2 ^ 32)

unfoldable pub do_barrier_wait : ℕ → Kernel → Outcome Kernel
do_barrier_wait b k =
    let v = ((k.barriers b).cur_val + 1) % 2 ^ 32 in
    let stored = λ (v : ℕ). record k {
      barriers = update k.barriers b (record (k.barriers b) { cur_val = v });
    } in
    if signed_ltb v (k.barriers b).bound
    then do_block (barrier_block_queue b) (stored v)
    else do_unblock_all (barrier_block_queue b) (stored 0)

-- `spin_lock_t` is whether it is LOCKED. A round of `spin_lock_acquire` spins, which is `none`, or
-- takes the lock.
unfoldable pub spin_lock_init : Bool → Bool
spin_lock_init locked = false

unfoldable pub spin_lock_acquire : Bool → Option Bool
spin_lock_acquire locked = if locked then none else some true

unfoldable pub spin_lock_release : Bool → Bool
spin_lock_release locked = false
