-- ===== src/Mutex.antt =====
-- kernel/src/os_mutex.c: ownership, hand-over and priority inheritance. os_Init gives each task its
-- index as id and nothing writes it again, so `desired[task->id]` is read at the task's index.
pub mod Invariant
pub mod Inherit
use mini_rtos.Base.{
  ℕ, zero, suc, Bool, true, false, ◌&&◌, ◌||◌, not, Option, none, some, List, [], ◌∷◌, ltb, ◌==◌,
  if◌then◌else◌, same_handle, update, is_none, for_each, indices, first_such,
}
use mini_rtos.Kernel.{
  Status, WaitList, Task, Mutex, Kernel, mutex, ok, invalid_argument, limit_reached, bad_state,
  timeout, not_owner, higher_priority_wakeup, is_running, modify, max_mutexes, max_tasks,
  wait_list_of, update_waiters, current_runs,
}
use mini_rtos.Sched.{sched_schedule}
use mini_rtos.Wait.{
  task_set_effective_priority, wait_block_current, wait_pop, wait_make_ready, wait_maybe_preempt,
}

-- current->wait_result = status
abbrev pub set_result : Kernel → ℕ → Status → Kernel
set_result k t status = modify k t λ x. record x { wait_result = status }

abbrev pub mutex_waiters : ℕ → WaitList
mutex_waiters m = wait_list_of mutex m

-- os_MutexIsValid
unfoldable pub mutex_is_valid : Kernel → Option ℕ → Bool
mutex_is_valid k none = false
mutex_is_valid k (some m) = (k.mutexes m).used

-- The search for a free slot of a pool.
unfoldable pub first_free : (ℕ → Bool) → List ℕ → Option ℕ
first_free used slots = first_such (λ i. not (used i)) slots

-- The slot that xMutexCreate hands out.
unfoldable pub mutex_allocate : Kernel → Option ℕ → Kernel × Option ℕ
mutex_allocate k none = (record k { last_error = limit_reached }, none)
mutex_allocate k (some m) = (
  record k {
    mutexes = update k.mutexes m (record { used = true; owner = none });
    waiters = update_waiters k.waiters (mutex_waiters m) [];
    last_error = ok;
  },
  some m,
)

-- xMutexCreate
unfoldable pub mutex_create : Kernel → Kernel × Option ℕ
unfolding first_free mutex_allocate
mutex_create k =
    if not k.initialized || k.started
    then (record k { last_error = bad_state }, none)
    else mutex_allocate k (first_free (λ m. (k.mutexes m).used) (indices max_mutexes))

-- desired[] before the first pass of os_MutexWaitersChanged
unfoldable pub base_priorities : Kernel → ℕ → ℕ
base_priorities k t = if ltb t k.task_count then (k.tasks t).base_priority else 0

-- The walk over a mutex's waiters: the highest of `inherited` and their desired priorities.
unfoldable pub highest_waiter : (ℕ → ℕ) → List ℕ → ℕ → ℕ
highest_waiter desired [] inherited = inherited
highest_waiter desired (u ∷ us) inherited =
    highest_waiter desired us (if ltb inherited (desired u) then desired u else inherited)

-- One mutex in one pass, its owner at hand; the flag is `changed`.
unfoldable pub inherit_to : Kernel → ℕ → Option ℕ → (ℕ → ℕ) × Bool → (ℕ → ℕ) × Bool
inherit_to k m none (desired, changed) = (desired, changed)
inherit_to k m (some owner) (desired, changed) =
    let inherited = highest_waiter desired (k.waiters (mutex_waiters m)) (desired owner) in
    if (k.mutexes m).used && ltb (desired owner) inherited
    then (update desired owner inherited, true)
    else (desired, changed)

-- One pass over the mutexes.
unfoldable pub inherit_pass : Kernel → (ℕ → ℕ) → (ℕ → ℕ) × Bool
unfolding inherit_to
inherit_pass k desired =
    for_each (indices max_mutexes) (λ m s. inherit_to k m (k.mutexes m).owner s) (desired, false)

-- The passes, `n` at most, until one changes nothing.
unfoldable pub inherit_passes : ℕ → Kernel → (ℕ → ℕ) → ℕ → ℕ
inherit_passes zero k desired = desired
inherit_passes (suc n) k desired =
    let (next, changed) = inherit_pass k desired in
    let rest = inherit_passes n k next in if changed then rest else next

-- os_MutexWaitersChanged
unfoldable pub mutex_waiters_changed : Kernel → Kernel
mutex_waiters_changed k =
    let desired = inherit_passes max_tasks k (base_priorities k) in
    for_each (indices k.task_count) (λ t k'. task_set_effective_priority k' t (desired t)) k

-- Whether os_MutexLockCurrent reschedules: there is a current task that the owner outranks.
abbrev pub owner_outranks : Kernel → Option ℕ → Option ℕ → Bool
owner_outranks k none current = false
owner_outranks k (some o) none = false
owner_outranks k (some o) (some c) =
    ltb (k.tasks c).effective_priority (k.tasks o).effective_priority

-- os_MutexLockCurrent where the caller has to wait
unfoldable pub mutex_wait : Kernel → ℕ → ℕ → Kernel
unfolding mutex_waiters_changed
mutex_wait k m timeout_ticks =
    let k' = mutex_waiters_changed (wait_block_current k (mutex_waiters m) 0 timeout_ticks).0 in
    if owner_outranks k' (k'.mutexes m).owner k'.current
    then (sched_schedule k' higher_priority_wakeup false).0
    else k'

-- os_MutexLockCurrent for a valid mutex `m`, whose owner is at hand, by the RUNNING task `t`
unfoldable pub mutex_lock_by : Kernel → ℕ → ℕ → Option ℕ → ℕ → Kernel
mutex_lock_by k t m none timeout_ticks =
    set_result (record k { mutexes = update k.mutexes m (record (k.mutexes m) { owner = some t }) })
      t ok
mutex_lock_by k t m (some o) timeout_ticks =
    if o == t
    then set_result k t bad_state
    else if timeout_ticks == 0
    then set_result k t timeout
    else mutex_wait k m timeout_ticks

-- os_MutexLockCurrent for the task that it reads as `current`
unfoldable pub mutex_lock_task : Kernel → Option ℕ → Option ℕ → ℕ → Kernel
unfolding mutex_lock_by
mutex_lock_task k none handle timeout_ticks = k
mutex_lock_task k (some t) none timeout_ticks =
    if is_running (k.tasks t).state then set_result k t invalid_argument else k
mutex_lock_task k (some t) (some m) timeout_ticks =
    if not (is_running (k.tasks t).state)
    then k
    else if not (mutex_is_valid k (some m))
    then set_result k t invalid_argument
    else mutex_lock_by k t m (k.mutexes m).owner timeout_ticks

-- os_MutexLockCurrent
unfoldable pub mutex_lock_current : Kernel → Option ℕ → ℕ → Kernel
unfolding mutex_lock_task mutex_is_valid
mutex_lock_current k handle timeout_ticks = mutex_lock_task k k.current handle timeout_ticks

-- The tail of os_MutexUnlockCurrent: the new owner wakes.
unfoldable pub wake_owner : Kernel → Option ℕ → Kernel
wake_owner k none = k
wake_owner k (some u) = wait_maybe_preempt (wait_make_ready k u ok) u

-- os_MutexUnlockCurrent by the owner `t`
unfoldable pub mutex_hand_over : Kernel → ℕ → ℕ → Kernel
unfolding wake_owner
mutex_hand_over k t m =
    let (k', waiter) = wait_pop k (mutex_waiters m) in
    let owned = record k' {
      mutexes = update k'.mutexes m (record (k'.mutexes m) { owner = waiter });
    } in
    wake_owner (mutex_waiters_changed (set_result owned t ok)) waiter

-- os_MutexUnlockCurrent for the task that it reads as `current`
unfoldable pub mutex_unlock_task : Kernel → Option ℕ → Option ℕ → Kernel
mutex_unlock_task k none handle = k
mutex_unlock_task k (some t) none =
    if is_running (k.tasks t).state then set_result k t invalid_argument else k
mutex_unlock_task k (some t) (some m) =
    if not (is_running (k.tasks t).state)
    then k
    else if not (mutex_is_valid k (some m))
    then set_result k t invalid_argument
    else if not (same_handle (k.mutexes m).owner (some t))
    then set_result k t not_owner
    else mutex_hand_over k t m

-- os_MutexUnlockCurrent
unfoldable pub mutex_unlock_current : Kernel → Option ℕ → Kernel
unfolding mutex_unlock_task mutex_is_valid
mutex_unlock_current k handle = mutex_unlock_task k k.current handle

-- os_WaitMakeReady of the waiter that os_MutexReleaseTask popped, if there is one
unfoldable pub make_owner_ready : Kernel → Option ℕ → Kernel
make_owner_ready k none = k
make_owner_ready k (some u) = wait_make_ready k u ok

-- The loop body of os_MutexReleaseTask; the flag is `released_any`.
unfoldable pub release_mutex : ℕ → ℕ → Kernel × Bool → Kernel × Bool
unfolding make_owner_ready
release_mutex t m (k, released_any) =
    let (k', waiter) = wait_pop k (mutex_waiters m) in
    let owned = record k' {
      mutexes = update k'.mutexes m (record (k'.mutexes m) { owner = waiter });
    } in
    if (k.mutexes m).used && same_handle (k.mutexes m).owner (some t)
    then (make_owner_ready owned waiter, true)
    else (k, released_any)

-- os_MutexReleaseTask
unfoldable pub mutex_release_task : Kernel → ℕ → Kernel
unfolding release_mutex
mutex_release_task k t =
    let (k', released_any) = for_each (indices max_mutexes) (release_mutex t) (k, false) in
    if released_any then mutex_waiters_changed k' else k'
