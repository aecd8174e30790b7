-- ===== src/Sem.antt =====
-- kernel/src/os_sem.c: counting semaphores.
pub mod Invariant
pub mod Outcome
use mini_rtos.Base.{
  ℕ, ◌+◌, ◌-◌, Bool, true, false, ◌&&◌, ◌||◌, not, Option, none, some, List, [], ltb, leb, ◌==◌,
  if◌then◌else◌, update, indices,
}
use mini_rtos.Kernel.{
  Status, WaitList, Sem, Kernel, semaphore, ok, invalid_argument, limit_reached, bad_state, timeout,
  is_running, max_semaphores, wait_list_of, update_waiters, u32,
}
use mini_rtos.Mutex.{first_free, set_result}
use mini_rtos.Wait.{wait_block_current, wait_pop, wait_make_ready, wait_maybe_preempt}

abbrev pub sem_waiters : ℕ → WaitList
sem_waiters s = wait_list_of semaphore s

-- os_SemIsValid
unfoldable pub sem_is_valid : Kernel → Option ℕ → Bool
sem_is_valid k none = false
sem_is_valid k (some s) =
    let sem = k.semaphores s in
    sem.used && ltb 0 sem.maximum_count && leb sem.count sem.maximum_count

-- The slot that xSemaphoreCreateCounting hands out.
unfoldable pub semaphore_allocate : Kernel → ℕ → ℕ → Option ℕ → Kernel × Option ℕ
semaphore_allocate k max_count initial_count none = (record k { last_error = limit_reached }, none)
semaphore_allocate k max_count initial_count (some s) = (
  record k {
    semaphores =
        update k.semaphores s
          (record { used = true; count = initial_count; maximum_count = max_count });
    waiters = update_waiters k.waiters (sem_waiters s) [];
    last_error = ok;
  },
  some s,
)

-- xSemaphoreCreateCounting
unfoldable pub semaphore_create_counting : Kernel → ℕ → ℕ → Kernel × Option ℕ
unfolding first_free semaphore_allocate
semaphore_create_counting k max_count initial_count =
    if not k.initialized || k.started
    then (record k { last_error = bad_state }, none)
    else if max_count == 0 || ltb max_count initial_count
    then (record k { last_error = invalid_argument }, none)
    else semaphore_allocate k max_count initial_count
        (first_free (λ s. (k.semaphores s).used) (indices max_semaphores))

-- The count behind a valid handle.
abbrev pub count_at : Kernel → Option ℕ → ℕ
count_at k none = 0
count_at k (some s) = (k.semaphores s).count

-- uxSemaphoreGetCount
unfoldable pub semaphore_get_count : Kernel → Option ℕ → ℕ
unfolding sem_is_valid
semaphore_get_count k handle = if sem_is_valid k handle then count_at k handle else 0

abbrev set_count : Kernel → ℕ → ℕ → Kernel
set_count k s n = record k {
  semaphores = update k.semaphores s (record (k.semaphores s) { count = n });
}

-- os_SemTakeCurrent for a valid semaphore `s`, by the RUNNING task `t`
unfoldable pub sem_take_by : Kernel → ℕ → ℕ → ℕ → Kernel
sem_take_by k t s timeout_ticks =
    if ltb 0 (k.semaphores s).count
    then set_result (set_count k s ((k.semaphores s).count - 1)) t ok
    else if timeout_ticks == 0
    then set_result k t timeout
    else (wait_block_current k (sem_waiters s) 0 timeout_ticks).0

-- os_SemTakeCurrent for the task that it reads as `current`
unfoldable pub sem_take_task : Kernel → Option ℕ → Option ℕ → ℕ → Kernel
sem_take_task k none handle timeout_ticks = k
sem_take_task k (some t) none timeout_ticks =
    if is_running (k.tasks t).state then set_result k t invalid_argument else k
sem_take_task k (some t) (some s) timeout_ticks =
    if not (is_running (k.tasks t).state)
    then k
    else if not (sem_is_valid k (some s))
    then set_result k t invalid_argument
    else sem_take_by k t s timeout_ticks

-- os_SemTakeCurrent
unfoldable pub sem_take_current : Kernel → Option ℕ → ℕ → Kernel
unfolding sem_take_task sem_take_by sem_is_valid
sem_take_current k handle timeout_ticks = sem_take_task k k.current handle timeout_ticks

-- The result of a give: the kernel, the status, and the task in `out_woken`.
abbrev pub Given : Type 0
Given = Kernel × Status × Option ℕ

-- os_SemGiveFromIsrContext for a valid semaphore, with the popped waiter at hand
unfoldable pub sem_give_to : Kernel × Option ℕ → ℕ → Given
sem_give_to (k, none) s =
    if leb (k.semaphores s).maximum_count (k.semaphores s).count
    then (k, limit_reached, none)
    else (set_count k s (u32 ((k.semaphores s).count + 1)), ok, none)
sem_give_to (k, some u) s = (wait_make_ready k u ok, ok, some u)

-- os_SemGiveFromIsrContext
unfoldable pub sem_give_from_isr_context : Kernel → Option ℕ → Given
unfolding sem_give_to
sem_give_from_isr_context k none = (k, invalid_argument, none)
sem_give_from_isr_context k (some s) =
    if sem_is_valid k (some s)
    then sem_give_to (wait_pop k (sem_waiters s)) s
    else (k, invalid_argument, none)

-- os_WaitMaybePreempt for the task woken, if there is one
unfoldable pub preempt_by : Kernel → Option ℕ → Kernel
preempt_by k none = k
preempt_by k (some u) = wait_maybe_preempt k u

-- os_SemGiveCurrent for the task that it reads as `current`
unfoldable pub sem_give_task : Kernel → Option ℕ → Option ℕ → Kernel
unfolding preempt_by
sem_give_task k none handle = k
sem_give_task k (some t) handle =
    let (k', status, woken) = sem_give_from_isr_context k handle in
    if is_running (k.tasks t).state then preempt_by (set_result k' t status) woken else k

-- os_SemGiveCurrent
unfoldable pub sem_give_current : Kernel → Option ℕ → Kernel
unfolding sem_give_task sem_give_from_isr_context
sem_give_current k handle = sem_give_task k k.current handle
