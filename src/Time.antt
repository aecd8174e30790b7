-- ===== src/Time.antt =====
-- os_TimeTick of kernel/src/os_time.c, and os_SchedTerminateCurrent of kernel/src/os_sched.c.
pub mod Invariant
pub mod Wakeups
pub mod Returns
use mini_rtos.Base.{
  ℕ, zero, suc, ◌+◌, ◌-◌, Bool, true, false, ◌&&◌, ◌||◌, not, Option, none, some, List, [], ◌∷◌,
  ltb, ◌==◌, if◌then◌else◌, same_handle, update, is_none, length, tail,
}
use mini_rtos.Kernel.{
  TaskState, WaitList, WaitKind, Task, Kernel, ready, terminated, timeout, time_slice,
  higher_priority_wakeup, blocked_delay, blocked_object, exit, is_running, is_blocked_delay,
  is_blocked_object, is_mutex_wait, modify, u32, time_slice_ticks,
}
use mini_rtos.Ready.{ready_enqueue, ready_highest_priority}
use mini_rtos.Sched.{sched_schedule, switch_to_highest, requeue}
use mini_rtos.Delay.{tick_reached}
use mini_rtos.Wait.{wait_unlink, wait_make_ready, outranks_current}
use mini_rtos.Mutex.{mutex_waiters_changed, mutex_release_task}

-- g_os_kernel.tick++ and the swap of the delay lists where the tick wraps to 0
unfoldable pub advance_tick : Kernel → Kernel
advance_tick k =
    let now = u32 (k.tick + 1) in
    if now == 0
    then record k {
      tick = now;
      px_delayed = k.px_overflow_delayed;
      px_overflow_delayed = k.px_delayed;
    }
    else record k { tick = now }

-- os_ListPopFront of the current delay list, whose head is `t`; then task->delay_list = NULL
unfoldable pub pop_delayed : Kernel → ℕ → Kernel
pop_delayed k t = record k {
  delayed_lists = update k.delayed_lists k.px_delayed (tail (k.delayed_lists k.px_delayed));
  tasks = update k.tasks t (record (k.tasks t) { delay_linked = false; delay_list = none });
}

-- os_ListRemove(task->wait_list, &task->schedule_node) where the task is linked in one
unfoldable pub leave_wait_list : Kernel → ℕ → Option WaitList → Kernel
leave_wait_list k t none = k
leave_wait_list k t (some w) = if (k.tasks t).schedule_linked then wait_unlink k w t else k

-- The timeout of a task that waits for an object.
unfoldable pub time_out : Kernel → ℕ → Kernel
unfolding leave_wait_list
time_out k t =
    let k' = wait_make_ready (leave_wait_list k t (k.tasks t).wait_list) t timeout in
    if is_mutex_wait (k.tasks t).wait_kind then mutex_waiters_changed k' else k'

-- The branches of the wake-up loop on the state of the task taken out.
unfoldable pub wake : Kernel → ℕ → Kernel
wake k t =
    if is_blocked_delay (k.tasks t).state
    then requeue k t
    else if is_blocked_object (k.tasks t).state
    then time_out k t
    else k

-- One round of the wake-up loop for the due head `t`; the flag is `woke_higher_priority`.
unfoldable pub wake_head : Kernel → ℕ → Bool → Kernel × Bool
unfolding pop_delayed wake time_out
wake_head k t woke =
    let k' = wake (pop_delayed k t) t in (k', outranks_current k' t k'.current || woke)

-- The head `t` of a list, where its wake tick is reached
unfoldable pub due_of : ℕ → (ℕ → Task) → List ℕ → Option ℕ
due_of now tasks [] = none
due_of now tasks (t ∷ ts) = if tick_reached now (tasks t).wake_tick then some t else none

-- The test of the wake-up loop: the head of the current delay list, where it is due
unfoldable pub due_head : Kernel → Option ℕ
unfolding due_of
due_head k = due_of k.tick k.tasks (k.delayed_lists k.px_delayed)

-- The wake-up loop: one round for each due head, `fuel` at most.
unfoldable pub wake_due : ℕ → Kernel → Bool → Kernel × Bool
wake_due zero k woke = (k, woke)
wake_due (suc fuel) k woke = elim (due_head k) [
  | none ↦ (k, woke)
  | some t ↦ wake_due fuel (wake_head k t woke).0 (wake_head k t woke).1
]

-- The time slice of the current task, counted down to 0
unfoldable pub use_slice : Kernel → Option ℕ → Kernel
use_slice k none = k
use_slice k (some c) =
    let used = modify k c λ x. record x { slice_remaining = x.slice_remaining - 1 } in
    if ltb 0 (k.tasks c).slice_remaining then used else k

-- slice_expired
unfoldable pub slice_expired : Kernel → Option ℕ → Bool
slice_expired k none = false
slice_expired k (some c) = (k.tasks c).slice_remaining == 0

-- The rotation at the end of a slice, with the result of os_SchedSchedule at hand: a task that
-- runs on gets a new slice.
unfoldable pub renew_slice : Option ℕ → Kernel × Option ℕ → Kernel × Option ℕ
renew_slice before (k, none) = (k, none)
renew_slice before (k, some t) =
    let renewed = modify k t λ x. record x { slice_remaining = time_slice_ticks } in
    if same_handle (some t) before then (renewed, some t) else (k, some t)

-- The decision at the end of os_TimeTick
unfoldable pub tick_decision : Kernel → Bool → Kernel × Option ℕ
unfolding renew_slice slice_expired
tick_decision k woke =
    if is_none k.current && not (is_none (ready_highest_priority k)) || woke
    then sched_schedule k higher_priority_wakeup false
    else if slice_expired k k.current
    then renew_slice k.current (sched_schedule k time_slice true)
    else (k, k.current)

-- os_TimeTick
unfoldable pub time_tick : Kernel → Kernel × Option ℕ
unfolding advance_tick wake_due use_slice tick_decision
time_tick k =
    let k₁ = advance_tick k in
    let (k₂, woke) = wake_due (length (k₁.delayed_lists k₁.px_delayed)) k₁ false in
    tick_decision (use_slice k₂ k₂.current) woke

-- os_SchedTerminateCurrent for the task that it reads as `previous`
unfoldable pub terminate_task : Kernel → Option ℕ → Kernel × Option ℕ
terminate_task k none = (k, none)
terminate_task k (some t) =
    if is_running (k.tasks t).state
    then switch_to_highest (modify (mutex_release_task k t) t λ x. record x { state = terminated })
        (some t) exit
    else (k, some t)

-- os_SchedTerminateCurrent
unfoldable pub sched_terminate_current : Kernel → Kernel × Option ℕ
unfolding terminate_task
sched_terminate_current k = terminate_task k k.current
