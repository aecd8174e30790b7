-- ===== src/Sched.antt =====
-- The scheduling decisions of kernel/src/os_sched.c.
pub mod Invariant
pub mod Arrival
pub mod Highest
pub mod Rotation
use mini_rtos.Base.{
  ℕ, Bool, ◌||◌, true, false, ◌&&◌, not, Option, none, some, ltb, ◌==◌, if◌then◌else◌,
}
use mini_rtos.Kernel.{
  SwitchReason, Task, Kernel, ready, start, yield, is_running, modify, current_runs,
}
use mini_rtos.Ready.{commit_switch, ready_enqueue, ready_highest_priority, ready_pop_highest}

-- current->state = OS_TASK_READY; os_ReadyEnqueue(current)
unfoldable pub requeue : Kernel → ℕ → Kernel
requeue k t = ready_enqueue (modify k t λ x. record x { state = ready }) t

-- next = os_ReadyPopHighest(); return os_CommitSwitch(previous, next, reason)
unfoldable pub switch_to_highest : Kernel → Option ℕ → SwitchReason → Kernel × Option ℕ
switch_to_highest k previous reason =
    let (k', next) = ready_pop_highest k in commit_switch k' previous next reason

-- os_SchedStart, with the chosen task at hand
unfoldable pub start_first : Kernel → Option ℕ → Kernel × Option ℕ
start_first k none = (k, none)
start_first k (some t) = commit_switch (record k { started = true }) none (some t) start

-- os_SchedStart
unfoldable pub sched_start : Kernel → Kernel × Option ℕ
unfolding start_first
sched_start k =
    let (k', next) = ready_pop_highest k in
    if not k.initialized || k.started then (k, k.current) else start_first k' next

-- os_SchedSchedule with a RUNNING current task `t` and the highest ready priority at hand. Both
-- of its tests lead to the same switch.
unfoldable pub preempt_or_rotate : Kernel → ℕ → Option ℕ → SwitchReason → Bool → Kernel × Option ℕ
preempt_or_rotate k t none reason rotate_equal = (k, some t)
preempt_or_rotate k t (some highest_ready) reason rotate_equal =
    let priority = (k.tasks t).effective_priority in
    if ltb priority highest_ready || rotate_equal && highest_ready == priority
    then switch_to_highest (requeue k t) (some t) reason
    else (k, some t)

-- os_SchedSchedule behind the test of `started`
unfoldable pub schedule_started : Kernel → Option ℕ → SwitchReason → Bool → Kernel × Option ℕ
unfolding preempt_or_rotate
schedule_started k none reason rotate_equal = switch_to_highest k none reason
schedule_started k (some t) reason rotate_equal =
    if is_running (k.tasks t).state
    then preempt_or_rotate k t (ready_highest_priority k) reason rotate_equal
    else switch_to_highest k (some t) reason

-- os_SchedSchedule
unfoldable pub sched_schedule : Kernel → SwitchReason → Bool → Kernel × Option ℕ
unfolding schedule_started
sched_schedule k reason rotate_equal =
    if k.started then schedule_started k k.current reason rotate_equal else (k, none)

-- os_SchedYieldCurrent with its `previous` at hand
unfoldable pub yield_task : Kernel → Option ℕ → Kernel × Option ℕ
yield_task k none = (k, none)
yield_task k (some t) =
    if is_running (k.tasks t).state
    then switch_to_highest (requeue k t) (some t) yield
    else (k, some t)

-- os_SchedYieldCurrent
unfoldable pub sched_yield_current : Kernel → Kernel × Option ℕ
unfolding yield_task
sched_yield_current k = yield_task k k.current

-- os_SchedCurrentBlocked with its `previous` at hand
unfoldable pub leave_blocked : Kernel → Option ℕ → SwitchReason → Kernel × Option ℕ
leave_blocked k none reason = (k, none)
leave_blocked k (some t) reason =
    if is_running (k.tasks t).state then (k, some t) else switch_to_highest k (some t) reason

-- os_SchedCurrentBlocked
unfoldable pub sched_current_blocked : Kernel → SwitchReason → Kernel × Option ℕ
unfolding leave_blocked
sched_current_blocked k reason = leave_blocked k k.current reason
