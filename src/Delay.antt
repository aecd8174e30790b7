-- ===== src/Delay.antt =====
-- The delay lists of kernel/src/os_time.c: tick comparison, ordered insertion, removal, and the
-- delay of the current task.
pub mod Links
pub mod Ticks
pub mod Order
pub mod Invariant
use mini_rtos.Base.{
  ℕ, zero, suc, ◌+◌, ◌-◌, Bool, true, false, ◌&&◌, ◌||◌, not, Option, none, some, List, [], ◌∷◌,
  ltb, leb, ◌==◌, if◌then◌else◌, update, is_none, push_back, insert_at, first_such, remove,
}
use mini_rtos.Kernel.{
  SwitchReason, Task, Kernel, blocked_delay, blocked, is_running, modify, u32, max_delay_ticks,
}
use mini_rtos.Sched.{sched_yield_current, sched_current_blocked}

-- os_TickReached: the sign of the difference read as an int32_t
unfoldable pub tick_reached : ℕ → ℕ → Bool
tick_reached now target = ltb (u32 (now + 4294967296 - target)) 2147483648

-- os_TimeDelayListRemove behind its tests
unfoldable pub unlink_delay : Kernel → ℕ → Option ℕ → Kernel
unlink_delay k t none = k
unlink_delay k t (some d) = record k {
  delayed_lists = update k.delayed_lists d (remove (k.delayed_lists d) t);
  tasks = update k.tasks t (record (k.tasks t) { delay_linked = false; delay_list = none });
}

-- os_TimeDelayListRemove
unfoldable pub delay_list_remove : Kernel → ℕ → Kernel
unfolding unlink_delay
delay_list_remove k t =
    if (k.tasks t).delay_linked then unlink_delay k t (k.tasks t).delay_list else k

-- The walk of os_TimeDelayListInsert to the first task that wakes after `target`.
unfoldable pub later_position : (ℕ → Task) → ℕ → List ℕ → Option ℕ
later_position tasks target xs = first_such (λ u. ltb target (tasks u).wake_tick) xs

-- os_TimeDelayListInsert, its node unlinked
unfoldable pub link_delay : Kernel → ℕ → ℕ → Kernel
link_delay k t target =
    let d = if ltb target k.tick then k.px_overflow_delayed else k.px_delayed in
    let tasks' =
      update k.tasks t
        (record (k.tasks t) { wake_tick = target; delay_list = some d; delay_linked = true }) in
    let xs = k.delayed_lists d in
    record k {
      tasks = tasks';
      delayed_lists = update k.delayed_lists d (insert_at xs (later_position tasks' target xs) t);
    }

-- os_TimeDelayListInsert
unfoldable pub delay_list_insert : Kernel → ℕ → ℕ → Kernel
unfolding link_delay
delay_list_insert k t target =
    link_delay (if (k.tasks t).delay_linked then delay_list_remove k t else k) t target

-- os_TimeDelayCurrent for the task that it reads as `current`
unfoldable pub delay_task : Kernel → Option ℕ → ℕ → Kernel × Option ℕ
delay_task k none ticks = (k, none)
delay_task k (some t) ticks =
    let clamped = if ltb max_delay_ticks ticks then max_delay_ticks else ticks in
    let blocking = modify k t λ x. record x { state = blocked_delay } in
    if not (is_running (k.tasks t).state)
    then (k, some t)
    else if ticks == 0
    then sched_yield_current k
    else sched_current_blocked (delay_list_insert blocking t (u32 (k.tick + clamped))) blocked

-- os_TimeDelayCurrent
unfoldable pub time_delay_current : Kernel → ℕ → Kernel × Option ℕ
unfolding delay_task
time_delay_current k ticks = delay_task k k.current ticks
