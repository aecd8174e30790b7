-- ===== src/Wait.antt =====
-- Object wait queues of kernel/src/os_sched.c: ordered insertion, blocking, waking, preemption,
-- and a change of effective priority.
pub mod Links
pub mod Invariant
pub mod Priority
pub mod Order
use mini_rtos.Base.{
  ℕ, zero, suc, ◌+◌, Bool, true, false, ◌&&◌, ◌||◌, not, Option, none, some, List, [], ◌∷◌, ltb,
  leb, ◌==◌, if◌then◌else◌, update, is_none, head?, tail, remove, first_such, insert_at,
}
use mini_rtos.Kernel.{
  Status, SwitchReason, TaskState, WaitKind, WaitList, Task, Kernel, ready, blocked_object, no_wait,
  bad_state, blocked, higher_priority_wakeup, is_ready, is_running, is_blocked_object, is_no_wait,
  modify, u32, max_delay_ticks, wait_forever, idle_priority, priority_count, update_waiters,
}
use mini_rtos.Ready.{ready_enqueue, ready_remove, unlink_head}
use mini_rtos.Sched.{sched_schedule, sched_current_blocked}
use mini_rtos.Delay.{delay_list_insert, delay_list_remove}

-- The walk of os_WaitInsertByPriority to the first task of a lower priority.
unfoldable pub lower_position : (ℕ → Task) → ℕ → List ℕ → Option ℕ
lower_position tasks priority xs = first_such (λ u. ltb (tasks u).effective_priority priority) xs

-- os_WaitInsertByPriority
unfoldable pub wait_insert_by_priority : Kernel → WaitList → ℕ → Kernel
wait_insert_by_priority k w t =
    let xs = k.waiters w in
    let position = lower_position k.tasks (k.tasks t).effective_priority xs in
    record k {
      waiters = update_waiters k.waiters w (insert_at xs position t);
      tasks = update k.tasks t (record (k.tasks t) { schedule_linked = true });
    }

-- os_ListRemove of a schedule node from a wait queue
unfoldable pub wait_unlink : Kernel → WaitList → ℕ → Kernel
wait_unlink k w t = record k {
  waiters = update_waiters k.waiters w (remove (k.waiters w) t);
  tasks = update k.tasks t (record (k.tasks t) { schedule_linked = false });
}

-- os_TaskSetEffectivePriority where the task is not READY
unfoldable pub move_waiting : Kernel → ℕ → ℕ → Option WaitList → Kernel
move_waiting k t priority none = modify k t λ x. record x { effective_priority = priority }
move_waiting k t priority (some w) =
    let raised = λ (k' : Kernel). modify k' t λ x. record x { effective_priority = priority } in
    if is_blocked_object (k.tasks t).state && (k.tasks t).schedule_linked
    then wait_insert_by_priority (raised (wait_unlink k w t)) w t
    else raised k

-- os_TaskSetEffectivePriority where the task is READY, with the outcome of os_ReadyRemove at hand
unfoldable pub move_ready : Kernel × Bool → ℕ → ℕ → Kernel
move_ready (k, false) t priority = k
move_ready (k, true) t priority =
    ready_enqueue (modify k t λ x. record x { effective_priority = priority }) t

-- os_TaskSetEffectivePriority
unfoldable pub task_set_effective_priority : Kernel → ℕ → ℕ → Kernel
unfolding move_ready move_waiting
task_set_effective_priority k t priority =
    let x = k.tasks t in
    if leb priority idle_priority || leb priority_count priority || x.effective_priority == priority
    then k
    else if is_ready x.state
    then move_ready (ready_remove k t) t priority
    else move_waiting k t priority x.wait_list

-- A finite timeout above OS_MAX_DELAY_TICKS is cut down to it.
unfoldable pub clamp_timeout : ℕ → ℕ
clamp_timeout timeout_ticks =
    if not (timeout_ticks == wait_forever) && ltb max_delay_ticks timeout_ticks
    then max_delay_ticks
    else timeout_ticks

-- current->wait_deadline
unfoldable pub deadline_at : ℕ → ℕ → ℕ
deadline_at tick ticks = if ticks == wait_forever then wait_forever else u32 (tick + ticks)

-- The wait fields that os_WaitBlockCurrent writes before it queues the task.
abbrev pub waiting : WaitList → ℕ → ℕ → Task → Task
waiting w buffer deadline x = record x {
  wait_kind = w.kind;
  wait_object = some w.object;
  wait_buffer = buffer;
  wait_list = some w;
  wait_deadline = deadline;
  wait_result = bad_state;
  state = blocked_object;
}

-- os_WaitBlockCurrent from the writes to the TCB on
unfoldable pub block_until : Kernel → ℕ → WaitList → ℕ → (deadline : ℕ) → Bool → Kernel × Option ℕ
block_until k t w buffer deadline finite =
    let queued = wait_insert_by_priority (modify k t (waiting w buffer deadline)) w t in
    let untimed = modify queued t λ x. record x { delay_list = none; delay_linked = false } in
    sched_current_blocked (if finite then delay_list_insert queued t deadline else untimed) blocked

-- os_WaitBlockCurrent behind its tests
unfoldable pub block_task : Kernel → ℕ → WaitList → ℕ → ℕ → Kernel × Option ℕ
unfolding clamp_timeout deadline_at block_until
block_task k t w buffer timeout_ticks =
    let ticks = clamp_timeout timeout_ticks in
    block_until k t w buffer (deadline_at k.tick ticks) (not (ticks == wait_forever))

-- os_WaitBlockCurrent for the task that it reads as `current`
unfoldable pub wait_block : Kernel → Option ℕ → WaitList → ℕ → ℕ → Kernel × Option ℕ
unfolding block_task
wait_block k none w buffer timeout_ticks = (k, none)
wait_block k (some t) w buffer timeout_ticks =
    if not (is_running (k.tasks t).state) || is_no_wait w.kind
    then (k, some t)
    else block_task k t w buffer timeout_ticks

-- os_WaitBlockCurrent; kind, object and wait list are one address
unfoldable pub wait_block_current : Kernel → WaitList → ℕ → ℕ → Kernel × Option ℕ
unfolding wait_block
wait_block_current k w buffer timeout_ticks = wait_block k k.current w buffer timeout_ticks

-- os_WaitPop
unfoldable pub wait_pop : Kernel → WaitList → Kernel × Option ℕ
unfolding unlink_head
wait_pop k w =
    let xs = k.waiters w in
    (record (unlink_head k xs) { waiters = update_waiters k.waiters w (tail xs) }, head? xs)

-- What os_WaitMakeReady writes to the TCB.
abbrev pub woken : Status → Task → Task
woken result x = record x {
  wait_kind = no_wait;
  wait_object = none;
  wait_buffer = 0;
  wait_list = none;
  wait_deadline = 0;
  wait_result = result;
  state = ready;
}

-- os_WaitMakeReady
unfoldable pub wait_make_ready : Kernel → ℕ → Status → Kernel
wait_make_ready k t result =
    let ready_again = modify (delay_list_remove k t) t (woken result) in
    if not (is_blocked_object (k.tasks t).state) || (k.tasks t).schedule_linked
    then k
    else ready_enqueue ready_again t

-- Whether a woken task outranks the current one, or there is no current one.
abbrev pub outranks_current : Kernel → ℕ → Option ℕ → Bool
outranks_current k t none = true
outranks_current k t (some c) = ltb (k.tasks c).effective_priority (k.tasks t).effective_priority

-- os_WaitMaybePreempt
unfoldable pub wait_maybe_preempt : Kernel → ℕ → Kernel
wait_maybe_preempt k t =
    if not (outranks_current k t k.current)
    then k
    else if ltb 0 k.critical_nesting
    then record k { sched_pending = true }
    else (sched_schedule k higher_priority_wakeup false).0
