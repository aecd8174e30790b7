-- ===== src/Validate.antt =====
-- os_KernelValidate of kernel/src/os_sched.c. A walk that finds a fault returns `none`, as the
-- function returns false. A list of the model has no links of its own, so the checks of `previous`,
-- `size`, `tail` and `owner` have no counterpart here; NodeList is about those.
pub mod Walks
pub mod Tasks
pub mod Passes
pub mod Accepted
use mini_rtos.Base.{
  ℕ, zero, suc, ◌+◌, ◌-◌, Bool, true, false, ◌&&◌, ◌||◌, not, Option, none, some, List, [], ◌∷◌,
  ltb, leb, ◌==◌, if◌then◌else◌, same_handle, is_none, update, indices,
}
use mini_rtos.Base.Bits.{set_bit}
use mini_rtos.Kernel.{
  Task, TaskState, Kernel, WaitList, unused, ready, running, blocked_delay, blocked_object,
  terminated, is_ready, is_running, is_blocked_delay, is_blocked_object, is_no_wait, max_tasks,
  priority_count, idle_priority, wait_forever,
}
use mini_rtos.TaskPool.{task_is_idle}

-- `f` of the value, where there is one.
abbrev pub and_then {ℓ κ} : {A : Type ℓ} {B : Type κ} → Option A → (A → Option B) → Option B
and_then none f = none
and_then (some a) f = f a

-- A loop whose rounds may leave the function.
abbrev pub try_each {ℓ} : {S : Type ℓ} → (ℕ → S → Option S) → List ℕ → S → Option S
try_each body [] s = some s
try_each body (x ∷ xs) s = and_then (body x s) (try_each body xs)

-- membership[index]++
abbrev pub counted : (ℕ → ℕ) → ℕ → ℕ → ℕ
counted membership index = update membership index (membership index + 1)

-- One node of the walk over a ready queue; the state is `count` and `ready_membership`.
unfoldable pub check_ready_node : Kernel → ℕ → ℕ → ℕ × (ℕ → ℕ) → Option (ℕ × (ℕ → ℕ))
check_ready_node k priority t (n, membership) =
    let task = k.tasks t in
    if leb max_tasks n || not task.schedule_linked
    then none
    else if leb max_tasks task.id || not (task.id == t)
    then none
    else if not (is_ready task.state) || not (task.effective_priority == priority)
    then none
    else some (n + 1, counted membership task.id)

-- One ready queue; the state is `ready_membership` and `expected_bitmap`.
unfoldable pub check_ready_list : Kernel → ℕ → (ℕ → ℕ) × ℕ → Option ((ℕ → ℕ) × ℕ)
check_ready_list k priority (membership, bitmap) =
    and_then (try_each (check_ready_node k priority) (k.ready_lists priority) (0, membership))
      (λ (walked : ℕ × (ℕ → ℕ)).
        some (walked.1, if ltb 0 walked.0 then set_bit bitmap priority else bitmap))

-- The first pass
unfoldable pub check_ready : Kernel → Option ((ℕ → ℕ) × ℕ)
check_ready k = try_each (check_ready_list k) (indices priority_count) ((λ _. 0), 0)

-- Whether `wake_tick` is behind the last one of the walk, `none` before the first.
abbrev pub in_order : Option ℕ → ℕ → Bool
in_order none wake_tick = true
in_order (some last_target) wake_tick = not (ltb wake_tick last_target)

-- One node of the walk over a delay list; the state is `count`, `last_target` and
-- `delay_membership`.
unfoldable pub check_delay_node :
    Kernel → ℕ → ℕ → ℕ × Option ℕ × (ℕ → ℕ) → Option (ℕ × Option ℕ × (ℕ → ℕ))
check_delay_node k list t (n, last, membership) =
    let task = k.tasks t in
    if leb max_tasks n || not task.delay_linked
    then none
    else if leb max_tasks task.id || not (task.id == t)
    then none
    else if not (is_blocked_delay task.state) && not (is_blocked_object task.state)
    then none
    else if not (same_handle task.delay_list (some list))
    then none
    else if not (in_order last task.wake_tick)
    then none
    else some (n + 1, some task.wake_tick, counted membership task.id)

-- One delay list
unfoldable pub check_delay_list : Kernel → ℕ → (ℕ → ℕ) → Option (ℕ → ℕ)
check_delay_list k list membership =
    and_then (try_each (check_delay_node k list) (k.delayed_lists list) (0, none, membership))
      (λ (walked : ℕ × Option ℕ × (ℕ → ℕ)). some walked.2)

-- The second pass
unfoldable pub check_delayed : Kernel → Option (ℕ → ℕ)
check_delayed k =
    if k.px_delayed == k.px_overflow_delayed
    then none
    else try_each (check_delay_list k) (indices 2) (λ _. 0)

-- os_ListContains of the schedule node of `t`, at most `n` nodes visited
unfoldable pub within : ℕ → List ℕ → ℕ → Bool
within zero xs t = false
within (suc n) [] t = false
within (suc n) (x ∷ xs) t = let rest = within n xs t in if x == t then true else rest

abbrev pub waits_listed : Kernel → Option WaitList → ℕ → Bool
waits_listed k none t = false
waits_listed k (some w) t = within (max_tasks + 1) (k.waiters w) t

-- The priorities of a task in use
abbrev pub priorities_valid : Kernel → ℕ → Bool
priorities_valid k t =
    let task = k.tasks t in
    if task_is_idle k t
    then (task.base_priority == idle_priority) && (task.effective_priority == idle_priority)
    else ltb idle_priority task.base_priority
      && ltb task.base_priority priority_count
      && leb task.base_priority task.effective_priority
      && ltb task.effective_priority priority_count

-- The switch over the state of task `t`, with its two memberships
unfoldable pub check_state : Kernel → ℕ → TaskState → (in_ready in_delay : ℕ) → Bool
unfolding within
check_state k t unused in_ready in_delay = false
check_state k t ready in_ready in_delay =
    let task = k.tasks t in
    (in_ready == 1)
    && (in_delay == 0)
    && not task.delay_linked
    && is_no_wait task.wait_kind
    && is_none task.wait_list
check_state k t running in_ready in_delay =
    let task = k.tasks t in
    same_handle k.current (some t)
    && (in_ready == 0)
    && (in_delay == 0)
    && not task.schedule_linked
    && not task.delay_linked
    && is_no_wait task.wait_kind
    && is_none task.wait_list
check_state k t blocked_delay in_ready in_delay =
    let task = k.tasks t in
    (in_ready == 0) && (in_delay == 1) && task.delay_linked && not task.schedule_linked
check_state k t blocked_object in_ready in_delay =
    let task = k.tasks t in
    (in_ready == 0)
    && task.schedule_linked
    && not (is_no_wait task.wait_kind)
    && waits_listed k task.wait_list t
    && (if task.delay_linked
        then (in_delay == 1)
          && not (is_none task.delay_list)
          && (task.wake_tick == task.wait_deadline)
        else (in_delay == 0) && is_none task.delay_list && (task.wait_deadline == wait_forever))
check_state k t terminated in_ready in_delay =
    let task = k.tasks t in
    (in_ready == 0) && (in_delay == 0) && not task.schedule_linked && not task.delay_linked

abbrev pub is_unused : TaskState → Bool
is_unused unused = true
is_unused _ = false

-- A TCB in state UNUSED in the last pass, with its two memberships; `counts` is `used_tasks` and
-- `running_tasks`.
unfoldable pub check_unused : Task → (in_ready in_delay : ℕ) → ℕ × ℕ → Option (ℕ × ℕ)
check_unused task in_ready in_delay counts =
    if (in_ready == 0) && (in_delay == 0) && not task.schedule_linked && not task.delay_linked
    then some counts
    else none

-- A TCB in use in the last pass
unfoldable pub check_used : Kernel → ℕ → (in_ready in_delay : ℕ) → ℕ × ℕ → Option (ℕ × ℕ)
unfolding check_state
check_used k t in_ready in_delay (used_tasks, running_tasks) =
    let task = k.tasks t in
    if task.entry == 0 || not (priorities_valid k t)
    then none
    else if check_state k t task.state in_ready in_delay
    then some (used_tasks + 1, if is_running task.state then running_tasks + 1 else running_tasks)
    else none

-- One TCB of the last pass
unfoldable pub check_task :
    Kernel → (ready_membership delay_membership : ℕ → ℕ) → ℕ → ℕ × ℕ → Option (ℕ × ℕ)
unfolding check_unused check_used
check_task k ready_membership delay_membership t counts =
    let task = k.tasks t in
    if not (task.id == t)
    then none
    else if is_unused task.state
    then check_unused task (ready_membership t) (delay_membership t) counts
    else check_used k t (ready_membership t) (delay_membership t) counts

-- The last pass and the checks behind it
unfoldable pub check_tasks : Kernel → (ready_membership delay_membership : ℕ → ℕ) → Option (ℕ × ℕ)
check_tasks k ready_membership delay_membership =
    try_each (check_task k ready_membership delay_membership) (indices max_tasks) (0, 0)

abbrev pub current_valid : Kernel → Option ℕ → ℕ → Bool
current_valid k none running_tasks = running_tasks == 0
current_valid k (some t) running_tasks = is_running (k.tasks t).state

unfoldable pub check_counts : Kernel → Option (ℕ × ℕ) → Bool
check_counts k none = false
check_counts k (some (used_tasks, running_tasks)) =
    (used_tasks == k.task_count) && leb running_tasks 1 && current_valid k k.current running_tasks

-- The passes behind the first
unfoldable pub check_rest : Kernel → (ℕ → ℕ) → Option (ℕ → ℕ) → Bool
unfolding check_tasks check_counts
check_rest k ready_membership none = false
check_rest k ready_membership (some delay_membership) =
    check_counts k (check_tasks k ready_membership delay_membership)

-- The first pass, with what it found
unfoldable pub check_found : Kernel → Option ((ℕ → ℕ) × ℕ) → Bool
unfolding check_rest check_delayed
check_found k none = false
check_found k (some (ready_membership, expected_bitmap)) =
    (expected_bitmap == k.ready_bitmap) && check_rest k ready_membership (check_delayed k)

-- os_KernelValidate
unfoldable pub kernel_validate : Kernel → Bool
unfolding check_found check_ready
kernel_validate k = k.initialized && leb k.task_count max_tasks && check_found k (check_ready k)
