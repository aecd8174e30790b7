-- ===== src/TaskPool.antt =====
-- kernel/src/os_task.c: initialisation, task creation and queries. The addresses that the linker
-- gives to the Idle task's name, entry and stack are parameters.
pub mod Refusals
pub mod Boot
pub mod Objects
use Prim.Native.String.{String}
use mathlib.Core.List.{map}
use mini_rtos.Base.{
  ℕ, zero, suc, ◌+◌, ◌%◌, Bool, true, false, ◌&&◌, ◌||◌, not, Option, none, some, List, [], ◌∷◌,
  ◌++◌, ltb, leb, ◌==◌, if◌then◌else◌, update, for_each, indices, drop, replicate,
}
use mini_rtos.Kernel.{
  Status, TaskState, SwitchReason, Task, Sem, Queue, Mutex, WaitList, Kernel, ok, invalid_argument,
  limit_reached, bad_state, unused, ready, running, blocked_delay, blocked_object, terminated,
  no_switch, start, time_slice, yield, higher_priority_wakeup, blocked, exit, no_wait, max_tasks,
  priority_count, idle_priority, task_name_max, min_stack_bytes, idle_stack_bytes,
}
use mini_rtos.Ready.{ready_enqueue}

-- os_TaskNameLength of a name that is not NULL, `fuel` characters on
unfoldable pub name_length_from : (ℕ → ℕ) → ℕ → ℕ → ℕ
name_length_from memory name zero = 0
name_length_from memory name (suc fuel) =
    if memory name == 0 then 0 else suc (name_length_from memory (name + 1) fuel)

-- os_TaskNameLength
unfoldable pub task_name_length : (ℕ → ℕ) → ℕ → ℕ
unfolding name_length_from
task_name_length memory name = if name == 0 then 0 else name_length_from memory name task_name_max

-- `size` bytes from `address`
abbrev pub read_bytes : (ℕ → ℕ) → ℕ → ℕ → List ℕ
read_bytes memory address zero = []
read_bytes memory address (suc size) = memory address ∷ read_bytes memory (address + 1) size

-- os_port_stack_init of port/stub and port/win32; 0 stands for NULL
unfoldable pub port_stack_init : ℕ → ℕ → ℕ
port_stack_init stack_memory stack_size =
    if stack_memory == 0 || ltb stack_size min_stack_bytes then 0 else stack_memory + stack_size

-- The arguments of os_TaskCreateInternal
pub record TaskSpec : Type 0 where
  pub name : ℕ
  pub entry : ℕ
  pub argument : ℕ
  pub priority : ℕ
  pub stack_memory : ℕ
  pub stack_size : ℕ

-- The TCB that os_TaskCreateInternal fills in, over the old contents of its slot.
unfoldable pub new_task : (ℕ → ℕ) → TaskSpec → Task → Task
unfolding task_name_length port_stack_init
new_task memory spec old = record old {
  name =
      let size = task_name_length memory spec.name + 1 in
      read_bytes memory spec.name size ++ drop size old.name;
  entry = spec.entry;
  argument = spec.argument;
  sp = port_stack_init spec.stack_memory spec.stack_size;
  stack_memory = spec.stack_memory;
  stack_size = spec.stack_size;
  base_priority = spec.priority;
  effective_priority = spec.priority;
  state = ready;
  wake_tick = 0;
  slice_remaining = 0;
  wait_kind = no_wait;
  wait_object = none;
  wait_buffer = 0;
  wait_list = none;
  wait_deadline = 0;
  wait_result = bad_state;
  delay_list = none;
  delay_linked = false;
}

-- The refusals of os_TaskCreateInternal, in order; `ok` where there is none.
unfoldable pub create_status : Kernel → TaskSpec → Bool → Status
unfolding task_name_length port_stack_init
create_status k spec allow_idle_priority =
    let name_length = task_name_length k.memory spec.name in
    if not k.initialized || k.started
    then bad_state
    else if spec.name == 0 || spec.entry == 0 || spec.stack_memory == 0
    then invalid_argument
    else if name_length == 0 || leb task_name_max name_length
    then invalid_argument
    else if leb priority_count spec.priority
        || not allow_idle_priority && leb spec.priority idle_priority
    then invalid_argument
    else if ltb spec.stack_size min_stack_bytes
    then invalid_argument
    else if leb max_tasks k.task_count
    then limit_reached
    else if port_stack_init spec.stack_memory spec.stack_size == 0
    then invalid_argument
    else ok

abbrev pub is_ok : Status → Bool
is_ok ok = true
is_ok _ = false

-- os_TaskCreateInternal; the last part of the result is *out_task
unfoldable pub task_create_internal : Kernel → TaskSpec → Bool → Kernel × Status × Option ℕ
unfolding create_status new_task
task_create_internal k spec allow_idle_priority =
    let t = k.task_count in
    let filled = record k { tasks = update k.tasks t (new_task k.memory spec (k.tasks t)) } in
    if is_ok (create_status k spec allow_idle_priority)
    then (record (ready_enqueue filled t) { task_count = t + 1 }, ok, some t)
    else (k, create_status k spec allow_idle_priority, none)

-- xTaskCreate
unfoldable pub task_create : Kernel → TaskSpec → Kernel × Option ℕ
task_create k spec =
    let (k', status, task) = task_create_internal k spec false in
    (record k' { last_error = status }, task)

-- Where the linker puts "Idle", os_IdleTaskEntry and g_idle_stack.
pub record IdleAddresses : Type 0 where
  pub name : ℕ
  pub entry : ℕ
  pub stack : ℕ

abbrev pub idle_spec : IdleAddresses → TaskSpec
idle_spec addresses = record {
  name = addresses.name;
  entry = addresses.entry;
  argument = 0;
  priority = idle_priority;
  stack_memory = addresses.stack;
  stack_size = idle_stack_bytes;
}

-- os_EnsureIdleTask with g_idle_task at hand
unfoldable pub ensure_idle : IdleAddresses → Kernel → Option ℕ → Kernel × Status
ensure_idle addresses k none =
    let (k', status, task) = task_create_internal k (idle_spec addresses) true in
    (record k' { idle_task = task }, status)
ensure_idle addresses k (some t) = (k, ok)

-- os_EnsureIdleTask
unfoldable pub ensure_idle_task : IdleAddresses → Kernel → Kernel × Status
unfolding ensure_idle
ensure_idle_task addresses k = ensure_idle addresses k k.idle_task

-- memset(&task, 0, sizeof(task))
abbrev pub zero_task : Task
zero_task = record {
  id = 0;
  name = replicate task_name_max 0;
  entry = 0;
  argument = 0;
  sp = 0;
  stack_memory = 0;
  stack_size = 0;
  base_priority = 0;
  effective_priority = 0;
  state = unused;
  wake_tick = 0;
  slice_remaining = 0;
  wait_kind = no_wait;
  wait_object = none;
  wait_buffer = 0;
  wait_list = none;
  wait_deadline = 0;
  wait_result = ok;
  schedule_linked = false;
  delay_linked = false;
  delay_list = none;
}

-- os_SemKernelReset
unfoldable pub sem_kernel_reset : ℕ → Sem
sem_kernel_reset s = record { used = false; count = 0; maximum_count = 0 }

-- os_QueueKernelReset
unfoldable pub queue_kernel_reset : ℕ → Queue
queue_kernel_reset q = record {
  used = false;
  buffer = 0;
  item_size = 0;
  capacity = 0;
  head = 0;
  tail = 0;
  count = 0;
}

-- os_MutexKernelReset
unfoldable pub mutex_kernel_reset : ℕ → Mutex
mutex_kernel_reset m = record { used = false; owner = none }

-- The loop body of os_Init over the TCB pool
unfoldable pub number_task : ℕ → (ℕ → Task) → ℕ → Task
number_task t tasks = update tasks t (record (tasks t) { id = t % 256; state = unused })

-- The loop of os_Init over the TCB pool
unfoldable pub number_tasks : (ℕ → Task) → ℕ → Task
unfolding number_task
number_tasks tasks = for_each (indices max_tasks) number_task tasks

-- os_Init, over the statics that it leaves alone: g_last_error, the memory, the port's
unfoldable pub init : Kernel → Kernel
unfolding sem_kernel_reset queue_kernel_reset mutex_kernel_reset
init k = record k {
  initialized = true;
  started = false;
  tasks = number_tasks (λ _. zero_task);
  task_count = 0;
  ready_lists = λ _. [];
  delayed_lists = λ _. [];
  px_delayed = 0;
  px_overflow_delayed = 1;
  ready_bitmap = 0;
  tick = 0;
  current = none;
  last_from = none;
  last_to = none;
  last_reason = no_switch;
  switch_count = 0;
  critical_nesting = 0;
  sched_pending = false;
  waiters = λ _. [];
  semaphores = sem_kernel_reset;
  queues = queue_kernel_reset;
  mutexes = mutex_kernel_reset;
  idle_task = none;
}

-- os_TaskIsIdle of a task
unfoldable pub task_is_idle : Kernel → ℕ → Bool
task_is_idle k t = (k.tasks t).base_priority == idle_priority

-- pcTaskGetName
unfoldable pub task_get_name : Kernel → Option ℕ → Option (List ℕ)
task_get_name k none = none
task_get_name k (some t) = some (k.tasks t).name

-- eTaskGetState
unfoldable pub task_get_state : Kernel → Option ℕ → TaskState
task_get_state k none = unused
task_get_state k (some t) = (k.tasks t).state

-- uxTaskPriorityGet
unfoldable pub task_priority_get : Kernel → Option ℕ → ℕ
task_priority_get k none = idle_priority
task_priority_get k (some t) = (k.tasks t).effective_priority

-- os_TaskStateName; the enumeration leaves no state for "INVALID"
unfoldable pub task_state_name : TaskState → String
task_state_name unused = "UNUSED"
task_state_name ready = "READY"
task_state_name running = "RUNNING"
task_state_name blocked_delay = "BLOCKED_DELAY"
task_state_name blocked_object = "BLOCKED_OBJECT"
task_state_name terminated = "TERMINATED"

-- os_SwitchReasonName; the enumeration leaves no reason for "invalid"
unfoldable pub switch_reason_name : SwitchReason → String
switch_reason_name no_switch = "none"
switch_reason_name start = "start"
switch_reason_name time_slice = "time_slice"
switch_reason_name yield = "yield"
switch_reason_name higher_priority_wakeup = "higher_priority_wakeup"
switch_reason_name blocked = "blocked"
switch_reason_name exit = "exit"
