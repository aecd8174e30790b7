-- ===== src/Kernel.antt =====
-- The kernel's state: os_kernel_t, the TCB and the control blocks of include/os.h and
-- kernel/include/*.h, the memory that queues copy through, and the critical-section state of the
-- port. A pointer to a task or to a control block is its index in the static pool, `none` for
-- NULL; a list is the sequence of the tasks whose nodes it links, in order.
use mini_rtos.Base.{
  ℕ, ◌%◌, Bool, true, false, ◌&&◌, Option, none, some, List, ◌==◌, if◌then◌else◌, update,
}

-- os_status_t
pub data Status : Type 0 where
  ok invalid_argument limit_reached bad_state timeout not_owner : Status

-- os_task_state_t
pub data TaskState : Type 0 where
  unused ready running blocked_delay blocked_object terminated : TaskState

-- os_switch_reason_t
pub data SwitchReason : Type 0 where
  no_switch start time_slice yield higher_priority_wakeup blocked exit : SwitchReason

-- os_wait_kind_t
pub data WaitKind : Type 0 where
  no_wait semaphore queue_send queue_receive mutex : WaitKind

-- uint32_t arithmetic wraps.
abbrev pub u32 : ℕ → ℕ
u32 n = n % 4294967296

abbrev pub max_tasks : ℕ
max_tasks = 8

abbrev pub priority_count : ℕ
priority_count = 8

abbrev pub idle_priority : ℕ
idle_priority = 0

abbrev pub task_name_max : ℕ
task_name_max = 24

abbrev pub time_slice_ticks : ℕ
time_slice_ticks = 200

abbrev pub max_delay_ticks : ℕ
max_delay_ticks = 0x7fff_ffff

abbrev pub wait_forever : ℕ
wait_forever = 0xffff_ffff

abbrev pub max_semaphores : ℕ
max_semaphores = 4

abbrev pub max_queues : ℕ
max_queues = 4

abbrev pub max_mutexes : ℕ
max_mutexes = 4

abbrev pub min_stack_bytes : ℕ
min_stack_bytes = 64

abbrev pub idle_stack_bytes : ℕ
idle_stack_bytes = 256

-- The address of an object's wait queue: each kind of wait has one in each object of its pool.
pub record WaitList : Type 0 where
  pub kind : WaitKind
  pub object : ℕ

abbrev pub wait_list_of : WaitKind → ℕ → WaitList
wait_list_of kind object = record { kind = kind; object = object }

-- struct os_task. Of its two list nodes it keeps `linked`; the links are the kernel's sequences.
pub record Task : Type 0 where
  pub id : ℕ
  pub name : List ℕ
  pub entry : ℕ
  pub argument : ℕ
  pub sp : ℕ
  pub stack_memory : ℕ
  pub stack_size : ℕ
  pub base_priority : ℕ
  pub effective_priority : ℕ
  pub state : TaskState
  pub wake_tick : ℕ
  pub slice_remaining : ℕ
  pub wait_kind : WaitKind
  pub wait_object : Option ℕ
  pub wait_buffer : ℕ
  pub wait_list : Option WaitList
  pub wait_deadline : ℕ
  pub wait_result : Status
  pub schedule_linked : Bool
  pub delay_linked : Bool
  pub delay_list : Option ℕ

-- struct os_sem, its waiters apart
pub record Sem : Type 0 where
  pub used : Bool
  pub count : ℕ
  pub maximum_count : ℕ

-- struct os_queue, its waiters apart; `buffer` is an address, 0 for NULL
pub record Queue : Type 0 where
  pub used : Bool
  pub buffer : ℕ
  pub item_size : ℕ
  pub capacity : ℕ
  pub head : ℕ
  pub tail : ℕ
  pub count : ℕ

-- struct os_mutex, its waiters apart
pub record Mutex : Type 0 where
  pub used : Bool
  pub owner : Option ℕ

-- os_kernel_t with the static pools g_semaphores, g_queues and g_mutexes, the wait queues of their
-- objects, g_idle_task, g_last_error, the bytes of memory, and the statics of the port.
pub record Kernel : Type 0 where
  pub initialized : Bool
  pub started : Bool
  pub tasks : ℕ → Task
  pub task_count : ℕ
  pub ready_lists : ℕ → List ℕ
  pub delayed_lists : ℕ → List ℕ
  pub px_delayed : ℕ
  pub px_overflow_delayed : ℕ
  pub ready_bitmap : ℕ
  pub tick : ℕ
  pub current : Option ℕ
  pub last_from : Option ℕ
  pub last_to : Option ℕ
  pub last_reason : SwitchReason
  pub switch_count : ℕ
  pub critical_nesting : ℕ
  pub sched_pending : Bool
  pub waiters : WaitList → List ℕ
  pub semaphores : ℕ → Sem
  pub queues : ℕ → Queue
  pub mutexes : ℕ → Mutex
  pub idle_task : Option ℕ
  pub last_error : Status
  pub memory : ℕ → ℕ
  pub port_nesting : ℕ
  pub switch_pending : Bool

abbrev pub is_ready : TaskState → Bool
is_ready ready = true
is_ready _ = false

abbrev pub is_running : TaskState → Bool
is_running running = true
is_running _ = false

abbrev pub is_blocked_delay : TaskState → Bool
is_blocked_delay blocked_delay = true
is_blocked_delay _ = false

abbrev pub is_blocked_object : TaskState → Bool
is_blocked_object blocked_object = true
is_blocked_object _ = false

abbrev pub is_no_wait : WaitKind → Bool
is_no_wait no_wait = true
is_no_wait _ = false

abbrev pub is_mutex_wait : WaitKind → Bool
is_mutex_wait mutex = true
is_mutex_wait _ = false

abbrev pub kind_code : WaitKind → ℕ
kind_code no_wait = 0
kind_code semaphore = 1
kind_code queue_send = 2
kind_code queue_receive = 3
kind_code mutex = 4

abbrev pub same_wait_list : WaitList → WaitList → Bool
same_wait_list a b = (kind_code a.kind == kind_code b.kind) && (a.object == b.object)

-- The waiters with those of one object replaced.
abbrev pub update_waiters : (WaitList → List ℕ) → WaitList → List ℕ → WaitList → List ℕ
update_waiters f w xs v = if same_wait_list v w then xs else f v

-- A write to the TCB of `t`.
abbrev pub modify : Kernel → ℕ → (Task → Task) → Kernel
modify k t f = record k { tasks = update k.tasks t (f (k.tasks t)) }

-- Whether the current task exists and is RUNNING, the guard of every task-context operation.
abbrev pub current_runs : (ℕ → Task) → Option ℕ → Bool
current_runs tasks none = false
current_runs tasks (some t) = is_running (tasks t).state
