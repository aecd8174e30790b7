-- ===== src/Api.antt =====
-- kernel/src/os_api.c, and os_GetRuntimeSnapshot, os_KernelHasLiveTasks and os_KernelStopAll of
-- kernel/src/os_sched.c. os_port_start_scheduler is a parameter of os_Start.
pub mod IsrGive
use mini_rtos.Base.{
  ℕ, Bool, true, false, ◌&&◌, ◌||◌, not, Option, none, some, List, [], ◌∷◌, ◌==◌, if◌then◌else◌,
  for_each, indices,
}
use mini_rtos.Kernel.{Status, TaskState, SwitchReason, Kernel, unused, terminated, no_wait, modify}
use mini_rtos.TaskPool.{IdleAddresses, ensure_idle_task, task_is_idle, is_ok}
use mini_rtos.Sem.{Given, sem_give_from_isr_context, preempt_by}
use mini_rtos.Port.{
  yield_cpu, delay, sem_take, sem_give, send, receive, mutex_lock, mutex_unlock, task_request,
  enter_critical, exit_critical,
}

-- os_Start; `start_scheduler` is os_port_start_scheduler
unfoldable pub os_start :
    (start_scheduler : Kernel → ℕ → Kernel × Status) → IdleAddresses → Kernel → ℕ → Kernel × Status
os_start start_scheduler addresses k run_ticks =
    let (k', status) = ensure_idle_task addresses k in
    if is_ok status then start_scheduler k' run_ticks else (k', status)

-- vTaskYield
unfoldable pub task_yield : Kernel → Kernel
task_yield k = (task_request k yield_cpu).0

-- vTaskDelay
unfoldable pub task_delay : Kernel → ℕ → Kernel
unfolding task_yield
task_delay k ticks = if ticks == 0 then task_yield k else (task_request k (delay ticks)).0

-- xSemaphoreTake
unfoldable pub semaphore_take : Kernel → Option ℕ → ℕ → Kernel × Status
semaphore_take k handle ticks = task_request k (sem_take handle ticks)

-- xSemaphoreGive
unfoldable pub semaphore_give : Kernel → Option ℕ → Kernel × Status
semaphore_give k handle = task_request k (sem_give handle)

-- The body of xSemaphoreGiveFromISR between the critical section's ends
unfoldable pub give_and_preempt : Given → Kernel × Status
give_and_preempt (k, status, woken) = (exit_critical (preempt_by k woken), status)

-- xSemaphoreGiveFromISR
unfoldable pub semaphore_give_from_isr : Kernel → Option ℕ → Kernel × Status
unfolding give_and_preempt
semaphore_give_from_isr k handle =
    give_and_preempt (sem_give_from_isr_context (enter_critical k) handle)

-- xQueueSend
unfoldable pub queue_send : Kernel → Option ℕ → ℕ → ℕ → Kernel × Status
queue_send k handle item ticks = task_request k (send handle item ticks)

-- xQueueReceive
unfoldable pub queue_receive : Kernel → Option ℕ → ℕ → ℕ → Kernel × Status
queue_receive k handle out_item ticks = task_request k (receive handle out_item ticks)

-- xMutexLock
unfoldable pub lock_mutex : Kernel → Option ℕ → ℕ → Kernel × Status
lock_mutex k handle ticks = task_request k (mutex_lock handle ticks)

-- xMutexUnlock
unfoldable pub unlock_mutex : Kernel → Option ℕ → Kernel × Status
unlock_mutex k handle = task_request k (mutex_unlock handle)

-- os_runtime_snapshot_t
pub record RuntimeSnapshot : Type 0 where
  pub tick : ℕ
  pub current : Option ℕ
  pub last_from : Option ℕ
  pub last_to : Option ℕ
  pub last_reason : SwitchReason
  pub switch_count : ℕ
  pub current_slice_remaining : ℕ

abbrev pub slice_of : Kernel → Option ℕ → ℕ
slice_of k none = 0
slice_of k (some t) = (k.tasks t).slice_remaining

-- os_GetRuntimeSnapshot
unfoldable pub get_runtime_snapshot : Kernel → RuntimeSnapshot
get_runtime_snapshot k = record {
  tick = k.tick;
  current = k.current;
  last_from = k.last_from;
  last_to = k.last_to;
  last_reason = k.last_reason;
  switch_count = k.switch_count;
  current_slice_remaining = slice_of k k.current;
}

abbrev pub is_live : TaskState → Bool
is_live unused = false
is_live terminated = false
is_live _ = true

-- The loop of os_KernelHasLiveTasks
unfoldable pub any_live : Kernel → List ℕ → Bool
any_live k [] = false
any_live k (t ∷ ts) = not (task_is_idle k t) && is_live (k.tasks t).state || any_live k ts

-- os_KernelHasLiveTasks
unfoldable pub kernel_has_live_tasks : Kernel → Bool
unfolding any_live task_is_idle
kernel_has_live_tasks k = any_live k (indices k.task_count)

-- The loop body of os_KernelStopAll over the TCBs
unfoldable pub stop_task : ℕ → Kernel → Kernel
stop_task t k = modify k t λ x. record x {
  state = terminated;
  wait_kind = no_wait;
  wait_object = none;
  wait_buffer = 0;
  wait_list = none;
  wait_deadline = 0;
  schedule_linked = false;
  delay_linked = false;
  delay_list = none;
}

-- os_KernelStopAll
unfoldable pub kernel_stop_all : Kernel → Kernel
unfolding stop_task
kernel_stop_all k = for_each (indices k.task_count) stop_task (record k {
  ready_lists = λ _. [];
  delayed_lists = λ _. [];
  px_delayed = 0;
  px_overflow_delayed = 1;
  ready_bitmap = 0;
  current = none;
  started = true;
})
