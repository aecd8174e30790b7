-- ===== src/Port.antt =====
-- port/stub/os_port_stub.c, the port that the unit tests run on, and the critical sections of
-- kernel/src/os_sched.c over it.
pub mod Invariant
pub mod Preempt
use mini_rtos.Base.{
  ℕ, ◌+◌, ◌-◌, Bool, true, false, ◌&&◌, ◌||◌, not, Option, none, some, ltb, ◌==◌, if◌then◌else◌,
}
use mini_rtos.Kernel.{
  Status, Task, Kernel, ok, bad_state, higher_priority_wakeup, is_running, modify, u32,
}
use mini_rtos.Sched.{sched_schedule, sched_yield_current}
use mini_rtos.Delay.{time_delay_current}
use mini_rtos.Mutex.{mutex_lock_current, mutex_unlock_current, set_result}
use mini_rtos.Sem.{sem_take_current, sem_give_current}
use mini_rtos.Queue.{queue_send_current, queue_receive_current}
use mini_rtos.Time.{sched_terminate_current}

-- os_port_enter_critical
unfoldable pub port_enter_critical : Kernel → Kernel
port_enter_critical k = record k { port_nesting = u32 (k.port_nesting + 1) }

-- os_port_exit_critical
unfoldable pub port_exit_critical : Kernel → Kernel
port_exit_critical k =
    if ltb 0 k.port_nesting then record k { port_nesting = k.port_nesting - 1 } else k

-- os_port_pend_context_switch
unfoldable pub port_pend_context_switch : Kernel → Kernel
port_pend_context_switch k = record k { switch_pending = true }

-- os_EnterCritical
unfoldable pub enter_critical : Kernel → Kernel
unfolding port_enter_critical
enter_critical k =
    let k' = port_enter_critical k in record k' { critical_nesting = u32 (k'.critical_nesting + 1) }

-- The outermost exit with a pending request
unfoldable pub run_pending : Kernel → Kernel
unfolding port_pend_context_switch
run_pending k =
    port_pend_context_switch
      (sched_schedule (record k { sched_pending = false }) higher_priority_wakeup false).0

-- os_ExitCritical
unfoldable pub exit_critical : Kernel → Kernel
unfolding port_exit_critical run_pending
exit_critical k =
    let left = record k { critical_nesting = k.critical_nesting - 1 } in
    if k.critical_nesting == 0
    then port_exit_critical k
    else if left.critical_nesting == 0 && left.sched_pending
    then port_exit_critical (run_pending left)
    else port_exit_critical left

-- os_port_req_id_t with the arguments of the request
pub data Request : Type 0 where
  yield_cpu : Request
  delay : ℕ → Request
  sem_take : Option ℕ → ℕ → Request
  sem_give : Option ℕ → Request
  send : Option ℕ → ℕ → ℕ → Request
  receive : Option ℕ → ℕ → ℕ → Request
  mutex_lock : Option ℕ → ℕ → Request
  mutex_unlock : Option ℕ → Request
  exit_task : Request

-- The switch of os_port_task_request for the RUNNING task `t`
unfoldable pub serve : Kernel → ℕ → Request → Kernel
serve k t yield_cpu = set_result (sched_yield_current k).0 t ok
serve k t (delay ticks) = (time_delay_current k ticks).0
serve k t (sem_take handle ticks) = sem_take_current k handle ticks
serve k t (sem_give handle) = sem_give_current k handle
serve k t (send handle item ticks) = queue_send_current k handle item ticks
serve k t (receive handle out_item ticks) = queue_receive_current k handle out_item ticks
serve k t (mutex_lock handle ticks) = mutex_lock_current k handle ticks
serve k t (mutex_unlock handle) = mutex_unlock_current k handle
serve k t exit_task = (sched_terminate_current k).0

-- os_port_task_request for the task that it reads as `current`
unfoldable pub task_request_by : Kernel → Option ℕ → Request → Kernel × Status
unfolding port_enter_critical port_exit_critical
task_request_by k none request = (k, bad_state)
task_request_by k (some t) request =
    let served = port_exit_critical (serve (port_enter_critical k) t request) in
    if is_running (k.tasks t).state
    then (record served { switch_pending = false }, (served.tasks t).wait_result)
    else (k, bad_state)

-- os_port_task_request
unfoldable pub task_request : Kernel → Request → Kernel × Status
unfolding task_request_by
task_request k request = task_request_by k k.current request
