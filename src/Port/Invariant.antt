-- ===== src/Port/Invariant.antt =====
-- Every task request, and a give from an interrupt, keeps the invariant of the kernel.
use mini_rtos.Base.{ℕ, false, ◌&&◌, Option, none, some, ◌==◌, ◌-◌, if_both, ltb}
use mini_rtos.Kernel.{Kernel, ok, is_running, higher_priority_wakeup}
use mini_rtos.Invariant.{Inv, InvAfter}
use mini_rtos.Sched.Invariant.{sched_schedule-Inv, sched_yield_current-Inv}
use mini_rtos.Delay.Invariant.{time_delay_current-Inv}
use mini_rtos.Wait.Invariant.{set_result-Inv}
use mini_rtos.Mutex.Invariant.{mutex_lock_current-Inv, mutex_unlock_current-Inv}
use mini_rtos.Sem.Invariant.{sem_take_current-Inv, sem_give_current-Inv}
use mini_rtos.Queue.Invariant.{queue_send_current-Inv, queue_receive_current-Inv}
use mini_rtos.Time.Invariant.{sched_terminate_current-Inv}
use mini_rtos.Port.{
  port_enter_critical, port_exit_critical, enter_critical, run_pending, exit_critical, Request,
  yield_cpu, delay, sem_take, sem_give, send, receive, mutex_lock, mutex_unlock, exit_task, serve,
  task_request_by, task_request,
}

port_exit_critical-Inv : (k : Kernel) → Inv k → Inv (port_exit_critical k)
unfolding port_exit_critical
port_exit_critical-Inv k v =
    if_both Inv (ltb 0 k.port_nesting) (λ _. record { linked = v.linked; settled = v.settled })
      (λ _. v)

pub enter_critical-Inv : (k : Kernel) → Inv k → Inv (enter_critical k)
unfolding enter_critical
enter_critical-Inv k v = record { linked = v.linked; settled = v.settled }

run_pending-Inv : (k : Kernel) → Inv k → Inv (run_pending k)
unfolding run_pending
run_pending-Inv k v =
    let s =
      sched_schedule-Inv (record k { sched_pending = false }) higher_priority_wakeup false
        (record { linked = v.linked; settled = v.settled }) in
    record { linked = s.linked; settled = s.settled }

-- os_ExitCritical keeps the invariant, its deferred switch included.
pub exit_critical-Inv : (k : Kernel) → Inv k → Inv (exit_critical k)
unfolding exit_critical
exit_critical-Inv k v =
    let left : Inv (record k { critical_nesting = k.critical_nesting - 1 }) = record {
      linked = v.linked;
      settled = v.settled;
    } in
    if_both Inv (k.critical_nesting == 0) (λ _. port_exit_critical-Inv k v)
      (λ _.
        if_both Inv (k.critical_nesting - 1 == 0 && k.sched_pending)
          (λ _. port_exit_critical-Inv _ (run_pending-Inv _ left))
          (λ _. port_exit_critical-Inv _ left))

pub serve-Inv : (k : Kernel) (t : ℕ) (request : Request) → Inv k → Inv (serve k t request)
unfolding serve
serve-Inv k t yield_cpu v = set_result-Inv _ t ok (sched_yield_current-Inv k v)
serve-Inv k t (delay ticks) v = time_delay_current-Inv k ticks v
serve-Inv k t (sem_take handle ticks) v = sem_take_current-Inv k handle ticks v
serve-Inv k t (sem_give handle) v = sem_give_current-Inv k handle v
serve-Inv k t (send handle item ticks) v = queue_send_current-Inv k handle item ticks v
serve-Inv k t (receive handle out_item ticks) v =
    queue_receive_current-Inv k handle out_item ticks v
serve-Inv k t (mutex_lock handle ticks) v = mutex_lock_current-Inv k handle ticks v
serve-Inv k t (mutex_unlock handle) v = mutex_unlock_current-Inv k handle v
serve-Inv k t exit_task v = sched_terminate_current-Inv k v

task_request_by-Inv :
    (k : Kernel) (current : Option ℕ) (request : Request)
    → Inv k
    → InvAfter (task_request_by k current request)
unfolding task_request_by
task_request_by-Inv k none request v = v
task_request_by-Inv k (some t) request v =
    let entered : Inv (port_enter_critical k) =
      unfold port_enter_critical in record { linked = v.linked; settled = v.settled } in
    let s = port_exit_critical-Inv _ (serve-Inv (port_enter_critical k) t request entered) in
    if_both InvAfter (is_running (k.tasks t).state)
      (λ _. record { linked = s.linked; settled = s.settled }) (λ _. v)

-- os_port_task_request keeps the invariant, whatever the request.
pub task_request-Inv : (k : Kernel) (request : Request) → Inv k → InvAfter (task_request k request)
unfolding task_request
task_request-Inv k request v = task_request_by-Inv k k.current request v
