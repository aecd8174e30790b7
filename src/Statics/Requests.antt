-- ===== src/Statics/Requests.antt =====
-- Requests and interrupts keep flags, identities and valid objects.
use mini_rtos.Base.{
  ℕ, ◌+◌, ◌-◌, refl, true, false, ◌&&◌, Option, none, some, arith, ltb, ◌==◌, if_both,
}
use mini_rtos.Kernel.{Kernel, is_running, ok, higher_priority_wakeup, exit, u32, modify, terminated}
use mini_rtos.Sched.{sched_schedule, sched_yield_current}
use mini_rtos.Mutex.{mutex_release_task}
use mini_rtos.Sem.{sem_give_from_isr_context, preempt_by}
use mini_rtos.Time.{terminate_task, sched_terminate_current}
use mini_rtos.Port.{
  port_enter_critical, port_exit_critical, port_pend_context_switch, enter_critical, run_pending,
  exit_critical, Request, yield_cpu, delay, sem_take, sem_give, send, receive, mutex_lock,
  mutex_unlock, exit_task, serve, task_request_by, task_request,
}
use mini_rtos.Api.{give_and_preempt, semaphore_give_from_isr}
use mini_rtos.Statics.{Same, Same-refl, Same-trans}
use mini_rtos.Statics.Scheduling.{
  sched_schedule-Same, switch_to_highest-Same, sched_yield_current-Same, time_delay_current-Same,
}
use mini_rtos.Statics.Mutexes.{
  mutex_lock_current-Advance, mutex_unlock_current-Advance, mutex_release_task-Advance,
}
use mini_rtos.Statics.Semaphores.{
  sem_take_current-Advance, sem_give_current-Advance, sem_give_from_isr_context-Advance,
  preempt_by-Advance,
}
use mini_rtos.Statics.Queues.{queue_send_current-Advance, queue_receive_current-Advance}
use mini_rtos.Statics.Sound.{
  Advance, Advance-trans, Advance-refl, AdvanceAfter, Same-Advance, set_result-Advance,
}

terminate_task-Advance :
    (k : Kernel) (current : Option ℕ) → AdvanceAfter k (terminate_task k current)
unfolding terminate_task
terminate_task-Advance k none = Advance-refl k
terminate_task-Advance k (some t) =
    let released = mutex_release_task k t in
    let ended = modify released t λ x. record x { state = terminated } in
    let ends : Same released ended = record { same = λ u. ground arith } in
    if_both (AdvanceAfter k) (is_running (k.tasks t).state)
      (λ _.
        Advance-trans (mutex_release_task-Advance k t)
          (Same-Advance (Same-trans ends (switch_to_highest-Same ended (some t) exit))))
      (λ _. Advance-refl k)

pub serve-Advance : (k : Kernel) (t : ℕ) (request : Request) → Advance k (serve k t request)
unfolding serve sched_terminate_current
serve-Advance k t yield_cpu =
    Advance-trans (Same-Advance (sched_yield_current-Same k))
      (set_result-Advance (sched_yield_current k).0 t ok)
serve-Advance k t (delay ticks) = Same-Advance (time_delay_current-Same k ticks)
serve-Advance k t (sem_take handle ticks) = sem_take_current-Advance k handle ticks
serve-Advance k t (sem_give handle) = sem_give_current-Advance k handle
serve-Advance k t (send handle item ticks) = queue_send_current-Advance k handle item ticks
serve-Advance k t (receive handle out_item ticks) =
    queue_receive_current-Advance k handle out_item ticks
serve-Advance k t (mutex_lock handle ticks) = mutex_lock_current-Advance k handle ticks
serve-Advance k t (mutex_unlock handle) = mutex_unlock_current-Advance k handle
serve-Advance k t exit_task = terminate_task-Advance k k.current

port_exit-Same : (k : Kernel) → Same k (port_exit_critical k)
unfolding port_exit_critical
port_exit-Same k =
    if_both (Same k) (ltb 0 k.port_nesting) (λ _. record { same = λ u. refl }) (λ _. Same-refl k)

request_by-Advance :
    (k : Kernel) (current : Option ℕ) (request : Request)
    → AdvanceAfter k (task_request_by k current request)
unfolding task_request_by port_enter_critical
request_by-Advance k none request = Advance-refl k
request_by-Advance k (some t) request =
    let entered = record k { port_nesting = u32 (k.port_nesting + 1) } in
    let served = serve entered t request in
    let left = port_exit_critical served in
    let enters : Same k entered = record { same = λ u. refl } in
    let clears : Same left (record left { switch_pending = false }) = record { same = λ u. refl } in
    if_both (AdvanceAfter k) (is_running (k.tasks t).state)
      (λ _.
        Advance-trans (Advance-trans (Same-Advance enters) (serve-Advance entered t request))
          (Same-Advance (Same-trans (port_exit-Same served) clears)))
      (λ _. Advance-refl k)

-- A request of a task
pub task_request-Advance :
    (k : Kernel) (request : Request) → AdvanceAfter k (task_request k request)
unfolding task_request
task_request-Advance k request = request_by-Advance k k.current request

run_pending-Same : (k : Kernel) → Same k (run_pending k)
unfolding run_pending port_pend_context_switch
run_pending-Same k =
    let cleared = record k { sched_pending = false } in
    let switched = (sched_schedule cleared higher_priority_wakeup false).0 in
    let clears : Same k cleared = record { same = λ u. refl } in
    let asks : Same switched (record switched { switch_pending = true }) = record {
      same = λ u. refl;
    } in
    Same-trans (Same-trans clears (sched_schedule-Same cleared higher_priority_wakeup false)) asks

exit_critical-Same : (k : Kernel) → Same k (exit_critical k)
unfolding exit_critical
exit_critical-Same k =
    let left = record k { critical_nesting = k.critical_nesting - 1 } in
    let leaves : Same k left = record { same = λ u. refl } in
    if_both (Same k) (k.critical_nesting == 0) (λ _. port_exit-Same k)
      (λ _.
        if_both (Same k) (k.critical_nesting - 1 == 0 && k.sched_pending)
          (λ _.
            Same-trans (Same-trans leaves (run_pending-Same left))
              (port_exit-Same (run_pending left)))
          (λ _. Same-trans leaves (port_exit-Same left)))

-- A give from an interrupt
pub semaphore_give_from_isr-Advance :
    (k : Kernel) (handle : Option ℕ) → AdvanceAfter k (semaphore_give_from_isr k handle)
unfolding semaphore_give_from_isr give_and_preempt enter_critical
semaphore_give_from_isr-Advance k handle =
    let entered = enter_critical k in
    let (k', status, woken) = sem_give_from_isr_context entered handle in
    let enters : Same k entered = record { same = λ u. refl } in
    Advance-trans
      (Advance-trans
        (Advance-trans (Same-Advance enters) (sem_give_from_isr_context-Advance entered handle))
        (preempt_by-Advance k' woken))
      (Same-Advance (exit_critical-Same (preempt_by k' woken)))
