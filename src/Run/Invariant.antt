-- ===== src/Run/Invariant.antt =====
-- The invariant holds of every kernel that a run reaches.
use mini_rtos.Base.{ℕ, Option}
use mini_rtos.Kernel.{Kernel}
use mini_rtos.Invariant.{Inv, InvAfter}
use mini_rtos.TaskPool.Boot.{
  Boot, init-Boot, task_create-Boot, ensure_idle_task-Boot, sched_start-Inv,
}
use mini_rtos.TaskPool.Objects.{
  semaphore_create_counting-Boot, queue_create-Boot, mutex_create-Boot,
}
use mini_rtos.Sem.Invariant.{sem_give_from_isr_context-Inv, preempt_by-Inv}
use mini_rtos.Port.Invariant.{task_request-Inv, enter_critical-Inv, exit_critical-Inv}
use mini_rtos.Time.Invariant.{time_tick-Inv}
use mini_rtos.Api.{semaphore_give_from_isr}
use mini_rtos.Run.{
  Prepared, initialised, with_task, with_semaphore, with_queue, with_mutex, with_idle, Reached,
  started, requested, ticked, interrupted,
}

pub Prepared-Boot : {k : Kernel} → Prepared k → Boot k
Prepared-Boot (initialised k) = init-Boot k
Prepared-Boot (with_task {k} spec p) = task_create-Boot k spec (Prepared-Boot p)
Prepared-Boot (with_semaphore {k} n i p) = semaphore_create_counting-Boot k n i (Prepared-Boot p)
Prepared-Boot (with_queue {k} m n i a p) = queue_create-Boot m k n i a (Prepared-Boot p)
Prepared-Boot (with_mutex {k} p) = mutex_create-Boot k (Prepared-Boot p)
Prepared-Boot (with_idle {k} addresses p) = ensure_idle_task-Boot addresses k (Prepared-Boot p)

-- xSemaphoreGiveFromISR keeps the invariant.
pub semaphore_give_from_isr-Inv :
    (k : Kernel) (handle : Option ℕ) → Inv k → InvAfter (semaphore_give_from_isr k handle)
unfolding semaphore_give_from_isr
semaphore_give_from_isr-Inv k handle v =
    exit_critical-Inv _
      (preempt_by-Inv _ _ (sem_give_from_isr_context-Inv _ handle (enter_critical-Inv k v)))

-- Every kernel that a run reaches satisfies the invariant: each ready, wait and delay list holds
-- exactly the tasks whose TCBs say so, once each; wait queues are in descending order of
-- effective priority and delay lists in ascending order of wake tick; the bitmap names the
-- nonempty ready queues; effective priorities are below 8; and the state of each task agrees with
-- its nodes, its wait fields and the current task. A run is os_Init over any static storage,
-- creations, os_SchedStart, and then task requests, ticks and gives from interrupts in any order.
pub Reached-Inv : {k : Kernel} → Reached k → Inv k
Reached-Inv (started {k} p) = sched_start-Inv k (Prepared-Boot p)
Reached-Inv (requested {k} request r) = task_request-Inv k request (Reached-Inv r)
Reached-Inv (ticked {k} r) = time_tick-Inv k (Reached-Inv r)
Reached-Inv (interrupted {k} handle r) = semaphore_give_from_isr-Inv k handle (Reached-Inv r)
