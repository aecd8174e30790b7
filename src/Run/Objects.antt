-- ===== src/Run/Objects.antt =====
-- The objects of every kernel that a run reaches are valid.
use mini_rtos.Kernel.{Kernel}
use mini_rtos.Run.{
  Prepared, initialised, with_task, with_semaphore, with_queue, with_mutex, with_idle, Reached,
  started, requested, ticked, interrupted, Later, now, after_request, after_tick, after_give,
}
use mini_rtos.Statics.Sound.{Sound, Advance, Advance-refl, Advance-trans, Same-Advance}
use mini_rtos.Statics.{Fixed}
use mini_rtos.Statics.Ticks.{time_tick-Same}
use mini_rtos.Statics.Requests.{task_request-Advance, semaphore_give_from_isr-Advance}
use mini_rtos.Statics.Creation.{
  init-Sound, task_create-Sound, semaphore_create_counting-Sound, queue_create-Sound,
  mutex_create-Sound, ensure_idle_task-Sound, sched_start-Sound,
}

Prepared-Sound : {k : Kernel} → Prepared k → Sound k
Prepared-Sound (initialised k) = init-Sound k
Prepared-Sound (with_task {k} spec p) = task_create-Sound k spec (Prepared-Sound p)
Prepared-Sound (with_semaphore {k} n i p) = semaphore_create_counting-Sound k n i (Prepared-Sound p)
Prepared-Sound (with_queue {k} m n i a p) = queue_create-Sound m k n i a (Prepared-Sound p)
Prepared-Sound (with_mutex {k} p) = mutex_create-Sound k (Prepared-Sound p)
Prepared-Sound (with_idle {k} addresses p) = ensure_idle_task-Sound addresses k (Prepared-Sound p)

-- In every kernel that a run reaches, each semaphore in use has a maximum above 0 and a count of
-- at most its maximum, and each queue in use is valid with its tail count slots behind its head.
pub Reached-Sound : {k : Kernel} → Reached k → Sound k
Reached-Sound (started {k} p) = sched_start-Sound k (Prepared-Sound p)
Reached-Sound (requested {k} request r) = (task_request-Advance k request).sound (Reached-Sound r)
Reached-Sound (ticked {k} r) = (Same-Advance (time_tick-Same k)).sound (Reached-Sound r)
Reached-Sound (interrupted {k} handle r) =
    (semaphore_give_from_isr-Advance k handle).sound (Reached-Sound r)

Later-Advance : {k k' : Kernel} → Later k k' → Advance k k'
Later-Advance {k} now = Advance-refl k
Later-Advance (after_request {k'} request l) =
    Advance-trans (Later-Advance l) (task_request-Advance k' request)
Later-Advance (after_tick {k'} l) =
    Advance-trans (Later-Advance l) (Same-Advance (time_tick-Same k'))
Later-Advance (after_give {k'} handle l) =
    Advance-trans (Later-Advance l) (semaphore_give_from_isr-Advance k' handle)

-- However a kernel runs on by task requests, ticks and gives from interrupts, its initialized and
-- started flags, its task count, and the id, entry, base priority, stack and saved stack pointer
-- of every TCB stay as they were.
pub Later-Fixed : {k k' : Kernel} → Later k k' → Fixed k k'
Later-Fixed l = (Later-Advance l).fixed
