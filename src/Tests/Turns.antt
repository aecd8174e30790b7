-- ===== src/Tests/Turns.antt =====
-- The theorems on queues of tasks at concrete kernels.
use mini_rtos.Base.{◌≡◌, refl, true, false, some, [], ◌∷◌, ltb}
use mini_rtos.Base.Placement.{Placed}
use mini_rtos.Base.Bits.{has_bit, set_bit}
use mini_rtos.Kernel.{Kernel, time_slice}
use mini_rtos.Invariant.{Inv}
use mini_rtos.Ready.{
  ready_enqueue, ready_pop_highest, ready_highest_priority, ready_pop, commit_switch,
}
use mini_rtos.TaskPool.{
  init, task_create, task_create_internal, create_status, new_task, number_tasks,
}
use mini_rtos.Sched.{sched_start, start_first, sched_schedule, sched_yield_current}
use mini_rtos.Sched.Rotation.{Rotated, sched_yield_current-Rotated, sched_schedule-Rotated}
use mini_rtos.Delay.{delay_list_insert}
use mini_rtos.Delay.Order.{delay_list_insert-Placed, list_for}
use mini_rtos.Wait.{wait_insert_by_priority, wait_maybe_preempt}
use mini_rtos.Wait.Order.{wait_insert_by_priority-Placed}
use mini_rtos.Sem.{sem_waiters}
use mini_rtos.Port.{enter_critical, exit_critical}
use mini_rtos.Port.Preempt.{HighestBut, exit_critical-Highest}
use mini_rtos.Sched.Invariant.{sched_schedule-Inv}
use mini_rtos.Sched.Highest.{Highest, sched_schedule-Highest}
use mini_rtos.Run.{initialised, with_task, started}
use mini_rtos.Run.Invariant.{Reached-Inv}
use mini_rtos.Tests.{storage, task_spec}

-- Three tasks of priority 5; the first runs
abbrev pub peers : Kernel
peers =
    (sched_start
      (task_create (task_create (task_create (init storage) (task_spec 5)).0 (task_spec 5)).0
        (task_spec 5)).0).0

pub peers-Inv : Inv peers
peers-Inv = Reached-Inv (
    started (
      with_task (task_spec 5)
        (with_task (task_spec 5) (with_task (task_spec 5) (initialised storage)))))

pub peers-current : peers.current ≡ some 0
unfolding init number_tasks task_create task_create_internal create_status new_task ready_enqueue
    set_bit sched_start ready_pop_highest ready_highest_priority has_bit ready_pop start_first
    commit_switch
peers-current = refl

pub peers-started : peers.started ≡ true
unfolding init number_tasks task_create task_create_internal create_status new_task ready_enqueue
    set_bit sched_start ready_pop_highest ready_highest_priority has_bit ready_pop start_first
    commit_switch
peers-started = refl

pub peers-outside : peers.critical_nesting ≡ 0
unfolding init number_tasks task_create task_create_internal create_status new_task ready_enqueue
    set_bit sched_start ready_pop_highest ready_highest_priority has_bit ready_pop start_first
    commit_switch
peers-outside = refl

peers-highest : ready_highest_priority peers ≡ some (peers.tasks 0).effective_priority
unfolding init number_tasks task_create task_create_internal create_status new_task ready_enqueue
    set_bit sched_start ready_pop_highest ready_highest_priority has_bit ready_pop start_first
    commit_switch
peers-highest = refl

peers-queue : peers.ready_lists (peers.tasks 0).effective_priority ≡ 1 ∷ 2 ∷ []
unfolding init number_tasks task_create task_create_internal create_status new_task ready_enqueue
    set_bit sched_start ready_pop_highest ready_highest_priority has_bit ready_pop start_first
    commit_switch
peers-queue = refl

peers-awake : (peers.tasks 0).delay_linked ≡ false
unfolding init number_tasks task_create task_create_internal create_status new_task ready_enqueue
    set_bit sched_start ready_pop_highest ready_highest_priority has_bit ready_pop start_first
    commit_switch
peers-awake = refl

sched_yield_current-Rotated_example : Rotated peers (sched_yield_current peers).0 0 1 (2 ∷ [])
sched_yield_current-Rotated_example =
    sched_yield_current-Rotated peers 0 1 (2 ∷ []) peers-Inv peers-current peers-highest peers-queue

sched_schedule-Rotated_example : Rotated peers (sched_schedule peers time_slice true).0 0 1 (2 ∷ [])
sched_schedule-Rotated_example =
    sched_schedule-Rotated peers 0 1 (2 ∷ []) peers-Inv peers-current peers-highest peers-queue
      time_slice peers-started

wait_insert_by_priority-Placed_example :
    Placed
      (λ u. ltb (peers.tasks u).effective_priority (peers.tasks 0).effective_priority)
      0
      (peers.waiters (sem_waiters 0))
      ((wait_insert_by_priority peers (sem_waiters 0) 0).waiters (sem_waiters 0))
wait_insert_by_priority-Placed_example =
    wait_insert_by_priority-Placed peers (sem_waiters 0) 0 peers-Inv.linked

delay_list_insert-Placed_example :
    Placed
      (λ u. ltb 9 ((delay_list_insert peers 0 9).tasks u).wake_tick)
      0
      (peers.delayed_lists (list_for peers 9))
      ((delay_list_insert peers 0 9).delayed_lists (list_for peers 9))
delay_list_insert-Placed_example = delay_list_insert-Placed peers 0 9 peers-Inv.linked peers-awake

-- The peers rescheduled within a critical section
abbrev guarded : Kernel
guarded = enter_critical (sched_schedule peers time_slice false).0

guarded-started : guarded.started ≡ true
unfolding init number_tasks task_create task_create_internal create_status new_task ready_enqueue
    set_bit sched_start ready_pop_highest ready_highest_priority has_bit ready_pop start_first
    commit_switch enter_critical sched_schedule
guarded-started = refl

guarded-nesting : guarded.critical_nesting ≡ 1
unfolding init number_tasks task_create task_create_internal create_status new_task ready_enqueue
    set_bit sched_start ready_pop_highest ready_highest_priority has_bit ready_pop start_first
    commit_switch enter_critical sched_schedule
guarded-nesting = refl

guarded-Inv : Inv guarded
unfolding enter_critical
guarded-Inv =
    let v = sched_schedule-Inv peers time_slice false peers-Inv in
    record { linked = v.linked; settled = v.settled }

guarded-HighestBut : HighestBut guarded 1
unfolding enter_critical
guarded-HighestBut u o r = sched_schedule-Highest peers time_slice false peers-Inv peers-started u r

exit_critical-Highest_example : Highest (exit_critical (wait_maybe_preempt guarded 1))
exit_critical-Highest_example =
    exit_critical-Highest guarded 1 guarded-Inv guarded-started guarded-nesting guarded-HighestBut
