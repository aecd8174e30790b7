-- ===== src/Tests/Objects.antt =====
-- The theorems on semaphores, queues and the wake-up loop at concrete kernels.
use mini_rtos.Base.{
  if◌then◌else◌, ◌==◌, ℕ, ◌≤◌, ◌≡◌, refl, true, false, none, some, [], ◌∷◌, arith, inl, length,
  push_back, insert_at,
}
use mini_rtos.Base.Bits.{has_bit, set_bit, clear_bit}
use mini_rtos.Kernel.{Kernel, Queue, time_slice, running, blocked_object}
use mini_rtos.Invariant.{Inv, in_wait}
use mini_rtos.Ready.{
  ready_enqueue, ready_pop_highest, ready_highest_priority, ready_pop, commit_switch,
}
use mini_rtos.TaskPool.{
  zero_task, init, task_create, task_create_internal, create_status, new_task, number_tasks,
}
use mini_rtos.Sched.{
  sched_schedule, sched_start, start_first, sched_current_blocked, switch_to_highest,
}
use mini_rtos.Delay.{delay_list_insert}
use mini_rtos.Wait.{wait_pop, wait_insert_by_priority, wait_block_current, lower_position}
use mini_rtos.Wait.Order.{wait_pop-highest}
use mini_rtos.Sem.{
  sem_waiters, sem_is_valid, semaphore_create_counting, sem_give_from_isr_context, sem_take_current,
}
use mini_rtos.Sem.Outcome.{Outcome, sem_give_from_isr_context-Outcome}
use mini_rtos.Queue.HandOver.{Handed, queue_send_current-Handed}
use mini_rtos.Queue.{
  queue_is_valid, queue_send_current, queue_create, queue_in_order, enqueue_at, dequeue_from,
}
use mini_rtos.Queue.Ring.{Ring, items, bytes_at, enqueue_at-items, dequeue_from-items}
use mini_rtos.Port.{
  delay, sem_take, task_request, task_request_by, serve, port_pend_context_switch, exit_critical,
  enter_critical,
}
use mini_rtos.Time.{wake_due, due_head}
use mini_rtos.Time.Wakeups.{asleep, wake_due-ends}
use mini_rtos.Mutex.{
  mutex_create, inherit_pass, inherit_to, inherit_passes, base_priorities, highest_waiter,
}
use mini_rtos.Mutex.Inherit.{NoInversion, AtLeast, inherit_pass-NoInversion, inherit_passes-AtLeast}
use mini_rtos.Sched.Invariant.{sched_schedule-Inv}
use mini_rtos.Sched.Highest.{Highest, sched_schedule-Highest}
use mini_rtos.Api.{semaphore_give_from_isr}
use mini_rtos.Api.IsrGive.{semaphore_give_from_isr-Highest}
use mini_rtos.Run.{requested}
use mini_rtos.Run.Invariant.{Reached-Inv}
use mini_rtos.TaskPool.Refusals.{Refusal, create-Refusal}
use mini_rtos.Tests.{
  storage, task_spec, running_kernel, running_kernel-Reached, running_kernel-started,
}

-- Task 1 sleeps for 5 ticks
abbrev sleeping : Kernel
sleeping = (task_request running_kernel (delay 5)).0

wake_due-ends_example : due_head (wake_due (length (asleep sleeping)) sleeping false).0 ≡ none
wake_due-ends_example =
    wake_due-ends (length (asleep sleeping)) sleeping false
      (Reached-Inv (requested (delay 5) running_kernel-Reached)) (omega arith)

-- Three slots of two bytes at address 100, filled across the end
abbrev wrapped : Queue
wrapped = record {
  used = true;
  buffer = 100;
  item_size = 2;
  capacity = 3;
  head = 2;
  tail = 1;
  count = 2;
}

abbrev bytes : ℕ → ℕ
bytes a = a

wrapped-Ring : Ring wrapped
unfolding queue_in_order
wrapped-Ring = record { in_order = refl; tail_place = refl }

enqueue_at-items_example :
    items (enqueue_at wrapped bytes 50).0 (enqueue_at wrapped bytes 50).1
    ≡ push_back (items wrapped bytes) (bytes_at bytes 50 2)
enqueue_at-items_example = enqueue_at-items wrapped wrapped-Ring bytes 50 (omega arith)

dequeue_from-items_example :
    items wrapped bytes
    ≡ bytes_at (dequeue_from wrapped bytes 50).1 50 2
      ∷ items (dequeue_from wrapped bytes 50).0 (dequeue_from wrapped bytes 50).1
dequeue_from-items_example =
    dequeue_from-items wrapped wrapped-Ring bytes 50 (omega arith) (inl (omega arith))

valid_semaphore : sem_is_valid running_kernel (some 0) ≡ true
unfolding init number_tasks task_create task_create_internal create_status new_task ready_enqueue
    set_bit semaphore_create_counting sched_start ready_pop_highest ready_highest_priority has_bit
    ready_pop start_first commit_switch sem_is_valid
valid_semaphore = refl

small_maximum : (running_kernel.semaphores 0).maximum_count ≡ 3
unfolding init number_tasks task_create task_create_internal create_status new_task ready_enqueue
    set_bit semaphore_create_counting sched_start ready_pop_highest ready_highest_priority has_bit
    ready_pop start_first commit_switch
small_maximum = refl

sem_give_from_isr_context-Outcome_example :
    Outcome running_kernel 0 (sem_give_from_isr_context running_kernel (some 0))
sem_give_from_isr_context-Outcome_example =
    sem_give_from_isr_context-Outcome running_kernel 0 (Reached-Inv running_kernel-Reached)
      valid_semaphore (omega (arith, small_maximum))

-- Task 1 has taken the semaphore and waits for another permit
abbrev waiting_kernel : Kernel
waiting_kernel =
    (task_request (task_request running_kernel (sem_take (some 0) 0)).0 (sem_take (some 0) 9)).0

waiting_kernel-Inv : Inv waiting_kernel
waiting_kernel-Inv =
    Reached-Inv
      (requested (sem_take (some 0) 9) (requested (sem_take (some 0) 0) running_kernel-Reached))

first_waiter : (wait_pop waiting_kernel (sem_waiters 0)).1 ≡ some 1
unfolding init number_tasks task_create task_create_internal create_status new_task ready_enqueue
    set_bit semaphore_create_counting sched_start ready_pop_highest ready_highest_priority has_bit
    ready_pop start_first commit_switch sem_is_valid task_request task_request_by serve
    sem_take_current wait_block_current sched_current_blocked delay_list_insert clear_bit insert_at
    wait_insert_by_priority lower_position switch_to_highest wait_pop port_pend_context_switch
    exit_critical enter_critical
first_waiter = refl

waits : in_wait (waiting_kernel.tasks 1) (sem_waiters 0) ≡ true
unfolding init number_tasks task_create task_create_internal create_status new_task ready_enqueue
    set_bit semaphore_create_counting sched_start ready_pop_highest ready_highest_priority has_bit
    ready_pop start_first commit_switch sem_is_valid task_request task_request_by serve
    sem_take_current wait_block_current sched_current_blocked delay_list_insert clear_bit insert_at
    wait_insert_by_priority lower_position switch_to_highest port_pend_context_switch
waits = refl

wait_pop-highest_example :
    (waiting_kernel.tasks 1).effective_priority ≤ (waiting_kernel.tasks 1).effective_priority
wait_pop-highest_example =
    wait_pop-highest waiting_kernel (sem_waiters 0) 1 1 waiting_kernel-Inv.linked first_waiter waits

-- Task 1 owns a mutex for which task 0, of a lower priority, waits
abbrev owned : Kernel
owned = record running_kernel {
  mutexes = λ _. record { used = true; owner = some 1 };
  waiters = λ _. 0 ∷ [];
}

settled_pass : (inherit_pass owned (base_priorities owned)).1 ≡ false
unfolding init number_tasks task_create task_create_internal create_status new_task ready_enqueue
    set_bit semaphore_create_counting sched_start ready_pop_highest ready_highest_priority has_bit
    ready_pop start_first commit_switch inherit_pass inherit_to highest_waiter base_priorities
settled_pass = refl

inherit_pass-NoInversion_example :
    ((inherit_pass owned (base_priorities owned)).0 ≡ base_priorities owned)
    × NoInversion owned (base_priorities owned) 2
inherit_pass-NoInversion_example =
    inherit_pass-NoInversion owned (base_priorities owned) 2 settled_pass (omega arith)

inherit_passes-AtLeast_example :
    AtLeast (base_priorities owned) (inherit_passes 8 owned (base_priorities owned))
inherit_passes-AtLeast_example =
    inherit_passes-AtLeast 8 owned (base_priorities owned) (base_priorities owned)
      (λ t. omega arith)

-- The started kernel after a time slice, outside critical sections
abbrev open_kernel : Kernel
open_kernel = (sched_schedule running_kernel time_slice true).0

open_kernel-started : open_kernel.started ≡ true
unfolding init number_tasks task_create task_create_internal create_status new_task ready_enqueue
    set_bit semaphore_create_counting sched_start ready_pop_highest ready_highest_priority has_bit
    ready_pop start_first commit_switch sched_schedule clear_bit
open_kernel-started = refl

open_kernel-nesting : open_kernel.critical_nesting ≡ 0
unfolding init number_tasks task_create task_create_internal create_status new_task ready_enqueue
    set_bit semaphore_create_counting sched_start ready_pop_highest ready_highest_priority has_bit
    ready_pop start_first commit_switch sched_schedule clear_bit
open_kernel-nesting = refl

semaphore_give_from_isr-Highest_example : Highest (semaphore_give_from_isr open_kernel (some 0)).0
semaphore_give_from_isr-Highest_example =
    semaphore_give_from_isr-Highest open_kernel (some 0)
      (sched_schedule-Inv running_kernel time_slice true (Reached-Inv running_kernel-Reached))
      open_kernel-started open_kernel-nesting
      (sched_schedule-Highest running_kernel time_slice true (Reached-Inv running_kernel-Reached)
        running_kernel-started)

create-Refusal_example :
    Refusal (init storage) (task_create (init storage) (task_spec 0))
    × Refusal (init storage) (semaphore_create_counting (init storage) 3 4)
    × Refusal (init storage) (queue_create 65535 (init storage) 40000 2 4096)
    × Refusal (init storage) (mutex_create (init storage))
create-Refusal_example = create-Refusal (init storage) (task_spec 0) 3 4 65535 40000 2 4096

-- Task 0 runs, and task 1 waits at queue 0 for an item of four bytes.
abbrev awaited : Kernel
awaited = record storage {
  current = some 0;
  tasks = λ u. record zero_task {
    state = if u == 0 then running else blocked_object;
    wait_buffer = 900;
  };
  waiters = λ w. 1 ∷ [];
  queues = λ q. record {
    used = true;
    buffer = 5000;
    item_size = 4;
    capacity = 2;
    head = 0;
    tail = 0;
    count = 0;
  };
}

awaited-valid : queue_is_valid awaited (some 0) ≡ true
unfolding queue_is_valid queue_in_order
awaited-valid = refl

queue_send_current-Handed_example :
    Handed awaited 1 0 700 (queue_send_current awaited (some 0) 700 5)
queue_send_current-Handed_example =
    queue_send_current-Handed awaited 0 1 0 700 5 [] refl refl awaited-valid refl refl
