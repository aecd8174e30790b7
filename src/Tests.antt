-- ===== src/Tests.antt =====
-- Concrete kernels, and the theorems at them.
pub mod Turns
pub mod Objects
pub mod Nodes
pub mod Cortex
pub mod Launch
pub mod Checked
use mini_rtos.Base.{ℕ, ◌+◌, ◌≡◌, refl, true, false, none, some, [], if◌then◌else◌, ◌==◌, leb, arith}
use mini_rtos.Kernel.{Kernel, ok, no_switch, time_slice, u32}
use mini_rtos.Invariant.{Inv}
use mini_rtos.Base.Bits.{has_bit, set_bit}
use mini_rtos.Ready.{
  ready_enqueue, ready_pop_highest, ready_highest_priority, ready_pop, commit_switch,
}
use mini_rtos.TaskPool.{
  TaskSpec, init, zero_task, task_create, task_create_internal, create_status, new_task,
  number_tasks,
}
use mini_rtos.Sem.{semaphore_create_counting}
use mini_rtos.Mutex.{mutex_waiters_changed}
use mini_rtos.Mutex.Invariant.{mutex_waiters_changed-Repriced}
use mini_rtos.Wait.Priority.{Repriced}
use mini_rtos.Sched.{sched_start, start_first, sched_schedule}
use mini_rtos.Sched.Highest.{Highest, sched_schedule-Highest}
use mini_rtos.Delay.{tick_reached}
use mini_rtos.Delay.Ticks.{tick_reached-elapsed}
use mini_rtos.Port.{delay, sem_take, task_request}
use mini_rtos.Time.{time_tick}
use mini_rtos.Run.{
  Reached, initialised, with_task, with_semaphore, started, requested, ticked, now, after_request,
  after_tick,
}
use mini_rtos.Run.Invariant.{Reached-Inv}
use mini_rtos.Run.Objects.{Reached-Sound, Later-Fixed}
use mini_rtos.Statics.{Fixed}
use mini_rtos.Statics.Sound.{Sound}

-- Static storage before os_Init, with a one-letter name at address 1.
abbrev pub storage : Kernel
storage = record {
  initialized = false;
  started = false;
  tasks = λ _. zero_task;
  task_count = 0;
  ready_lists = λ _. [];
  delayed_lists = λ _. [];
  px_delayed = 0;
  px_overflow_delayed = 0;
  ready_bitmap = 0;
  tick = 0;
  current = none;
  last_from = none;
  last_to = none;
  last_reason = no_switch;
  switch_count = 0;
  critical_nesting = 0;
  sched_pending = false;
  waiters = λ _. [];
  semaphores = λ _. record { used = false; count = 0; maximum_count = 0 };
  queues = λ _. record {
    used = false;
    buffer = 0;
    item_size = 0;
    capacity = 0;
    head = 0;
    tail = 0;
    count = 0;
  };
  mutexes = λ _. record { used = false; owner = none };
  idle_task = none;
  last_error = ok;
  memory = λ a. if a == 1 then 65 else 0;
  port_nesting = 0;
  switch_pending = false;
}

abbrev pub task_spec : ℕ → TaskSpec
task_spec priority = record {
  name = 1;
  entry = 7;
  argument = 0;
  priority = priority;
  stack_memory = 4096;
  stack_size = 256;
}

-- Two tasks of priorities 2 and 5 and a semaphore with a count of 1
abbrev prepared : Kernel
prepared =
    (semaphore_create_counting
      (task_create (task_create (init storage) (task_spec 2)).0 (task_spec 5)).0 3 1).0

-- The scheduler started: task 1 runs
abbrev running_kernel : Kernel
running_kernel = (sched_start prepared).0

running_kernel-Reached : Reached running_kernel
running_kernel-Reached =
    started
      (with_semaphore 3 1 (with_task (task_spec 5) (with_task (task_spec 2) (initialised storage))))

running_kernel-started : running_kernel.started ≡ true
unfolding init number_tasks task_create task_create_internal create_status new_task ready_enqueue
    set_bit semaphore_create_counting sched_start ready_pop_highest ready_highest_priority has_bit
    ready_pop start_first commit_switch
running_kernel-started = refl

Reached-Inv_example : Inv (time_tick (task_request running_kernel (delay 5)).0).0
Reached-Inv_example = Reached-Inv (ticked (requested (delay 5) running_kernel-Reached))

Reached-Sound_example : Sound (task_request running_kernel (sem_take (some 0) 5)).0
Reached-Sound_example = Reached-Sound (requested (sem_take (some 0) 5) running_kernel-Reached)

Later-Fixed_example :
    Fixed running_kernel (time_tick (task_request running_kernel (sem_take (some 0) 5)).0).0
Later-Fixed_example = Later-Fixed (after_tick (after_request (sem_take (some 0) 5) now))

sched_schedule-Highest_example : Highest (sched_schedule running_kernel time_slice true).0
sched_schedule-Highest_example =
    sched_schedule-Highest running_kernel time_slice true (Reached-Inv running_kernel-Reached)
      running_kernel-started

tick_reached-elapsed_example :
    tick_reached (u32 (0xffff_fffe + 4)) (u32 (0xffff_fffe + 5)) ≡ leb 5 4
tick_reached-elapsed_example = tick_reached-elapsed 0xffff_fffe 5 4 (omega arith) (omega arith)

mutex_waiters_changed-Repriced_example :
    Repriced running_kernel (mutex_waiters_changed running_kernel)
mutex_waiters_changed-Repriced_example =
    mutex_waiters_changed-Repriced running_kernel (Reached-Inv running_kernel-Reached).linked
