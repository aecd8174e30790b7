-- ===== src/Tests/Launch.antt =====
-- A run of the Cortex-M machine with two tasks, from os_Init to the first context switch.
use mini_rtos.Base.{ℕ, ◌+◌, ◌≤◌, ◌<◌, ◌≡◌, inl, refl, false, none, some, arith}
use mini_rtos.Base.Bits.{has_bit, set_bit}
use mini_rtos.Kernel.{ok}
use mini_rtos.TaskPool.{TaskSpec, init, number_tasks, task_create_internal, create_status, new_task}
use mini_rtos.Ready.{
  ready_enqueue, ready_pop_highest, ready_highest_priority, ready_pop, commit_switch,
}
use mini_rtos.Sched.{sched_start, start_first}
use mini_rtos.Port.{delay}
use mini_rtos.CortexM.{
  Machine, machine_create, frame_task, machine_stack_init, push_words, set_sp, load_registers,
  machine_start_scheduler, machine_start_first, resume, resume_at, svc_handler, pendsv_restore_psp,
  enable_systick, machine_task_request,
}
use mini_rtos.CortexM.Creation.{number_tasks-sp}
use mini_rtos.CortexM.Exchange.{Resumed}
use mini_rtos.CortexM.Runs.{Room, Laid, reset, with_task, launched, asked, initial_contexts}
use mini_rtos.CortexM.Steady.{Steady, Live-Steady, svc_handler-Resumed}
use mini_rtos.Tests.{storage, task_spec}
use mini_rtos.Tests.Cortex.{machine}

abbrev blank : Machine
blank = record (machine storage none 0) { kernel = init storage }

abbrev second_spec : TaskSpec
second_spec = record (task_spec 2) { stack_memory = 8192 }

abbrev with_first : Machine
with_first = (machine_create 99 blank (task_spec 5) false).0

abbrev with_both : Machine
with_both = (machine_create 99 with_first second_spec false).0

first-Room : Room blank.kernel (task_spec 5)
unfolding init
first-Room = record {
  holds = omega arith;
  ends = omega arith;
  apart = λ t p. absurd (omega (arith, number_tasks-sp t));
}

first-sp :
    (t : ℕ)
    → 0 < (with_first.kernel.tasks t).sp
    → (with_first.kernel.tasks t).stack_memory + (with_first.kernel.tasks t).stack_size ≤ 8192
unfolding init number_tasks machine_create frame_task task_create_internal create_status new_task
    ready_enqueue set_sp machine_stack_init push_words
first-sp t p = ground arith

second-Room : Room with_first.kernel second_spec
second-Room = record { holds = omega arith; ends = omega arith; apart = λ t p. inl (first-sp t p) }

both-Laid : Laid 99 with_both
both-Laid =
    with_task second_spec false
      (with_task (task_spec 5) false (reset (machine storage none 0)) first-Room) second-Room

abbrev at_start : Machine
at_start = (machine_start_scheduler 0 255 with_both).0

at_start-ok : machine_start_scheduler 0 255 with_both ≡ (at_start, ok)
unfolding init number_tasks machine_create frame_task task_create_internal create_status new_task
    ready_enqueue set_sp machine_stack_init push_words set_bit sched_start ready_pop_highest
    ready_highest_priority has_bit ready_pop start_first commit_switch machine_start_scheduler
    machine_start_first resume_at
at_start-ok = refl

-- Task 0 with its initial registers, at the end of its stack of 256 bytes at 4096
abbrev first_running : Machine
first_running = record at_start {
  psp_owner = some 0;
  registers = load_registers at_start.words 4288;
  psp = 4320;
  irq_disabled = false;
  syst_csr = 7;
}

at_start-svc : svc_handler at_start ≡ some first_running
unfolding init number_tasks machine_create frame_task task_create_internal create_status new_task
    ready_enqueue set_sp machine_stack_init push_words set_bit sched_start ready_pop_highest
    ready_highest_priority has_bit ready_pop start_first commit_switch machine_start_scheduler
    machine_start_first resume_at svc_handler resume pendsv_restore_psp enable_systick
at_start-svc = refl

first_running-free : first_running.pendsv ≡ false
unfolding init number_tasks machine_create frame_task task_create_internal create_status new_task
    ready_enqueue set_sp machine_stack_init push_words set_bit sched_start ready_pop_highest
    ready_highest_priority has_bit ready_pop start_first commit_switch machine_start_scheduler
    machine_start_first resume_at
first_running-free = refl

svc_handler-Resumed_example : Resumed (initial_contexts with_both.kernel) at_start first_running
svc_handler-Resumed_example =
    svc_handler-Resumed 99 0 255 with_both at_start first_running both-Laid at_start-ok at_start-svc

-- Task 0 asks for a delay, which leaves task 1 to PendSV.
Live-Steady_example :
    Steady (initial_contexts with_both.kernel) (machine_task_request first_running (delay 5)).0
Live-Steady_example =
    Live-Steady 99 0 255 (initial_contexts with_both.kernel)
      (machine_task_request first_running (delay 5)).0
      (asked (delay 5) (launched with_both at_start both-Laid at_start-ok at_start-svc)
        first_running-free)
