-- ===== src/Tests/Checked.antt =====
-- os_KernelValidate at a concrete kernel.
use mini_rtos.Base.{◌≡◌, refl, true, false}
use mini_rtos.Base.Bits.{has_bit, set_bit}
use mini_rtos.Ready.{
  ready_enqueue, ready_pop_highest, ready_highest_priority, ready_pop, commit_switch,
}
use mini_rtos.TaskPool.{
  init, number_tasks, task_create, task_create_internal, create_status, new_task, task_is_idle,
}
use mini_rtos.Sched.{sched_start, start_first}
use mini_rtos.Validate.{
  kernel_validate, check_ready, check_ready_list, check_ready_node, check_delayed, check_delay_list,
  check_delay_node, check_tasks, check_task, check_used, check_unused, check_state, check_counts,
  check_rest, check_found,
}
use mini_rtos.Validate.Accepted.{Accepted, kernel_validate-Accepted}
use mini_rtos.Tests.Turns.{peers}

peers-valid : kernel_validate peers ≡ true
unfolding init number_tasks task_create task_create_internal create_status new_task ready_enqueue
    set_bit sched_start ready_pop_highest ready_highest_priority has_bit ready_pop start_first
    commit_switch kernel_validate check_ready check_ready_list check_ready_node check_delayed
    check_delay_list check_delay_node check_tasks check_task check_used check_unused check_state
    check_counts check_rest check_found task_is_idle
peers-valid = refl

-- A kernel with a READY bit too many is refused.
unmasked-invalid : kernel_validate (record peers { ready_bitmap = 255 }) ≡ false
unfolding init number_tasks task_create task_create_internal create_status new_task ready_enqueue
    set_bit sched_start ready_pop_highest ready_highest_priority has_bit ready_pop start_first
    commit_switch kernel_validate check_ready check_ready_list check_ready_node check_found
unmasked-invalid = refl

kernel_validate-Accepted_example : Accepted peers
kernel_validate-Accepted_example = kernel_validate-Accepted peers peers-valid
