-- ===== src/Statics/Waiting.antt =====
-- Wait queues, blocking and waking, effective priorities.
use mini_rtos.Base.{
  ℕ, refl, Bool, true, false, ◌||◌, not, Option, none, some, arith, ltb, leb, ◌==◌, if_both,
  for_each_keeps, indices, if◌then◌else◌,
}
use mini_rtos.Kernel.{
  Kernel, WaitList, Status, is_running, is_ready, is_blocked_object, is_no_wait, modify, blocked,
  idle_priority, priority_count, higher_priority_wakeup, max_tasks, wait_forever,
}
use mini_rtos.Ready.{ready_enqueue, ready_remove}
use mini_rtos.Delay.{delay_list_insert, delay_list_remove}
use mini_rtos.Wait.{
  wait_insert_by_priority, wait_unlink, wait_pop, block_until, block_task, wait_block,
  wait_block_current, wait_make_ready, wait_maybe_preempt, outranks_current, move_ready,
  move_waiting, task_set_effective_priority, waiting, woken, deadline_at, clamp_timeout,
}
use mini_rtos.Mutex.{mutex_waiters_changed, inherit_passes, base_priorities}
use mini_rtos.Statics.{Same, Same-refl, Same-trans, SameAfter}
use mini_rtos.Statics.Scheduling.{
  ready_enqueue-Same, ready_remove-Same, sched_schedule-Same, sched_current_blocked-Same,
  delay_list_insert-Same, delay_list_remove-Same,
}

pub wait_insert_by_priority-Same :
    (k : Kernel) (w : WaitList) (t : ℕ) → Same k (wait_insert_by_priority k w t)
unfolding wait_insert_by_priority
wait_insert_by_priority-Same k w t = record { same = λ u. ground arith }

pub wait_unlink-Same : (k : Kernel) (w : WaitList) (t : ℕ) → Same k (wait_unlink k w t)
unfolding wait_unlink
wait_unlink-Same k w t = record { same = λ u. ground arith }

pub wait_pop-Same : (k : Kernel) (w : WaitList) → SameAfter k (wait_pop k w)
unfolding wait_pop
wait_pop-Same k w = record { same = λ u. ground arith }

block_until-Same :
    (k : Kernel) (t : ℕ) (w : WaitList) (buffer deadline : ℕ) (finite : Bool)
    → SameAfter k (block_until k t w buffer deadline finite)
unfolding block_until
block_until-Same k t w buffer deadline finite =
    let written = modify k t (waiting w buffer deadline) in
    let queued = wait_insert_by_priority written w t in
    let untimed = modify queued t λ x. record x { delay_list = none; delay_linked = false } in
    let to_queue : Same k queued =
      Same-trans (record { same = λ u. ground arith }) (wait_insert_by_priority-Same written w t) in
    let timed : Same queued (if finite then delay_list_insert queued t deadline else untimed) =
      if_both (Same queued) finite (λ _. delay_list_insert-Same queued t deadline)
        (λ _. record { same = λ u. ground arith }) in
    Same-trans (Same-trans to_queue timed) (
      sched_current_blocked-Same (if finite then delay_list_insert queued t deadline else untimed)
        blocked)

wait_block-Same :
    (k : Kernel) (current : Option ℕ) (w : WaitList) (buffer ticks : ℕ)
    → SameAfter k (wait_block k current w buffer ticks)
unfolding wait_block block_task
wait_block-Same k none w buffer ticks = Same-refl k
wait_block-Same k (some t) w buffer ticks =
    if_both (SameAfter k) (not (is_running (k.tasks t).state) || is_no_wait w.kind)
      (λ _. Same-refl k)
      (λ _.
        block_until-Same k t w buffer (deadline_at k.tick (clamp_timeout ticks))
          (not (clamp_timeout ticks == wait_forever)))

pub wait_block_current-Same :
    (k : Kernel) (w : WaitList) (buffer ticks : ℕ)
    → SameAfter k (wait_block_current k w buffer ticks)
unfolding wait_block_current
wait_block_current-Same k w buffer ticks = wait_block-Same k k.current w buffer ticks

pub wait_make_ready-Same :
    (k : Kernel) (t : ℕ) (result : Status) → Same k (wait_make_ready k t result)
unfolding wait_make_ready
wait_make_ready-Same k t result =
    let off = delay_list_remove k t in
    let again = modify off t (woken result) in
    if_both (Same k) (not (is_blocked_object (k.tasks t).state) || (k.tasks t).schedule_linked)
      (λ _. Same-refl k)
      (λ _.
        Same-trans (Same-trans (delay_list_remove-Same k t) (record { same = λ u. ground arith }))
          (ready_enqueue-Same again t))

pub wait_maybe_preempt-Same : (k : Kernel) (t : ℕ) → Same k (wait_maybe_preempt k t)
unfolding wait_maybe_preempt
wait_maybe_preempt-Same k t =
    if_both (Same k) (not (outranks_current k t k.current)) (λ _. Same-refl k)
      (λ _.
        if_both (Same k) (ltb 0 k.critical_nesting) (λ _. record { same = λ u. refl })
          (λ _. sched_schedule-Same k higher_priority_wakeup false))

move_ready-Same :
    (k : Kernel) (done : Bool) (t priority : ℕ) → Same k (move_ready (k, done) t priority)
unfolding move_ready ready_enqueue
move_ready-Same k false t priority = Same-refl k
move_ready-Same k true t priority = record { same = λ u. ground arith }

move_waiting-Same :
    (k : Kernel) (t priority : ℕ) (w : Option WaitList) → Same k (move_waiting k t priority w)
unfolding move_waiting wait_insert_by_priority wait_unlink
move_waiting-Same k t priority none = record { same = λ u. ground arith }
move_waiting-Same k t priority (some w) = record { same = λ u. ground arith }

pub task_set_effective_priority-Same :
    (k : Kernel) (t priority : ℕ) → Same k (task_set_effective_priority k t priority)
unfolding task_set_effective_priority
task_set_effective_priority-Same k t priority =
    if_both (Same k)
      (leb priority idle_priority
        || leb priority_count priority
        || (k.tasks t).effective_priority == priority)
      (λ _. Same-refl k)
      (λ _.
        if_both (Same k) (is_ready (k.tasks t).state)
          (λ _.
            Same-trans (ready_remove-Same k t)
              (move_ready-Same (ready_remove k t).0 (ready_remove k t).1 t priority))
          (λ _. move_waiting-Same k t priority (k.tasks t).wait_list))

pub mutex_waiters_changed-Same : (k : Kernel) → Same k (mutex_waiters_changed k)
unfolding mutex_waiters_changed
mutex_waiters_changed-Same k =
    let desired = inherit_passes max_tasks k (base_priorities k) in
    for_each_keeps (Same k) (indices k.task_count)
      (λ t k'. task_set_effective_priority k' t (desired t))
      (λ t k' r. Same-trans r (task_set_effective_priority-Same k' t (desired t))) (Same-refl k)
