-- ===== src/Statics/Scheduling.antt =====
-- Ready queues, scheduling and delays.
use mathlib.Core.Path.{subst}
use mini_rtos.Base.{
  ℕ, sym, Bool, ◌&&◌, ◌||◌, not, Option, none, some, inl, inr, arith, ltb, ◌==◌, if_both,
  Option-cases, if◌then◌else◌,
}
use mini_rtos.Kernel.{Kernel, SwitchReason, is_running, yield, blocked}
use mini_rtos.Ready.{
  ready_enqueue, ready_remove, ready_pop, ready_pop_highest, ready_highest_priority, commit_switch,
  unlink_head,
}
use mini_rtos.Ready.Links.{ready_pop_highest-none, ready_pop_highest-some}
use mini_rtos.Sched.{
  requeue, switch_to_highest, preempt_or_rotate, schedule_started, sched_schedule, yield_task,
  sched_yield_current, leave_blocked, sched_current_blocked,
}
use mini_rtos.Delay.{
  delay_list_remove, link_delay, delay_list_insert, delay_task, time_delay_current,
}
use mini_rtos.Statics.{Same, Same-refl, Same-trans, SameAfter}

pub ready_enqueue-Same : (k : Kernel) (t : ℕ) → Same k (ready_enqueue k t)
unfolding ready_enqueue
ready_enqueue-Same k t = record { same = λ u. ground arith }

pub ready_remove-Same : (k : Kernel) (t : ℕ) → SameAfter k (ready_remove k t)
unfolding ready_remove
ready_remove-Same k t = record { same = λ u. ground arith }

ready_pop-Same : (k : Kernel) (p : ℕ) → SameAfter k (ready_pop k p)
unfolding ready_pop unlink_head
ready_pop-Same k p = record { same = λ u. ground arith }

pub ready_pop_highest-Same : (k : Kernel) → SameAfter k (ready_pop_highest k)
ready_pop_highest-Same k = elim (Option-cases (ready_highest_priority k)) [
  | inl e ↦ subst (SameAfter k) (sym (ready_pop_highest-none k e)) (Same-refl k)
  | inr (p, e) ↦ subst (SameAfter k) (sym (ready_pop_highest-some k p e)) (ready_pop-Same k p)
]

commit_switch-Same :
    (k : Kernel) (previous next : Option ℕ) (reason : SwitchReason)
    → SameAfter k (commit_switch k previous next reason)
unfolding commit_switch
commit_switch-Same k previous none reason = record { same = λ u. ground arith }
commit_switch-Same k previous (some t) reason = record { same = λ u. ground arith }

pub switch_to_highest-Same :
    (k : Kernel) (previous : Option ℕ) (reason : SwitchReason)
    → SameAfter k (switch_to_highest k previous reason)
unfolding switch_to_highest
switch_to_highest-Same k previous reason =
    Same-trans (ready_pop_highest-Same k)
      (commit_switch-Same (ready_pop_highest k).0 previous (ready_pop_highest k).1 reason)

pub requeue-Same : (k : Kernel) (t : ℕ) → Same k (requeue k t)
unfolding requeue ready_enqueue
requeue-Same k t = record { same = λ u. ground arith }

requeue_switch-Same :
    (k : Kernel) (t : ℕ) (reason : SwitchReason)
    → SameAfter k (switch_to_highest (requeue k t) (some t) reason)
requeue_switch-Same k t reason =
    Same-trans (requeue-Same k t) (switch_to_highest-Same (requeue k t) (some t) reason)

preempt-Same :
    (k : Kernel) (t : ℕ) (highest : Option ℕ) (reason : SwitchReason) (rotate_equal : Bool)
    → SameAfter k (preempt_or_rotate k t highest reason rotate_equal)
unfolding preempt_or_rotate
preempt-Same k t none reason rotate_equal = Same-refl k
preempt-Same k t (some p) reason rotate_equal =
    if_both (SameAfter k)
      (ltb (k.tasks t).effective_priority p || rotate_equal && p == (k.tasks t).effective_priority)
      (λ _. requeue_switch-Same k t reason) (λ _. Same-refl k)

schedule_started-Same :
    (k : Kernel) (current : Option ℕ) (reason : SwitchReason) (rotate_equal : Bool)
    → SameAfter k (schedule_started k current reason rotate_equal)
unfolding schedule_started
schedule_started-Same k none reason rotate_equal = switch_to_highest-Same k none reason
schedule_started-Same k (some t) reason rotate_equal =
    if_both (SameAfter k) (is_running (k.tasks t).state)
      (λ _. preempt-Same k t (ready_highest_priority k) reason rotate_equal)
      (λ _. switch_to_highest-Same k (some t) reason)

pub sched_schedule-Same :
    (k : Kernel) (reason : SwitchReason) (rotate_equal : Bool)
    → SameAfter k (sched_schedule k reason rotate_equal)
unfolding sched_schedule
sched_schedule-Same k reason rotate_equal =
    if_both (SameAfter k) k.started (λ _. schedule_started-Same k k.current reason rotate_equal)
      (λ _. Same-refl k)

yield_task-Same : (k : Kernel) (current : Option ℕ) → SameAfter k (yield_task k current)
unfolding yield_task
yield_task-Same k none = Same-refl k
yield_task-Same k (some t) =
    if_both (SameAfter k) (is_running (k.tasks t).state) (λ _. requeue_switch-Same k t yield)
      (λ _. Same-refl k)

pub sched_yield_current-Same : (k : Kernel) → SameAfter k (sched_yield_current k)
unfolding sched_yield_current
sched_yield_current-Same k = yield_task-Same k k.current

leave_blocked-Same :
    (k : Kernel) (current : Option ℕ) (reason : SwitchReason)
    → SameAfter k (leave_blocked k current reason)
unfolding leave_blocked
leave_blocked-Same k none reason = Same-refl k
leave_blocked-Same k (some t) reason =
    if_both (SameAfter k) (is_running (k.tasks t).state) (λ _. Same-refl k)
      (λ _. switch_to_highest-Same k (some t) reason)

pub sched_current_blocked-Same :
    (k : Kernel) (reason : SwitchReason) → SameAfter k (sched_current_blocked k reason)
unfolding sched_current_blocked
sched_current_blocked-Same k reason = leave_blocked-Same k k.current reason

pub delay_list_remove-Same : (k : Kernel) (t : ℕ) → Same k (delay_list_remove k t)
unfolding delay_list_remove
delay_list_remove-Same k t = record { same = λ u. ground arith }

link_delay-Same : (k : Kernel) (t target : ℕ) → Same k (link_delay k t target)
unfolding link_delay
link_delay-Same k t target = record { same = λ u. ground arith }

pub delay_list_insert-Same : (k : Kernel) (t target : ℕ) → Same k (delay_list_insert k t target)
unfolding delay_list_insert
delay_list_insert-Same k t target =
    let linked = (k.tasks t).delay_linked in
    Same-trans (if_both (Same k) linked (λ _. delay_list_remove-Same k t) (λ _. Same-refl k))
      (link_delay-Same (if linked then delay_list_remove k t else k) t target)

delay_task-Same :
    (k : Kernel) (current : Option ℕ) (ticks : ℕ) → SameAfter k (delay_task k current ticks)
unfolding delay_task
delay_task-Same k none ticks = Same-refl k
delay_task-Same k (some t) ticks =
    if_both (SameAfter k) (not (is_running (k.tasks t).state)) (λ _. Same-refl k)
      (λ _.
        if_both (SameAfter k) (ticks == 0) (λ _. sched_yield_current-Same k)
          (λ _.
            Same-trans
              (Same-trans (record { same = λ u. ground arith }) (delay_list_insert-Same _ t _))
              (sched_current_blocked-Same _ blocked)))

pub time_delay_current-Same : (k : Kernel) (ticks : ℕ) → SameAfter k (time_delay_current k ticks)
unfolding time_delay_current
time_delay_current-Same k ticks = delay_task-Same k k.current ticks
