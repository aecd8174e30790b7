-- ===== src/Statics/Ticks.antt =====
-- os_TimeTick leaves flags, identities and control blocks alone.
use mini_rtos.Base.{
  ℕ, zero, suc, Bool, true, false, ◌&&◌, ◌||◌, not, Option, none, some, arith, ltb, if_both,
  is_none, same_handle, inl, inr, Option-cases, length,
}
use mini_rtos.Kernel.{
  Kernel, WaitList, is_blocked_delay, is_blocked_object, is_mutex_wait, timeout, time_slice,
  higher_priority_wakeup,
}
use mini_rtos.Ready.{ready_highest_priority}
use mini_rtos.Sched.{sched_schedule}
use mini_rtos.Wait.{wait_make_ready}
use mini_rtos.Time.{
  advance_tick, pop_delayed, leave_wait_list, time_out, wake, wake_head, due_head, wake_due,
  use_slice, slice_expired, renew_slice, tick_decision, time_tick,
}
use mini_rtos.Statics.{Same, Same-refl, Same-trans, SameAfter}
use mini_rtos.Statics.Scheduling.{sched_schedule-Same, requeue-Same}
use mini_rtos.Statics.Waiting.{wait_make_ready-Same, wait_unlink-Same, mutex_waiters_changed-Same}

advance_tick-Same : (k : Kernel) → Same k (advance_tick k)
unfolding advance_tick
advance_tick-Same k = record { same = λ u. ground arith }

leave_wait_list-Same : (k : Kernel) (t : ℕ) (w : Option WaitList) → Same k (leave_wait_list k t w)
unfolding leave_wait_list
leave_wait_list-Same k t none = Same-refl k
leave_wait_list-Same k t (some w) =
    if_both (Same k) (k.tasks t).schedule_linked (λ _. wait_unlink-Same k w t) (λ _. Same-refl k)

time_out-Same : (k : Kernel) (t : ℕ) → Same k (time_out k t)
unfolding time_out
time_out-Same k t =
    let out = leave_wait_list k t (k.tasks t).wait_list in
    let k' = wait_make_ready out t timeout in
    let woken =
      Same-trans (leave_wait_list-Same k t (k.tasks t).wait_list)
        (wait_make_ready-Same out t timeout) in
    if_both (Same k) (is_mutex_wait (k.tasks t).wait_kind)
      (λ _. Same-trans woken (mutex_waiters_changed-Same k')) (λ _. woken)

wake-Same : (k : Kernel) (t : ℕ) → Same k (wake k t)
unfolding wake
wake-Same k t =
    if_both (Same k) (is_blocked_delay (k.tasks t).state) (λ _. requeue-Same k t)
      (λ _.
        if_both (Same k) (is_blocked_object (k.tasks t).state) (λ _. time_out-Same k t)
          (λ _. Same-refl k))

wake_head-Same : (k : Kernel) (t : ℕ) (woke : Bool) → SameAfter k (wake_head k t woke)
unfolding wake_head pop_delayed
wake_head-Same k t woke =
    Same-trans (record { same = λ u. ground arith }) (wake-Same (pop_delayed k t) t)

wake_due-Same : (fuel : ℕ) (k : Kernel) (woke : Bool) → SameAfter k (wake_due fuel k woke)
unfolding wake_due
wake_due-Same zero k woke = Same-refl k
wake_due-Same (suc fuel) k woke = elim (Option-cases (due_head k)) [
  | inl e ↦ rw (e, wake_due) (Same-refl k)
  | inr (t, e) ↦
      rw (e, wake_due)
        (Same-trans (wake_head-Same k t woke)
          (wake_due-Same fuel (wake_head k t woke).0 (wake_head k t woke).1))
]

use_slice-Same : (k : Kernel) (c : Option ℕ) → Same k (use_slice k c)
unfolding use_slice
use_slice-Same k none = Same-refl k
use_slice-Same k (some c) =
    if_both (Same k) (ltb 0 (k.tasks c).slice_remaining) (λ _. record { same = λ u. ground arith })
      (λ _. Same-refl k)

renew_slice-Same :
    (before : Option ℕ) (k : Kernel) (next : Option ℕ) → SameAfter k (renew_slice before (k, next))
unfolding renew_slice
renew_slice-Same before k none = Same-refl k
renew_slice-Same before k (some t) =
    if_both (SameAfter k) (same_handle (some t) before) (λ _. record { same = λ u. ground arith })
      (λ _. Same-refl k)

tick_decision-Same : (k : Kernel) (woke : Bool) → SameAfter k (tick_decision k woke)
unfolding tick_decision
tick_decision-Same k woke =
    let rotated = sched_schedule k time_slice true in
    if_both (SameAfter k) (is_none k.current && not (is_none (ready_highest_priority k)) || woke)
      (λ _. sched_schedule-Same k higher_priority_wakeup false)
      (λ _.
        if_both (SameAfter k) (slice_expired k k.current)
          (λ _.
            Same-trans (sched_schedule-Same k time_slice true)
              (renew_slice-Same k.current rotated.0 rotated.1))
          (λ _. Same-refl k))

pub time_tick-Same : (k : Kernel) → SameAfter k (time_tick k)
unfolding time_tick
time_tick-Same k =
    let k₁ = advance_tick k in
    let fuel = length (k₁.delayed_lists k₁.px_delayed) in
    let woken = wake_due fuel k₁ false in
    Same-trans
      (Same-trans (Same-trans (advance_tick-Same k) (wake_due-Same fuel k₁ false))
        (use_slice-Same woken.0 woken.0.current))
      (tick_decision-Same (use_slice woken.0 woken.0.current) woken.1)
