-- ===== src/Time/Returns.antt =====
-- What the scheduler and the tick return is the task that they leave current.
use mini_rtos.Base.{
  ℕ, ◌≡◌, refl, Bool, true, false, ◌&&◌, ◌||◌, not, Option, none, some, arith, ltb, ◌==◌, is_none,
  if_both, same_handle, length, ◌∙◌, sym,
}
use mini_rtos.Kernel.{Kernel, SwitchReason, is_running, time_slice, higher_priority_wakeup}
use mini_rtos.Invariant.{Inv}
use mini_rtos.Ready.{commit_switch, ready_pop_highest, ready_highest_priority}
use mini_rtos.Sched.{
  sched_schedule, schedule_started, preempt_or_rotate, switch_to_highest, requeue, sched_start,
  start_first,
}
use mini_rtos.Time.{
  time_tick, tick_decision, renew_slice, slice_expired, use_slice, advance_tick, wake_due,
}
use mini_rtos.Time.Invariant.{advance_tick-Inv}
use mini_rtos.Time.Wakeups.{wake_due-started}

-- The task returned is the current one.
abbrev pub Reports : Kernel × Option ℕ → Type 0
Reports (k, next) = next ≡ k.current

commit_switch-Reports :
    (k : Kernel) (previous next : Option ℕ) (reason : SwitchReason)
    → Reports (commit_switch k previous next reason)
unfolding commit_switch
commit_switch-Reports k previous next reason = ground arith

switch_to_highest-Reports :
    (k : Kernel) (previous : Option ℕ) (reason : SwitchReason)
    → Reports (switch_to_highest k previous reason)
unfolding switch_to_highest
switch_to_highest-Reports k previous reason =
    commit_switch-Reports (ready_pop_highest k).0 previous (ready_pop_highest k).1 reason

preempt-Reports :
    (k : Kernel) (t : ℕ) (highest : Option ℕ) (reason : SwitchReason) (rotate_equal : Bool)
    → k.current ≡ some t
    → Reports (preempt_or_rotate k t highest reason rotate_equal)
unfolding preempt_or_rotate
preempt-Reports k t none reason rotate_equal c = sym c
preempt-Reports k t (some p) reason rotate_equal c =
    if_both Reports
      (ltb (k.tasks t).effective_priority p || rotate_equal && p == (k.tasks t).effective_priority)
      (λ _. switch_to_highest-Reports (requeue k t) (some t) reason) (λ _. sym c)

schedule_started-Reports :
    (k : Kernel) (current : Option ℕ) (reason : SwitchReason) (rotate_equal : Bool)
    → k.current ≡ current
    → Reports (schedule_started k current reason rotate_equal)
unfolding schedule_started
schedule_started-Reports k none reason rotate_equal c = switch_to_highest-Reports k none reason
schedule_started-Reports k (some t) reason rotate_equal c =
    if_both Reports (is_running (k.tasks t).state)
      (λ _. preempt-Reports k t (ready_highest_priority k) reason rotate_equal c)
      (λ _. switch_to_highest-Reports k (some t) reason)

pub sched_schedule-Reports :
    (k : Kernel) (reason : SwitchReason) (rotate_equal : Bool)
    → k.started ≡ true
    → Reports (sched_schedule k reason rotate_equal)
unfolding sched_schedule
sched_schedule-Reports k reason rotate_equal s =
    if_both Reports k.started (λ _. schedule_started-Reports k k.current reason rotate_equal refl)
      (λ n. absurd (ground arith))

renew_slice-Reports :
    (before : Option ℕ) (k : Kernel) (next : Option ℕ)
    → next ≡ k.current
    → Reports (renew_slice before (k, next))
unfolding renew_slice
renew_slice-Reports before k none e = e
renew_slice-Reports before k (some t) e =
    if_both Reports (same_handle (some t) before) (λ _. e) (λ _. e)

tick_decision-Reports :
    (k : Kernel) (woke : Bool) → k.started ≡ true → Reports (tick_decision k woke)
unfolding tick_decision
tick_decision-Reports k woke s =
    if_both Reports (is_none k.current && not (is_none (ready_highest_priority k)) || woke)
      (λ _. sched_schedule-Reports k higher_priority_wakeup false s)
      (λ _.
        if_both Reports (slice_expired k k.current)
          (λ _. renew_slice-Reports k.current _ _ (sched_schedule-Reports k time_slice true s))
          (λ _. refl))

use_slice-started : (k : Kernel) (c : Option ℕ) → (use_slice k c).started ≡ k.started
unfolding use_slice
use_slice-started k none = refl
use_slice-started k (some c) = ground arith

advance_tick-started : (k : Kernel) → (advance_tick k).started ≡ k.started
unfolding advance_tick
advance_tick-started k = ground arith

-- On a started kernel that satisfies the invariant, the task that os_TimeTick returns is the one
-- that it leaves current.
pub time_tick-Reports : (k : Kernel) → Inv k → k.started ≡ true → Reports (time_tick k)
unfolding time_tick
time_tick-Reports k v s =
    let k₁ = advance_tick k in
    let fuel = length (k₁.delayed_lists k₁.px_delayed) in
    let woken = wake_due fuel k₁ false in
    tick_decision-Reports (use_slice woken.0 woken.0.current) woken.1 (
      use_slice-started (wake_due fuel k₁ false).0 (wake_due fuel k₁ false).0.current
      ∙ wake_due-started fuel k₁ false (advance_tick-Inv k v)
      ∙ advance_tick-started k
      ∙ s)

start_first-Reports :
    (k : Kernel) (next : Option ℕ) (t : ℕ)
    → (start_first k next).1 ≡ some t
    → Reports (start_first k next)
unfolding start_first
start_first-Reports k none t e = absurd (ground arith)
start_first-Reports k (some u) t e = commit_switch-Reports _ none (some u) _

-- So is the task that os_SchedStart returns.
pub sched_start-Reports :
    (k : Kernel) (t : ℕ) → (sched_start k).1 ≡ some t → Reports (sched_start k)
unfolding sched_start
sched_start-Reports k t =
    if_both (λ (r : Kernel × Option ℕ). r.1 ≡ some t → Reports r) (not k.initialized || k.started)
      (λ _ e. refl) (λ _. start_first-Reports (ready_pop_highest k).0 (ready_pop_highest k).1 t)
