-- ===== src/Time/Invariant.antt =====
-- The tick and the end of a task keep the invariant of the kernel.
use mini_rtos.Base.{
  ℕ, zero, suc, ◌+◌, ◌≡◌, refl, Bool, true, false, not, ◌&&◌, ◌||◌, Option, none, some, List, [],
  ◌∷◌, ◌==◌, inl, inr, arith, same_handle, if_both, length, ltb, is_none, Option-cases, ◌-◌, ◌∙◌,
}
use mini_rtos.Kernel.{
  Task, TaskState, Kernel, WaitList, modify, timeout, ready, is_blocked_delay, is_blocked_object,
  is_mutex_wait, is_running, terminated, exit, blocked_delay, blocked_object,
  higher_priority_wakeup, time_slice, u32,
}
use mini_rtos.Base.Sorted.{Sorted, Sorted-tail}
use mini_rtos.Invariant.{
  Linked, rerank, rewake, ByWake, Inv, InvAfter, Parked, Waking, fits, runs, modify-Linked,
  no_object, wait_named,
}
use mini_rtos.Ready.{ready_highest_priority}
use mini_rtos.Sched.{requeue}
use mini_rtos.Sched.Invariant.{sched_schedule-Inv, switch_to_highest-Inv}
use mini_rtos.Sched.Arrival.{ready_enqueue-Inv}
use mini_rtos.Delay.{tick_reached}
use mini_rtos.Wait.{wait_unlink}
use mini_rtos.Wait.Links.{wait_unlink-Linked}
use mini_rtos.Wait.Invariant.{wait_make_ready-Inv}
use mini_rtos.Mutex.Invariant.{
  mutex_waiters_changed-Inv, mutex_release_task-Inv, mutex_release_task-current,
}
use mini_rtos.Time.{
  advance_tick, pop_delayed, leave_wait_list, time_out, wake, wake_head, wake_due, due_head, due_of,
  use_slice, slice_expired, renew_slice, tick_decision, time_tick, terminate_task,
  sched_terminate_current,
}

abbrev pub fits_due_state : TaskState → Task → Bool
fits_due_state blocked_delay x = not x.schedule_linked && no_object x
fits_due_state blocked_object x = x.schedule_linked && wait_named x.wait_kind x.wait_list
fits_due_state _ x = false

-- A task taken from its delay list and not yet woken.
abbrev pub fits_due : Task → Bool → Bool
fits_due x runs = fits_due_state x.state x && not x.delay_linked && is_none x.delay_list && not runs

pub record Due (k : Kernel) (t : ℕ) : Type 0 where
  pub linked : Linked k
  pub settled : (u : ℕ) → (u == t) ≡ false → fits (k.tasks u) (runs k u) ≡ true
  pub due : fits_due (k.tasks t) (runs k t) ≡ true

pub pop_delayed-Due :
    (k : Kernel) (t : ℕ) (ts : List ℕ)
    → Inv k
    → k.delayed_lists k.px_delayed ≡ t ∷ ts
    → Due (pop_delayed k t) t
unfolding pop_delayed
pop_delayed-Due k t ts v e = record {
  linked = record {
    ready_counted = λ u p. ground (arith, v.linked.ready_counted u p);
    wait_counted = λ u w. ground (arith, v.linked.wait_counted u w);
    delay_counted = λ u d. ground (
      arith,
      v.linked.delay_counted u d,
      v.linked.delay_counted t d,
      v.linked.delay_counted u k.px_delayed,
      v.linked.delay_counted t k.px_delayed,
    );
    wait_sorted =
        rerank v.linked (pop_delayed k t).tasks (pop_delayed k t).waiters (λ w. refl)
          (λ u w h. ground arith);
    delay_sorted = λ d.
        let tasks' = (pop_delayed k t).tasks in
        let old = rewake v.linked tasks' k.delayed_lists (λ d. refl) (λ u d h. ground arith) in
        if_both (Sorted (ByWake tasks')) (d == k.px_delayed)
          (λ _. Sorted-tail (ByWake tasks') (k.delayed_lists k.px_delayed) (old k.px_delayed))
          (λ _. old d);
    priority_bound = λ u. ground (arith, v.linked.priority_bound u);
    bitmap_bound = v.linked.bitmap_bound;
    bitmap_exact = v.linked.bitmap_exact;
  };
  settled = λ u o. ground (arith, v.settled u);
  due = ground (arith, v.settled t, v.linked.delay_counted t k.px_delayed);
}

requeue-Inv :
    (k : Kernel) (t : ℕ) → Due k t → is_blocked_delay (k.tasks t).state ≡ true → Inv (requeue k t)
unfolding requeue
requeue-Inv k t v d =
    let f : Task → Task = λ x. record x { state = ready } in
    ready_enqueue-Inv (modify k t f) t (record {
      linked = modify-Linked k t f v.linked (record {
        same_ready = λ p. ground (arith, v.due);
        same_wait = λ w. ground (arith, v.due);
        same_delay = λ d. refl;
        same_rank = λ w h. refl;
        same_wake = λ d h. refl;
        bound = v.linked.priority_bound t;
      });
      settled = λ u o. ground (arith, v.settled u);
      arrives = ground (arith, v.due);
    })

pub leave-Waking :
    (k : Kernel) (t : ℕ) (w : Option WaitList)
    → Due k t
    → is_blocked_object (k.tasks t).state ≡ true
    → (k.tasks t).wait_list ≡ w
    → Waking (leave_wait_list k t w) t
unfolding leave_wait_list
leave-Waking k t none v b e = absurd (ground (arith, v.due))
leave-Waking k t (some w) v b e =
    let on : (k.tasks t).schedule_linked ≡ true = ground (arith, v.due) in
    simp on (record {
      linked = wait_unlink-Linked k w t v.linked on b e;
      settled = λ u o. unfold wait_unlink in ground (arith, v.settled u);
      popped = unfold wait_unlink in ground (arith, v.due);
    })

time_out-Inv :
    (k : Kernel) (t : ℕ) → Due k t → is_blocked_object (k.tasks t).state ≡ true → Inv (time_out k t)
unfolding time_out
time_out-Inv k t v b =
    let v' = wait_make_ready-Inv _ t timeout (leave-Waking k t (k.tasks t).wait_list v b refl) in
    if_both Inv (is_mutex_wait (k.tasks t).wait_kind) (λ _. mutex_waiters_changed-Inv _ v')
      (λ _. v')

wake-Inv : (k : Kernel) (t : ℕ) → Due k t → Inv (wake k t)
unfolding wake
wake-Inv k t v = if_both Inv (is_blocked_delay (k.tasks t).state) (requeue-Inv k t v) (λ n.
    if_both Inv (is_blocked_object (k.tasks t).state) (time_out-Inv k t v)
      (λ m. absurd (ground (arith, v.due))))

pub wake_head-Inv :
    (k : Kernel) (t : ℕ) (ts : List ℕ) (woke : Bool)
    → Inv k
    → k.delayed_lists k.px_delayed ≡ t ∷ ts
    → InvAfter (wake_head k t woke)
unfolding wake_head
wake_head-Inv k t ts woke v e = wake-Inv (pop_delayed k t) t (pop_delayed-Due k t ts v e)

due_of-some :
    (now : ℕ) (tasks : ℕ → Task) (xs : List ℕ) {t : ℕ}
    → due_of now tasks xs ≡ some t
    → (ts : List ℕ) × (xs ≡ t ∷ ts) × (tick_reached now (tasks t).wake_tick ≡ true)
unfolding due_of
due_of-some now tasks [] e = cc
due_of-some now tasks (x ∷ xs) e = (xs, ground arith, ground arith)

-- A due head stands first in the current delay list.
pub due_head-some :
    (k : Kernel) {t : ℕ}
    → due_head k ≡ some t
    → (ts : List ℕ) × (k.delayed_lists k.px_delayed ≡ t ∷ ts)
      × (tick_reached k.tick (k.tasks t).wake_tick ≡ true)
unfolding due_head
due_head-some k e = due_of-some k.tick k.tasks (k.delayed_lists k.px_delayed) e

-- The wake-up loop keeps the invariant, whatever its fuel.
pub wake_due-Inv : (fuel : ℕ) (k : Kernel) (woke : Bool) → Inv k → InvAfter (wake_due fuel k woke)
unfolding wake_due
wake_due-Inv zero k woke v = v
wake_due-Inv (suc fuel) k woke v = elim (Option-cases (due_head k)) [
  | inl e ↦ rw (e, wake_due) v
  | inr (t, e) ↦
      let (ts, first, due) = due_head-some k e in
      rw (e, wake_due)
        (wake_due-Inv fuel (wake_head k t woke).0 (wake_head k t woke).1
          (wake_head-Inv k t ts woke v first))
]

pub advance_tick-Inv : (k : Kernel) → Inv k → Inv (advance_tick k)
unfolding advance_tick
advance_tick-Inv k v =
    if_both Inv (u32 (k.tick + 1) == 0) (λ _. record { linked = v.linked; settled = v.settled })
      (λ _. record { linked = v.linked; settled = v.settled })

-- The time slice is no part of the invariant.
slice-Inv :
    (k : Kernel) (c slice : ℕ) → Inv k → Inv (modify k c λ x. record x { slice_remaining = slice })
slice-Inv k c slice v = record {
  linked =
      modify-Linked k c (λ x. record x { slice_remaining = slice }) v.linked
        (record {
          same_ready = λ p. refl;
          same_wait = λ w. refl;
          same_delay = λ d. refl;
          same_rank = λ w h. refl;
          same_wake = λ d h. refl;
          bound = v.linked.priority_bound c;
        });
  settled = λ u. ground (arith, v.settled u);
}

use_slice-Inv : (k : Kernel) (c : Option ℕ) → Inv k → Inv (use_slice k c)
unfolding use_slice
use_slice-Inv k none v = v
use_slice-Inv k (some c) v =
    if_both Inv (ltb 0 (k.tasks c).slice_remaining)
      (λ _. slice-Inv k c ((k.tasks c).slice_remaining - 1) v) (λ _. v)

renew_slice-Inv :
    (before : Option ℕ) (k : Kernel) (o : Option ℕ) → Inv k → InvAfter (renew_slice before (k, o))
unfolding renew_slice
renew_slice-Inv before k none v = v
renew_slice-Inv before k (some t) v =
    if_both InvAfter (same_handle (some t) before) (λ _. slice-Inv k t 200 v) (λ _. v)

tick_decision-Inv : (k : Kernel) (woke : Bool) → Inv k → InvAfter (tick_decision k woke)
unfolding tick_decision
tick_decision-Inv k woke v =
    if_both InvAfter (is_none k.current && not (is_none (ready_highest_priority k)) || woke)
      (λ _. sched_schedule-Inv k higher_priority_wakeup false v)
      (λ _.
        if_both InvAfter (slice_expired k k.current)
          (λ _. renew_slice-Inv k.current _ _ (sched_schedule-Inv k time_slice true v)) (λ _. v))

-- os_TimeTick keeps the invariant.
pub time_tick-Inv : (k : Kernel) → Inv k → InvAfter (time_tick k)
unfolding time_tick
time_tick-Inv k v = tick_decision-Inv _ _ (
    use_slice-Inv _ _ (
      wake_due-Inv (length ((advance_tick k).delayed_lists (advance_tick k).px_delayed))
        (advance_tick k) false (advance_tick-Inv k v)))

terminated-Parked :
    (k : Kernel) (t : ℕ)
    → Inv k
    → k.current ≡ some t
    → Parked (modify k t λ x. record x { state = terminated })
terminated-Parked k t v c = record {
  linked =
      modify-Linked k t (λ x. record x { state = terminated }) v.linked
        (record {
          same_ready = λ p. ground (arith, v.settled t);
          same_wait = λ w. ground (arith, v.settled t);
          same_delay = λ d. refl;
          same_rank = λ w h. refl;
          same_wake = λ d h. refl;
          bound = v.linked.priority_bound t;
        });
  settled = λ u. ground (arith, v.settled u, v.settled t);
}

terminate_task-Inv :
    (k : Kernel) (current : Option ℕ)
    → Inv k
    → k.current ≡ current
    → InvAfter (terminate_task k current)
unfolding terminate_task
terminate_task-Inv k none v c = v
terminate_task-Inv k (some t) v c =
    if_both InvAfter (is_running (k.tasks t).state)
      (λ _. switch_to_highest-Inv _ (some t) exit (
        terminated-Parked _ t (mutex_release_task-Inv k t v)
          (mutex_release_task-current k t v ∙ c)))
      (λ _. v)

-- os_SchedTerminateCurrent keeps the invariant.
pub sched_terminate_current-Inv : (k : Kernel) → Inv k → InvAfter (sched_terminate_current k)
unfolding sched_terminate_current
sched_terminate_current-Inv k v = terminate_task-Inv k k.current v refl
