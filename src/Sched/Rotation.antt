-- ===== src/Sched/Rotation.antt =====
-- Tasks of equal priority take turns.
use mini_rtos.Base.{
  ℕ, ◌≤◌, ◌≡◌, true, Option, some, List, ◌∷◌, arith, inl, inr, push_back, Option-cases, ◌==◌,
  if_both, sym, ◌||◌, ◌&&◌, ltb,
}
use mathlib.Core.Path.{subst}
use mini_rtos.Base.Bits.{set_bit, has_bit-set_bit}
use mini_rtos.Kernel.{Kernel, SwitchReason, is_running, is_ready, yield}
use mini_rtos.Invariant.{Inv}
use mini_rtos.Ready.{ready_enqueue, ready_highest_priority, ready_pop, commit_switch}
use mini_rtos.Ready.Links.{ready_pop_highest-some, highest_below-has_bit, highest_below-lt}
use mini_rtos.Sched.{
  requeue, switch_to_highest, sched_yield_current, yield_task, sched_schedule, schedule_started,
  preempt_or_rotate,
}
use mini_rtos.Sched.Invariant.{requeue-Parked, current-runs}
use mini_rtos.Sched.Highest.{ready_highest-max, ready_highest-none, highest_below-max}

-- The turn of `u`: it runs, and `t` stands last in the queue of their priority.
pub record Rotated (k k' : Kernel) (t u : ℕ) (us : List ℕ) : Type 0 where
  pub runs : k'.current ≡ some u
  pub queue : k'.ready_lists (k.tasks t).effective_priority ≡ push_back us t

module _ (k : Kernel) (t : ℕ) (v : Inv k) (c : k.current ≡ some t) where
  requeue-list :
      (requeue k t).ready_lists (k.tasks t).effective_priority
      ≡ push_back (k.ready_lists (k.tasks t).effective_priority) t
  unfolding requeue ready_enqueue
  requeue-list = ground (arith, v.settled t, v.linked.priority_bound t)

  requeue-bitmap :
      (requeue k t).ready_bitmap ≡ set_bit k.ready_bitmap (k.tasks t).effective_priority
  unfolding requeue ready_enqueue
  requeue-bitmap = ground (arith, v.settled t, v.linked.priority_bound t)

  requeue-queued :
      (((requeue k t).tasks t).schedule_linked ≡ true)
      × (is_ready ((requeue k t).tasks t).state ≡ true)
      × (((requeue k t).tasks t).effective_priority ≡ (k.tasks t).effective_priority)
  unfolding requeue ready_enqueue
  requeue-queued = ground (arith, v.settled t, v.linked.priority_bound t)

  requeue-at_most :
      (q : ℕ)
      → ready_highest_priority k ≡ some (k.tasks t).effective_priority
      → ready_highest_priority (requeue k t) ≡ some q
      → q ≤ (k.tasks t).effective_priority
  unfolding ready_highest_priority
  requeue-at_most q h e =
      let p = (k.tasks t).effective_priority in
      let b = (requeue k t).ready_bitmap in
      let lt = highest_below-lt b 8 {p = q} e in
      ground (
        arith,
        requeue-bitmap,
        highest_below-has_bit b 8 {p = q} e,
        has_bit-set_bit k.ready_bitmap p q v.linked.bitmap_bound (v.linked.priority_bound t) lt,
        highest_below-max k.ready_bitmap 8 q p h lt,
      )

  requeue-highest :
      ready_highest_priority k ≡ some (k.tasks t).effective_priority
      → ready_highest_priority (requeue k t) ≡ some (k.tasks t).effective_priority
  requeue-highest h =
      let l = (requeue-Parked k t v c (current-runs k t v c)).linked in
      elim (Option-cases (ready_highest_priority (requeue k t))) [
        | inl e ↦ absurd (ground (arith, requeue-queued, ready_highest-none (requeue k t) t l e))
        | inr (q, e) ↦
            ground (
              arith,
              requeue-queued,
              requeue-at_most q h e,
              ready_highest-max (requeue k t) q t l e,
            )
      ]

pop-Rotated :
    (k : Kernel) (p t u : ℕ) (us : List ℕ) (reason : SwitchReason)
    → k.ready_lists p ≡ push_back (u ∷ us) t
    → let k' = (commit_switch (ready_pop k p).0 (some t) (ready_pop k p).1 reason).0 in
      (k'.current ≡ some u) × (k'.ready_lists p ≡ push_back us t)
unfolding ready_pop commit_switch
pop-Rotated k p t u us reason e = ground (arith, e)

module _ (k : Kernel) (t u : ℕ) (us : List ℕ) (v : Inv k) (c : k.current ≡ some t)
    (h : ready_highest_priority k ≡ some (k.tasks t).effective_priority)
    (e : k.ready_lists (k.tasks t).effective_priority ≡ u ∷ us) where
  switch-Rotated :
      (reason : SwitchReason) → Rotated k (switch_to_highest (requeue k t) (some t) reason).0 t u us
  unfolding switch_to_highest
  switch-Rotated reason =
      let p = (k.tasks t).effective_priority in
      let k' = requeue k t in
      rw (ready_pop_highest-some k' p (requeue-highest k t v c h)) (
        let (first, second) =
          pop-Rotated k' p t u us reason (ground (arith, requeue-list k t v c, e)) in
        record { runs = first; queue = second })

  abbrev RotatedAfter : Kernel × Option ℕ → Type 0
  RotatedAfter r = Rotated k r.0 t u us

  yield_task-Rotated : RotatedAfter (yield_task k (some t))
  unfolding yield_task
  yield_task-Rotated =
      if_both RotatedAfter (is_running (k.tasks t).state) (λ _. switch-Rotated yield)
        (λ n. absurd (ground (arith, current-runs k t v c)))

  preempt-Rotated :
      (reason : SwitchReason)
      → RotatedAfter (preempt_or_rotate k t (some (k.tasks t).effective_priority) reason true)
  unfolding preempt_or_rotate
  preempt-Rotated reason =
      let p = (k.tasks t).effective_priority in
      if_both RotatedAfter (ltb p p || true && p == p) (λ _. switch-Rotated reason)
        (λ n. absurd (ground arith))

  started-Rotated : (reason : SwitchReason) → RotatedAfter (schedule_started k (some t) reason true)
  unfolding schedule_started
  started-Rotated reason =
      if_both RotatedAfter (is_running (k.tasks t).state)
        (λ _.
          subst (λ o. RotatedAfter (preempt_or_rotate k t o reason true)) (sym h)
            (preempt-Rotated reason))
        (λ n. absurd (ground (arith, current-runs k t v c)))

  -- On a kernel that satisfies the invariant, where the highest ready priority is that of the
  -- current task and its queue is u followed by us, os_SchedYieldCurrent makes u current and
  -- leaves the queue us followed by the task that yielded.
  pub sched_yield_current-Rotated : Rotated k (sched_yield_current k).0 t u us
  unfolding sched_yield_current
  sched_yield_current-Rotated =
      subst (λ o. RotatedAfter (yield_task k o)) (sym c) yield_task-Rotated

  -- On a started kernel that satisfies the invariant, where the highest ready priority is that of
  -- the current task and its queue is u followed by us, os_SchedSchedule with the rotation flag
  -- makes u current and leaves the queue us followed by the task that ran.
  pub sched_schedule-Rotated :
      (reason : SwitchReason) → k.started ≡ true → Rotated k (sched_schedule k reason true).0 t u us
  unfolding sched_schedule
  sched_schedule-Rotated reason s =
      if_both RotatedAfter k.started
        (λ _.
          subst (λ o. RotatedAfter (schedule_started k o reason true)) (sym c)
            (started-Rotated reason))
        (λ n. absurd (ground arith))
