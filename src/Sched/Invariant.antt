-- ===== src/Sched/Invariant.antt =====
-- Scheduling keeps the invariant of the kernel.
use mini_rtos.Base.{
  ℕ, ◌<◌, ◌≡◌, refl, Bool, true, false, Option, none, some, List, ◌∷◌, ◌==◌, inl, inr, arith,
  List-cases, Bool-cases, Option-cases, same_handle, is_empty, ltb, ◌||◌, ◌&&◌, if_both,
}
use mini_rtos.Kernel.{
  Task, Kernel, SwitchReason, modify, is_ready, is_running, priority_count, ready, running, yield,
}
use mini_rtos.Invariant.{Linked, modify-Linked, SameLinks, Inv, InvAfter, Parked, fits}
use mini_rtos.Ready.Links.{
  ready_enqueue-Linked, ready_pop-Linked, highest_below-lt, highest_below-has_bit,
  ready_pop_highest-none, ready_pop_highest-some,
}
use mini_rtos.Ready.{ready_enqueue, ready_pop, commit_switch, ready_highest_priority}
use mini_rtos.Sched.{
  switch_to_highest, requeue, sched_schedule, schedule_started, preempt_or_rotate, yield_task,
  sched_yield_current, sched_current_blocked, leave_blocked,
}

commit_none-Inv :
    (k : Kernel) (previous : Option ℕ) (reason : SwitchReason)
    → Parked k
    → Inv (commit_switch k previous none reason).0
unfolding commit_switch
commit_none-Inv k previous reason v = elim (Bool-cases (same_handle previous none)) [
  | inl e ↦ rw e (record { linked = v.linked; settled = v.settled })
  | inr e ↦ rw e (record { linked = v.linked; settled = v.settled })
]

-- The next task, taken from its queue: READY, unlinked, and all others settled.
pub record Chosen (k : Kernel) (t : ℕ) : Type 0 where
  pub linked : Linked k
  pub settled : (u : ℕ) → (u == t) ≡ false → fits (k.tasks u) false ≡ true
  pub unlinked : (k.tasks t).schedule_linked ≡ false
  pub free : fits (record (k.tasks t) { schedule_linked = true }) false ≡ true
  pub is_ready : is_ready (k.tasks t).state ≡ true

pub commit_some-Inv :
    (k : Kernel) (previous : Option ℕ) (t : ℕ) (reason : SwitchReason)
    → Chosen k t
    → Inv (commit_switch k previous (some t) reason).0
unfolding commit_switch
commit_some-Inv k previous t reason v =
    let f : Task → Task = λ x. record x { state = running; slice_remaining = 200 } in
    let same : SameLinks (k.tasks t) (f (k.tasks t)) = record {
      same_ready = λ p. ground (arith, v.unlinked);
      same_wait = λ w. ground (arith, v.unlinked);
      same_delay = λ d. refl;
      same_rank = λ w h. refl;
      same_wake = λ d h. refl;
      bound = v.linked.priority_bound t;
    } in
    let l = modify-Linked k t f v.linked same in
    let fit : (u : ℕ) → fits ((modify k t f).tasks u) (same_handle (some t) (some u)) ≡ true =
      λ u. ground (arith, v.settled u, v.unlinked, v.free, v.is_ready) in
    elim (Bool-cases (same_handle previous (some t))) [
      | inl e ↦ rw e (record { linked = l; settled = fit })
      | inr e ↦ rw e (record { linked = l; settled = fit })
    ]

pub ready_pop-Chosen :
    (k : Kernel) (p t : ℕ) (ts : List ℕ)
    → k.ready_lists p ≡ t ∷ ts
    → p < priority_count
    → Parked k
    → Chosen (ready_pop k p).0 t
unfolding ready_pop
ready_pop-Chosen k p t ts e h v = record {
  linked = ready_pop-Linked k p v.linked h;
  settled = λ u o. ground (arith, v.settled u);
  unlinked = ground arith;
  free = ground (arith, v.settled t, v.linked.ready_counted t p);
  is_ready = ground (arith, v.settled t, v.linked.ready_counted t p);
}

-- The queue of the highest ready priority is not empty.
pub highest-nonempty :
    (k : Kernel) (p : ℕ)
    → Linked k
    → ready_highest_priority k ≡ some p
    → (p < priority_count) × (is_empty (k.ready_lists p) ≡ false)
unfolding ready_highest_priority
highest-nonempty k p v e =
    let h = highest_below-lt k.ready_bitmap 8 e in
    (h, ground (arith, v.bitmap_exact p h, highest_below-has_bit k.ready_bitmap 8 {p = p}))

switch_empty-Inv :
    (k : Kernel) (previous : Option ℕ) (reason : SwitchReason)
    → ready_highest_priority k ≡ none
    → Parked k
    → Inv (switch_to_highest k previous reason).0
unfolding switch_to_highest
switch_empty-Inv k previous reason e v =
    rw (ready_pop_highest-none k e) (commit_none-Inv k previous reason v)

switch_pop-Inv :
    (k : Kernel) (previous : Option ℕ) (reason : SwitchReason) (p t : ℕ) (ts : List ℕ)
    → ready_highest_priority k ≡ some p
    → k.ready_lists p ≡ t ∷ ts
    → Parked k
    → Inv (switch_to_highest k previous reason).0
unfolding switch_to_highest
switch_pop-Inv k previous reason p t ts e f v = rw (ready_pop_highest-some k p e) (
    rw popped (
      commit_some-Inv (ready_pop k p).0 previous t reason
        (ready_pop-Chosen k p t ts f (highest-nonempty k p v.linked e).0 v)))
  where
    popped : (ready_pop k p).1 ≡ some t
    popped = unfold ready_pop in (rw f)

-- Choosing the next task among settled ones restores the invariant.
pub switch_to_highest-Inv :
    (k : Kernel) (previous : Option ℕ) (reason : SwitchReason)
    → Parked k
    → Inv (switch_to_highest k previous reason).0
switch_to_highest-Inv k previous reason v = elim (Option-cases (ready_highest_priority k)) [
  | inl e ↦ switch_empty-Inv k previous reason e v
  | inr (p, e) ↦ elim (List-cases (k.ready_lists p)) [
    | inl f ↦ absurd (ground (arith, highest-nonempty k p v.linked e))
    | inr (t, ts, f) ↦ switch_pop-Inv k previous reason p t ts e f v
  ]
]

-- Putting the running task back into its queue leaves no task running.
pub requeue-Parked :
    (k : Kernel) (t : ℕ)
    → Inv k
    → k.current ≡ some t
    → is_running (k.tasks t).state ≡ true
    → Parked (requeue k t)
unfolding requeue
requeue-Parked k t v c r =
    let f : Task → Task = λ x. record x { state = ready } in
    let same : SameLinks (k.tasks t) (f (k.tasks t)) = record {
      same_ready = λ p. ground (arith, v.settled t);
      same_wait = λ w. ground (arith, v.settled t);
      same_delay = λ d. refl;
      same_rank = λ w h. refl;
      same_wake = λ d h. refl;
      bound = v.linked.priority_bound t;
    } in
    record {
      linked = ready_enqueue-Linked (modify k t f) t (modify-Linked k t f v.linked same);
      settled = λ u.
          unfold ready_enqueue in
          ground (arith, v.settled u, v.settled t, v.linked.priority_bound t);
    }

-- Where no task is current, none runs.
pub idle-Parked : (k : Kernel) → Inv k → k.current ≡ none → Parked k
idle-Parked k v c = record { linked = v.linked; settled = λ t. ground (arith, v.settled t) }

-- The current task is RUNNING.
pub current-runs :
    (k : Kernel) (t : ℕ) → Inv k → k.current ≡ some t → is_running (k.tasks t).state ≡ true
current-runs k t v c = ground (arith, v.settled t)

preempt-Inv :
    (k : Kernel) (t : ℕ) (highest : Option ℕ) (reason : SwitchReason) (rotate_equal : Bool)
    → Inv k
    → k.current ≡ some t
    → Inv (preempt_or_rotate k t highest reason rotate_equal).0
unfolding preempt_or_rotate
preempt-Inv k t none reason rotate_equal v c = v
preempt-Inv k t (some p) reason rotate_equal v c =
    let parked = requeue-Parked k t v c (current-runs k t v c) in
    elim (Bool-cases (
      ltb (k.tasks t).effective_priority p
      || rotate_equal && p == (k.tasks t).effective_priority)) [
        | inl e ↦ rw e (switch_to_highest-Inv (requeue k t) (some t) reason parked)
        | inr e ↦ rw e v
      ]

schedule_started-Inv :
    (k : Kernel) (current : Option ℕ) (reason : SwitchReason) (rotate_equal : Bool)
    → Inv k
    → k.current ≡ current
    → Inv (schedule_started k current reason rotate_equal).0
unfolding schedule_started
schedule_started-Inv k none reason rotate_equal v c =
    switch_to_highest-Inv k none reason (idle-Parked k v c)
schedule_started-Inv k (some t) reason rotate_equal v c =
    rw (current-runs k t v c) (preempt-Inv k t (ready_highest_priority k) reason rotate_equal v c)

-- os_SchedSchedule keeps the invariant.
pub sched_schedule-Inv :
    (k : Kernel) (reason : SwitchReason) (rotate_equal : Bool)
    → Inv k
    → Inv (sched_schedule k reason rotate_equal).0
unfolding sched_schedule
sched_schedule-Inv k reason rotate_equal v =
    if_both InvAfter k.started (λ _. schedule_started-Inv k k.current reason rotate_equal v refl)
      (λ _. v)

yield_task-Inv :
    (k : Kernel) (current : Option ℕ) → Inv k → k.current ≡ current → Inv (yield_task k current).0
unfolding yield_task
yield_task-Inv k none v c = v
yield_task-Inv k (some t) v c =
    let r = current-runs k t v c in
    rw r (switch_to_highest-Inv (requeue k t) (some t) yield (requeue-Parked k t v c r))

-- os_SchedYieldCurrent keeps the invariant.
pub sched_yield_current-Inv : (k : Kernel) → Inv k → Inv (sched_yield_current k).0
unfolding sched_yield_current
sched_yield_current-Inv k v = yield_task-Inv k k.current v refl

-- os_SchedCurrentBlocked, called when the current task `t` has been parked, restores the invariant.
pub sched_current_blocked-Inv :
    (k : Kernel) (t : ℕ) (reason : SwitchReason)
    → Parked k
    → k.current ≡ some t
    → Inv (sched_current_blocked k reason).0
unfolding sched_current_blocked
sched_current_blocked-Inv k t reason v c =
    let r : is_running (k.tasks t).state ≡ false = ground (arith, v.settled t) in
    rw (c, leave_blocked) (rw r (switch_to_highest-Inv k (some t) reason v))
