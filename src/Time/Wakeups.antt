-- ===== src/Time/Wakeups.antt =====
-- The wake-up loop of os_TimeTick comes to its end.
use mini_rtos.Base.{
  ℕ, zero, suc, ◌≤◌, ◌≡◌, refl, Bool, true, false, Option, none, some, List, [], ◌∷◌, arith, inl,
  inr, length, Option-cases, if_both, ◌∙◌,
}
use mini_rtos.Kernel.{Kernel, WaitList, timeout, is_blocked_delay, is_blocked_object, is_mutex_wait}
use mini_rtos.Invariant.{Inv}
use mini_rtos.Ready.{ready_enqueue}
use mini_rtos.Sched.{requeue}
use mini_rtos.Delay.{delay_list_remove}
use mini_rtos.Wait.{wait_unlink, wait_make_ready}
use mini_rtos.Wait.Invariant.{wait_make_ready-Inv}
use mini_rtos.Mutex.{mutex_waiters_changed}
use mini_rtos.Mutex.Invariant.{mutex_waiters_changed-Repriced}
use mini_rtos.Time.{
  pop_delayed, leave_wait_list, time_out, wake, wake_head, wake_due, due_head, due_of,
}
use mini_rtos.Time.Invariant.{Due, pop_delayed-Due, leave-Waking, wake_head-Inv, due_head-some}

-- The tasks that sleep in the current delay list.
abbrev pub asleep : Kernel → List ℕ
asleep k = k.delayed_lists k.px_delayed

-- The delay lists, which of them is current, and whether the scheduler runs are the same.
record SameDelays (k k' : Kernel) : Type 0 where
  lists : k'.delayed_lists ≡ k.delayed_lists
  px : k'.px_delayed ≡ k.px_delayed
  started : k'.started ≡ k.started

SameDelays-trans : {k k' k'' : Kernel} → SameDelays k k' → SameDelays k' k'' → SameDelays k k''
SameDelays-trans r s = record {
  lists = s.lists ∙ r.lists;
  px = s.px ∙ r.px;
  started = s.started ∙ r.started;
}

ready_enqueue-SameDelays : (k : Kernel) (t : ℕ) → SameDelays k (ready_enqueue k t)
unfolding ready_enqueue
ready_enqueue-SameDelays k t = record {
  lists = ground arith;
  px = ground arith;
  started = ground arith;
}

requeue-SameDelays : (k : Kernel) (t : ℕ) → SameDelays k (requeue k t)
unfolding requeue
requeue-SameDelays k t =
    let s = ready_enqueue-SameDelays _ t in
    record { lists = s.lists; px = s.px; started = s.started }

leave-SameDelays : (k : Kernel) (t : ℕ) (w : Option WaitList) → SameDelays k (leave_wait_list k t w)
unfolding leave_wait_list wait_unlink
leave-SameDelays k t none = record { lists = refl; px = refl; started = refl }
leave-SameDelays k t (some w) = record {
  lists = ground arith;
  px = ground arith;
  started = ground arith;
}

leave-delay_linked :
    (k : Kernel) (t : ℕ) (w : Option WaitList)
    → ((leave_wait_list k t w).tasks t).delay_linked ≡ (k.tasks t).delay_linked
unfolding leave_wait_list wait_unlink
leave-delay_linked k t none = refl
leave-delay_linked k t (some w) = ground arith

make_ready-SameDelays :
    (k : Kernel) (t : ℕ)
    → (k.tasks t).delay_linked ≡ false
    → SameDelays k (wait_make_ready k t timeout)
unfolding wait_make_ready delay_list_remove ready_enqueue
make_ready-SameDelays k t n = record {
  lists = ground arith;
  px = ground arith;
  started = ground arith;
}

changed-SameDelays : (k : Kernel) → Inv k → SameDelays k (mutex_waiters_changed k)
changed-SameDelays k v =
    let r = mutex_waiters_changed-Repriced k v.linked in
    record { lists = r.delayed_lists; px = r.px_delayed; started = r.started }

module _ (k : Kernel) (t : ℕ) (v : Due k t) where
  time_out-SameDelays : is_blocked_object (k.tasks t).state ≡ true → SameDelays k (time_out k t)
  unfolding time_out
  time_out-SameDelays b =
      let w = (k.tasks t).wait_list in
      let k' = leave_wait_list k t w in
      let s = make_ready-SameDelays k' t (leave-delay_linked k t w ∙ ground (arith, v.due)) in
      let s' = SameDelays-trans (leave-SameDelays k t w) s in
      if_both (SameDelays k) (is_mutex_wait (k.tasks t).wait_kind)
        (λ _.
          SameDelays-trans s'
            (changed-SameDelays _ (wait_make_ready-Inv k' t timeout (leave-Waking k t w v b refl))))
        (λ _. s')

  wake-SameDelays : SameDelays k (wake k t)
  unfolding wake
  wake-SameDelays =
      if_both (SameDelays k) (is_blocked_delay (k.tasks t).state) (λ _. requeue-SameDelays k t)
        (λ _.
          if_both (SameDelays k) (is_blocked_object (k.tasks t).state) time_out-SameDelays
            (λ _. record { lists = refl; px = refl; started = refl }))

pop_delayed-asleep :
    (k : Kernel) (t : ℕ) (ts : List ℕ) → asleep k ≡ t ∷ ts → asleep (pop_delayed k t) ≡ ts
unfolding pop_delayed
pop_delayed-asleep k t ts e = ground arith

-- A round of the loop takes its task out of the list and touches no other sleeper.
pub wake_head-asleep :
    (k : Kernel) (t : ℕ) (ts : List ℕ) (woke : Bool)
    → Inv k
    → asleep k ≡ t ∷ ts
    → asleep (wake_head k t woke).0 ≡ ts
unfolding wake_head
wake_head-asleep k t ts woke v e =
    let s = wake-SameDelays (pop_delayed k t) t (pop_delayed-Due k t ts v e) in
    ground (arith, s.lists, s.px, pop_delayed-asleep k t ts e)

empty-due : (k : Kernel) → asleep k ≡ [] → due_head k ≡ none
unfolding due_head due_of
empty-due k e = ground arith

-- From a kernel that satisfies the invariant, with as much fuel as the current delay list has
-- tasks, the wake-up loop of os_TimeTick ends because the head of that list is not due or the
-- list is empty, never for want of fuel.
pub wake_due-ends :
    (fuel : ℕ) (k : Kernel) (woke : Bool)
    → Inv k
    → length (asleep k) ≤ fuel
    → due_head (wake_due fuel k woke).0 ≡ none
unfolding wake_due
wake_due-ends zero k woke v h = empty-due k (ground arith)
wake_due-ends (suc fuel) k woke v h = elim (Option-cases (due_head k)) [
  | inl e ↦ rw (e, wake_due) e
  | inr (t, e) ↦
      let (ts, first, due) = due_head-some k e in
      rw (e, wake_due)
        (wake_due-ends fuel (wake_head k t woke).0 (wake_head k t woke).1
          (wake_head-Inv k t ts woke v first)
          (ground (arith, wake_head-asleep k t ts woke v first)))
]

wake_head-started :
    (k : Kernel) (t : ℕ) (ts : List ℕ) (woke : Bool)
    → Inv k
    → asleep k ≡ t ∷ ts
    → (wake_head k t woke).0.started ≡ k.started
unfolding wake_head pop_delayed
wake_head-started k t ts woke v e =
    (wake-SameDelays (pop_delayed k t) t (pop_delayed-Due k t ts v e)).started

-- The wake-up loop neither starts nor stops the scheduler.
pub wake_due-started :
    (fuel : ℕ) (k : Kernel) (woke : Bool) → Inv k → (wake_due fuel k woke).0.started ≡ k.started
unfolding wake_due
wake_due-started zero k woke v = refl
wake_due-started (suc fuel) k woke v = elim (Option-cases (due_head k)) [
  | inl e ↦ rw (e, wake_due) refl
  | inr (t, e) ↦
      let (ts, first, due) = due_head-some k e in
      rw (e, wake_due)
        (wake_due-started fuel (wake_head k t woke).0 (wake_head k t woke).1
            (wake_head-Inv k t ts woke v first)
          ∙ wake_head-started k t ts woke v first)
]
