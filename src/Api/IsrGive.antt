-- ===== src/Api/IsrGive.antt =====
-- A give from an interrupt preempts where it should.
use mini_rtos.Base.{
  ℕ, ◌+◌, ◌≡◌, refl, true, false, Option, none, some, ◌==◌, arith, if_both, leb, ◌∙◌,
}
use mini_rtos.Kernel.{Kernel, Status, WaitList, ok}
use mini_rtos.Invariant.{Inv}
use mini_rtos.Ready.{ready_enqueue}
use mini_rtos.Sched.Highest.{Highest}
use mini_rtos.Delay.{delay_list_remove}
use mini_rtos.Wait.{wait_pop, wait_make_ready}
use mini_rtos.Sem.{
  Given, sem_waiters, sem_is_valid, sem_give_to, sem_give_from_isr_context, preempt_by,
}
use mini_rtos.Sem.Invariant.{sem_give_from_isr_context-Inv}
use mini_rtos.Port.{enter_critical}
use mini_rtos.Port.Preempt.{HighestBut, exit_critical-Highest, exit_pending-Highest}
use mini_rtos.Api.{give_and_preempt, semaphore_give_from_isr}

-- `k'` has `k`'s current task, effective priorities and flags, and all states but the one of `t`.
pub record Disturbed (k k' : Kernel) (t : ℕ) : Type 0 where
  pub current : k'.current ≡ k.current
  started : k'.started ≡ k.started
  pub nesting : k'.critical_nesting ≡ k.critical_nesting
  priority : (u : ℕ) → (k'.tasks u).effective_priority ≡ (k.tasks u).effective_priority
  state : (u : ℕ) → (u == t) ≡ false → (k'.tasks u).state ≡ (k.tasks u).state

Disturbed-HighestBut : (k k' : Kernel) (t : ℕ) → Disturbed k k' t → Highest k → HighestBut k' t
Disturbed-HighestBut k k' t d h u o r =
    let (c, e, below) = h u (ground (arith, d.state u o)) in
    (c, d.current ∙ e, ground (arith, d.priority u, d.priority c))

wait_pop-Disturbed : (k : Kernel) (w : WaitList) (t : ℕ) → Disturbed k (wait_pop k w).0 t
unfolding wait_pop
wait_pop-Disturbed k w t = record {
  current = ground arith;
  started = ground arith;
  nesting = ground arith;
  priority = λ u. ground arith;
  state = λ u o. ground arith;
}

removed-Disturbed : (k : Kernel) (t : ℕ) → Disturbed k (delay_list_remove k t) t
unfolding delay_list_remove
removed-Disturbed k t = record {
  current = ground arith;
  started = ground arith;
  nesting = ground arith;
  priority = λ u. ground arith;
  state = λ u o. ground arith;
}

make_ready-Disturbed :
    (k : Kernel) (t : ℕ) (result : Status) → Disturbed k (wait_make_ready k t result) t
unfolding wait_make_ready ready_enqueue
make_ready-Disturbed k t result =
    let d = removed-Disturbed k t in
    record {
      current = ground (arith, d.current);
      started = ground (arith, d.started);
      nesting = ground (arith, d.nesting);
      priority = λ u. ground (arith, d.priority u);
      state = λ u o. ground (arith, d.state u o);
    }

Disturbed-trans :
    {k k' k'' : Kernel} {t : ℕ} → Disturbed k k' t → Disturbed k' k'' t → Disturbed k k'' t
Disturbed-trans r s = record {
  current = s.current ∙ r.current;
  started = s.started ∙ r.started;
  nesting = s.nesting ∙ r.nesting;
  priority = λ u. s.priority u ∙ r.priority u;
  state = λ u o. s.state u o ∙ r.state u o;
}

-- What a give leaves to os_WaitMaybePreempt.
abbrev pub LeftTo : Kernel → Kernel × Status × Option ℕ → Type 0
LeftTo k (k', status, none) = (t : ℕ) → Disturbed k k' t
LeftTo k (k', status, some t) = Disturbed k k' t

give_to-LeftTo :
    (k : Kernel) (k' : Kernel) (o : Option ℕ) (s : ℕ)
    → ((t : ℕ) → Disturbed k k' t)
    → LeftTo k (sem_give_to (k', o) s)
unfolding sem_give_to
give_to-LeftTo k k' none s d =
    if_both (LeftTo k) (leb (k'.semaphores s).maximum_count (k'.semaphores s).count) (λ _. d)
      (λ _ t. record {
        current = (d t).current;
        started = (d t).started;
        nesting = (d t).nesting;
        priority = (d t).priority;
        state = (d t).state;
      })
give_to-LeftTo k k' (some u) s d = Disturbed-trans (d u) (make_ready-Disturbed k' u ok)

Disturbed-refl : (k : Kernel) (t : ℕ) → Disturbed k k t
Disturbed-refl k t = record {
  current = refl;
  started = refl;
  nesting = refl;
  priority = λ u. refl;
  state = λ u o. refl;
}

pub give-LeftTo : (k : Kernel) (handle : Option ℕ) → LeftTo k (sem_give_from_isr_context k handle)
unfolding sem_give_from_isr_context
give-LeftTo k none = Disturbed-refl k
give-LeftTo k (some s) =
    if_both (LeftTo k) (sem_is_valid k (some s))
      (λ _.
        give_to-LeftTo k (wait_pop k (sem_waiters s)).0 (wait_pop k (sem_waiters s)).1 s
          (wait_pop-Disturbed k (sem_waiters s)))
      (λ _. Disturbed-refl k)

Disturbed-Highest : (k k' : Kernel) → ((t : ℕ) → Disturbed k k' t) → Highest k → Highest k'
Disturbed-Highest k k' d h u r = Disturbed-HighestBut k k' (u + 1) (d (u + 1)) h u (ground arith) r

preempt-Highest :
    (k : Kernel) (g : Given)
    → Inv g.0
    → k.started ≡ true
    → k.critical_nesting ≡ 1
    → Highest k
    → LeftTo k g
    → Highest (give_and_preempt g).0
unfolding give_and_preempt preempt_by
preempt-Highest k (k', status, none) v s one h d =
    exit_pending-Highest k' v ((d 0).started ∙ s) ((d 0).nesting ∙ one)
      (λ _. Disturbed-Highest k k' d h)
preempt-Highest k (k', status, some t) v s one h d =
    exit_critical-Highest k' t v (d.started ∙ s) (d.nesting ∙ one) (Disturbed-HighestBut k k' t d h)

entered-Inv : (k : Kernel) → Inv k → Inv (enter_critical k)
unfolding enter_critical
entered-Inv k v = record { linked = v.linked; settled = v.settled }

-- On a started kernel that satisfies the invariant, outside critical sections, where no READY
-- task outranks the current one, xSemaphoreGiveFromISR on any handle leaves no READY task without
-- a current task whose effective priority is at least as high.
pub semaphore_give_from_isr-Highest :
    (k : Kernel) (handle : Option ℕ)
    → Inv k
    → k.started ≡ true
    → k.critical_nesting ≡ 0
    → Highest k
    → Highest (semaphore_give_from_isr k handle).0
unfolding semaphore_give_from_isr enter_critical
semaphore_give_from_isr-Highest k handle v s z h =
    let k' = enter_critical k in
    preempt-Highest k' (sem_give_from_isr_context k' handle)
      (sem_give_from_isr_context-Inv k' handle (entered-Inv k v)) s (ground (arith, z)) h
      (give-LeftTo k' handle)
