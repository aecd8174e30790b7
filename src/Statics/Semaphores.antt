-- ===== src/Statics/Semaphores.antt =====
-- Operations on semaphores keep valid objects valid.
use mini_rtos.Base.{ℕ, ◌+◌, ◌-◌, ◌≤◌, ◌<◌, not, Option, none, some, arith, ltb, leb, ◌==◌, if_both}
use mini_rtos.Kernel.{Kernel, is_running, ok, timeout, invalid_argument, u32}
use mini_rtos.Wait.{wait_pop}
use mini_rtos.Mutex.{set_result}
use mini_rtos.Sem.{
  Given, sem_waiters, sem_is_valid, sem_take_by, sem_take_task, sem_take_current, sem_give_to,
  sem_give_from_isr_context, preempt_by, sem_give_task, sem_give_current,
}
use mini_rtos.Statics.Waiting.{
  wait_block_current-Same, wait_pop-Same, wait_make_ready-Same, wait_maybe_preempt-Same,
}
use mini_rtos.Statics.Sound.{
  Advance, Advance-trans, Advance-refl, Same-Advance, set_result-Advance, semaphore-Advance,
}

sem_take_by-Advance : (k : Kernel) (t s ticks : ℕ) → Advance k (sem_take_by k t s ticks)
unfolding sem_take_by
sem_take_by-Advance k t s ticks =
    let x = k.semaphores s in
    if_both (Advance k) (ltb 0 x.count)
      (λ _.
        Advance-trans
          (semaphore-Advance k s (record x { count = x.count - 1 })
            (λ v u.
              let valid = v.semaphores s u in
              record { positive = valid.positive; bounded = omega (arith, valid.bounded) }))
          (set_result-Advance _ t ok))
      (λ _.
        if_both (Advance k) (ticks == 0) (λ _. set_result-Advance k t timeout)
          (λ _. Same-Advance (wait_block_current-Same k (sem_waiters s) 0 ticks)))

sem_take_task-Advance :
    (k : Kernel) (current handle : Option ℕ) (ticks : ℕ)
    → Advance k (sem_take_task k current handle ticks)
unfolding sem_take_task
sem_take_task-Advance k none handle ticks = Advance-refl k
sem_take_task-Advance k (some t) none ticks =
    if_both (Advance k) (is_running (k.tasks t).state)
      (λ _. set_result-Advance k t invalid_argument) (λ _. Advance-refl k)
sem_take_task-Advance k (some t) (some s) ticks =
    if_both (Advance k) (not (is_running (k.tasks t).state)) (λ _. Advance-refl k)
      (λ _.
        if_both (Advance k) (not (sem_is_valid k (some s)))
          (λ _. set_result-Advance k t invalid_argument) (λ _. sem_take_by-Advance k t s ticks))

pub sem_take_current-Advance :
    (k : Kernel) (handle : Option ℕ) (ticks : ℕ) → Advance k (sem_take_current k handle ticks)
unfolding sem_take_current
sem_take_current-Advance k handle ticks = sem_take_task-Advance k k.current handle ticks

-- The next count wraps to a smaller one, if at all.
u32-le : (n m : ℕ) → n < m → u32 (n + 1) ≤ m
u32-le n m h = omega arith

abbrev pub GivenAfter : Kernel → Given → Type 0
GivenAfter k g = Advance k g.0

sem_give_to-Advance :
    (k : Kernel) (woken : Option ℕ) (s : ℕ) → GivenAfter k (sem_give_to (k, woken) s)
unfolding sem_give_to
sem_give_to-Advance k none s =
    let x = k.semaphores s in
    if_both (GivenAfter k) (leb x.maximum_count x.count) (λ _. Advance-refl k)
      (λ n.
        semaphore-Advance k s (record x { count = u32 (x.count + 1) })
          (λ v u.
            let valid = v.semaphores s u in
            record {
              positive = valid.positive;
              bounded = u32-le x.count x.maximum_count (ground (arith, n));
            }))
sem_give_to-Advance k (some u) s = Same-Advance (wait_make_ready-Same k u ok)

pub sem_give_from_isr_context-Advance :
    (k : Kernel) (handle : Option ℕ) → GivenAfter k (sem_give_from_isr_context k handle)
unfolding sem_give_from_isr_context
sem_give_from_isr_context-Advance k none = Advance-refl k
sem_give_from_isr_context-Advance k (some s) =
    let popped = wait_pop k (sem_waiters s) in
    if_both (GivenAfter k) (sem_is_valid k (some s))
      (λ _.
        Advance-trans (Same-Advance (wait_pop-Same k (sem_waiters s)))
          (sem_give_to-Advance popped.0 popped.1 s))
      (λ _. Advance-refl k)

pub preempt_by-Advance : (k : Kernel) (woken : Option ℕ) → Advance k (preempt_by k woken)
unfolding preempt_by
preempt_by-Advance k none = Advance-refl k
preempt_by-Advance k (some u) = Same-Advance (wait_maybe_preempt-Same k u)

sem_give_task-Advance :
    (k : Kernel) (current handle : Option ℕ) → Advance k (sem_give_task k current handle)
unfolding sem_give_task
sem_give_task-Advance k none handle = Advance-refl k
sem_give_task-Advance k (some t) handle =
    let (k', status, woken) = sem_give_from_isr_context k handle in
    if_both (Advance k) (is_running (k.tasks t).state)
      (λ _.
        Advance-trans
          (Advance-trans (sem_give_from_isr_context-Advance k handle)
            (set_result-Advance k' t status))
          (preempt_by-Advance (set_result k' t status) woken))
      (λ _. Advance-refl k)

pub sem_give_current-Advance :
    (k : Kernel) (handle : Option ℕ) → Advance k (sem_give_current k handle)
unfolding sem_give_current
sem_give_current-Advance k handle = sem_give_task-Advance k k.current handle
