-- ===== src/Sem/Invariant.antt =====
-- Semaphore operations keep the invariant of the kernel.
use mini_rtos.Base.{ℕ, not, Option, none, some, ◌==◌, if_both, ltb, leb}
use mini_rtos.Kernel.{Kernel, Sem, ok, is_running, timeout, invalid_argument}
use mini_rtos.Invariant.{Inv}
use mini_rtos.Wait.Invariant.{
  Popped, wait_pop-Popped, wait_block_current-Inv, wait_make_ready-Inv, wait_maybe_preempt-Inv,
  set_result-Inv,
}
use mini_rtos.Sem.{
  Given, sem_waiters, sem_is_valid, sem_take_by, sem_take_task, sem_take_current, sem_give_to,
  sem_give_from_isr_context, preempt_by, sem_give_task, sem_give_current,
}

abbrev pub AfterGive : Given → Type 0
AfterGive g = Inv g.0

pub set_semaphores-Inv :
    (k : Kernel) (semaphores : ℕ → Sem) → Inv k → Inv (record k { semaphores = semaphores })
set_semaphores-Inv k semaphores v = record { linked = v.linked; settled = v.settled }

sem_take_by-Inv : (k : Kernel) (t s ticks : ℕ) → Inv k → Inv (sem_take_by k t s ticks)
unfolding sem_take_by
sem_take_by-Inv k t s ticks v =
    if_both Inv (ltb 0 (k.semaphores s).count)
      (λ _. set_result-Inv _ t ok (set_semaphores-Inv k _ v))
      (λ _.
        if_both Inv (ticks == 0) (λ _. set_result-Inv k t timeout v)
          (λ _. wait_block_current-Inv k (sem_waiters s) 0 ticks v))

sem_take_task-Inv :
    (k : Kernel) (current handle : Option ℕ) (ticks : ℕ)
    → Inv k
    → Inv (sem_take_task k current handle ticks)
unfolding sem_take_task
sem_take_task-Inv k none handle ticks v = v
sem_take_task-Inv k (some t) none ticks v =
    if_both Inv (is_running (k.tasks t).state) (λ _. set_result-Inv k t invalid_argument v) (λ _. v)
sem_take_task-Inv k (some t) (some s) ticks v =
    if_both Inv (not (is_running (k.tasks t).state)) (λ _. v)
      (λ _.
        if_both Inv (not (sem_is_valid k (some s))) (λ _. set_result-Inv k t invalid_argument v)
          (λ _. sem_take_by-Inv k t s ticks v))

-- os_SemTakeCurrent keeps the invariant.
pub sem_take_current-Inv :
    (k : Kernel) (handle : Option ℕ) (ticks : ℕ) → Inv k → Inv (sem_take_current k handle ticks)
unfolding sem_take_current
sem_take_current-Inv k handle ticks v = sem_take_task-Inv k k.current handle ticks v

sem_give_to-Inv :
    (k : Kernel) (o : Option ℕ) (s : ℕ) → Popped k o → AfterGive (sem_give_to (k, o) s)
unfolding sem_give_to
sem_give_to-Inv k none s v =
    if_both AfterGive (leb (k.semaphores s).maximum_count (k.semaphores s).count) (λ _. v)
      (λ _. set_semaphores-Inv k _ v)
sem_give_to-Inv k (some u) s v = wait_make_ready-Inv k u ok v

-- os_SemGiveFromIsrContext keeps the invariant.
pub sem_give_from_isr_context-Inv :
    (k : Kernel) (handle : Option ℕ) → Inv k → AfterGive (sem_give_from_isr_context k handle)
unfolding sem_give_from_isr_context
sem_give_from_isr_context-Inv k none v = v
sem_give_from_isr_context-Inv k (some s) v =
    if_both AfterGive (sem_is_valid k (some s))
      (λ _. sem_give_to-Inv _ _ s (wait_pop-Popped k (sem_waiters s) v)) (λ _. v)

pub preempt_by-Inv : (k : Kernel) (o : Option ℕ) → Inv k → Inv (preempt_by k o)
unfolding preempt_by
preempt_by-Inv k none v = v
preempt_by-Inv k (some u) v = wait_maybe_preempt-Inv k u v

sem_give_task-Inv :
    (k : Kernel) (current handle : Option ℕ) → Inv k → Inv (sem_give_task k current handle)
unfolding sem_give_task
sem_give_task-Inv k none handle v = v
sem_give_task-Inv k (some t) handle v =
    if_both Inv (is_running (k.tasks t).state)
      (λ _. preempt_by-Inv _ _ (set_result-Inv _ t _ (sem_give_from_isr_context-Inv k handle v)))
      (λ _. v)

-- os_SemGiveCurrent keeps the invariant.
pub sem_give_current-Inv :
    (k : Kernel) (handle : Option ℕ) → Inv k → Inv (sem_give_current k handle)
unfolding sem_give_current
sem_give_current-Inv k handle v = sem_give_task-Inv k k.current handle v
