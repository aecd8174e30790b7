-- ===== src/Sem/Outcome.antt =====
-- What a give does to a semaphore and to the task that it wakes.
use mini_rtos.Base.{
  ℕ, ◌+◌, ◌<◌, ◌≤◌, ◌≡◌, refl, true, false, ◌⊎◌, inl, inr, none, some, List, [], ◌∷◌, leb, arith,
  if_both, head?, ◌==◌, ◌∙◌,
}
use mini_rtos.Kernel.{Kernel, Status, ok, limit_reached, is_ready, WaitList}
use mini_rtos.Invariant.{Inv, Waking}
use mini_rtos.Ready.{ready_enqueue}
use mini_rtos.Delay.{delay_list_remove}
use mini_rtos.Wait.{wait_make_ready, wait_pop}
use mini_rtos.Wait.Invariant.{Popped, wait_pop-Popped}
use mini_rtos.Sem.{Given, sem_waiters, sem_is_valid, sem_give_to, sem_give_from_isr_context}

-- The permit goes to the first waiter: it is READY with result OS_STATUS_OK, and the counts stay.
pub record HandedOver (k : Kernel) (s : ℕ) (g : Given) : Type 0 where
  pub waiter : ℕ
  pub first : head? (k.waiters (sem_waiters s)) ≡ some waiter
  pub woken : g.2 ≡ some waiter
  pub status : g.1 ≡ ok
  pub counts : g.0.semaphores ≡ k.semaphores
  pub is_ready : is_ready (g.0.tasks waiter).state ≡ true
  pub result : (g.0.tasks waiter).wait_result ≡ ok

-- Nobody waits and the semaphore is below its maximum: its count goes up by one.
pub record Counted (k : Kernel) (s : ℕ) (g : Given) : Type 0 where
  pub nobody : k.waiters (sem_waiters s) ≡ []
  pub woken : g.2 ≡ none
  pub status : g.1 ≡ ok
  pub count : (g.0.semaphores s).count ≡ (k.semaphores s).count + 1
  pub bound : (g.0.semaphores s).count ≤ (g.0.semaphores s).maximum_count
  pub others : (r : ℕ) → (r == s) ≡ false → g.0.semaphores r ≡ k.semaphores r

-- Nobody waits and the semaphore is full: nothing of it changes.
pub record Refused (k : Kernel) (s : ℕ) (g : Given) : Type 0 where
  pub nobody : k.waiters (sem_waiters s) ≡ []
  pub full : (k.semaphores s).count ≡ (k.semaphores s).maximum_count
  pub woken : g.2 ≡ none
  pub status : g.1 ≡ limit_reached
  pub counts : g.0.semaphores ≡ k.semaphores

abbrev pub Outcome : Kernel → ℕ → Given → Type 0
Outcome k s g = HandedOver k s g ⊎ (Counted k s g ⊎ Refused k s g)

delay_list_remove-semaphores :
    (k : Kernel) (t : ℕ) → (delay_list_remove k t).semaphores ≡ k.semaphores
unfolding delay_list_remove
delay_list_remove-semaphores k t = ground arith

make_ready-semaphores :
    (k : Kernel) (t : ℕ) (result : Status) → (wait_make_ready k t result).semaphores ≡ k.semaphores
unfolding wait_make_ready ready_enqueue
make_ready-semaphores k t result = ground (arith, delay_list_remove-semaphores k t)

make_ready-ready :
    (k : Kernel) (t : ℕ) (result : Status)
    → Waking k t
    → (is_ready ((wait_make_ready k t result).tasks t).state ≡ true)
      × (((wait_make_ready k t result).tasks t).wait_result ≡ result)
unfolding wait_make_ready ready_enqueue
make_ready-ready k t result v = (ground (arith, v.popped), ground (arith, v.popped))

wait_pop-semaphores : (k : Kernel) (w : WaitList) → (wait_pop k w).0.semaphores ≡ k.semaphores
unfolding wait_pop
wait_pop-semaphores k w = ground arith

give_to-Outcome :
    (k : Kernel) (s : ℕ) (xs : List ℕ)
    → Popped (wait_pop k (sem_waiters s)).0 (head? xs)
    → sem_is_valid k (some s) ≡ true
    → k.waiters (sem_waiters s) ≡ xs
    → (k.semaphores s).maximum_count < 4294967296
    → Outcome k s (sem_give_to ((wait_pop k (sem_waiters s)).0, head? xs) s)
unfolding sem_give_to sem_is_valid
give_to-Outcome k s [] v valid e fits =
    let k' = (wait_pop k (sem_waiters s)).0 in
    let same = wait_pop-semaphores k (sem_waiters s) in
    if_both (Outcome k s) (leb (k'.semaphores s).maximum_count (k'.semaphores s).count)
      (λ f. inr (
        inr record {
          nobody = e;
          full = ground (arith, same, valid);
          woken = refl;
          status = refl;
          counts = same;
        }))
      (λ f. inr (
        inl record {
          nobody = e;
          woken = refl;
          status = refl;
          count = ground (arith, same, f, fits);
          bound = ground (arith, same, f, fits);
          others = λ r o. ground (arith, same);
        }))
give_to-Outcome k s (u ∷ us) v valid e fits =
    let k' = (wait_pop k (sem_waiters s)).0 in
    let (now_ready, result) = make_ready-ready k' u ok v in
    inl record {
      waiter = u;
      first = ground (arith, e);
      woken = refl;
      status = refl;
      counts = make_ready-semaphores k' u ok ∙ wait_pop-semaphores k (sem_waiters s);
      is_ready = now_ready;
      result = result;
    }

-- On a kernel that satisfies the invariant, for a valid semaphore whose maximum is a 32-bit
-- number, os_SemGiveFromIsrContext has one of three outcomes: the first waiter is READY with
-- result OS_STATUS_OK and every count stays; or nobody waits, the status is OS_STATUS_OK and the
-- count goes up by one, at most to the maximum, the other semaphores unchanged; or nobody waits,
-- the count is the maximum, the status is OS_STATUS_LIMIT_REACHED and nothing of the semaphores
-- changes.
pub sem_give_from_isr_context-Outcome :
    (k : Kernel) (s : ℕ)
    → Inv k
    → sem_is_valid k (some s) ≡ true
    → (k.semaphores s).maximum_count < 4294967296
    → Outcome k s (sem_give_from_isr_context k (some s))
unfolding sem_give_from_isr_context wait_pop
sem_give_from_isr_context-Outcome k s v valid fits =
    if_both (Outcome k s) (sem_is_valid k (some s))
      (λ _.
        give_to-Outcome k s (k.waiters (sem_waiters s)) (wait_pop-Popped k (sem_waiters s) v) valid
          refl fits)
      (λ n. absurd (ground (arith, valid, n)))
