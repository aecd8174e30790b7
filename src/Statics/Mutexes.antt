-- ===== src/Statics/Mutexes.antt =====
-- Operations on mutexes keep valid objects valid.
use mini_rtos.Base.{
  ℕ, Bool, false, ◌&&◌, not, Option, none, some, ◌==◌, if_both, update, for_each_keeps, for_each,
  indices, same_handle,
}
use mini_rtos.Kernel.{
  Kernel, is_running, ok, timeout, bad_state, invalid_argument, not_owner, max_mutexes,
  higher_priority_wakeup,
}
use mini_rtos.Wait.{wait_block_current, wait_pop, wait_make_ready, wait_maybe_preempt}
use mini_rtos.Mutex.{
  set_result, mutex_waiters, mutex_is_valid, mutex_waiters_changed, owner_outranks, mutex_wait,
  mutex_lock_by, mutex_lock_task, mutex_lock_current, wake_owner, mutex_hand_over,
  mutex_unlock_task, mutex_unlock_current, make_owner_ready, release_mutex, mutex_release_task,
}
use mini_rtos.Statics.{Same, Same-trans, Same-refl}
use mini_rtos.Statics.Scheduling.{sched_schedule-Same}
use mini_rtos.Statics.Waiting.{
  wait_block_current-Same, wait_pop-Same, wait_make_ready-Same, wait_maybe_preempt-Same,
  mutex_waiters_changed-Same,
}
use mini_rtos.Statics.Sound.{
  Advance, Advance-trans, Advance-refl, AdvanceAfter, Same-Advance, set_result-Advance,
  owner-Advance,
}

mutex_wait-Advance : (k : Kernel) (m ticks : ℕ) → Advance k (mutex_wait k m ticks)
unfolding mutex_wait
mutex_wait-Advance k m ticks =
    let blocked = (wait_block_current k (mutex_waiters m) 0 ticks).0 in
    let k' = mutex_waiters_changed blocked in
    let waits =
      Same-trans (wait_block_current-Same k (mutex_waiters m) 0 ticks)
        (mutex_waiters_changed-Same blocked) in
    if_both (Advance k) (owner_outranks k' (k'.mutexes m).owner k'.current)
      (λ _. Same-Advance (Same-trans waits (sched_schedule-Same k' higher_priority_wakeup false)))
      (λ _. Same-Advance waits)

mutex_lock_by-Advance :
    (k : Kernel) (t m : ℕ) (owner : Option ℕ) (ticks : ℕ)
    → Advance k (mutex_lock_by k t m owner ticks)
unfolding mutex_lock_by
mutex_lock_by-Advance k t m none ticks =
    Advance-trans (owner-Advance k (update k.mutexes m (record (k.mutexes m) { owner = some t })))
      (set_result-Advance _ t ok)
mutex_lock_by-Advance k t m (some o) ticks =
    if_both (Advance k) (o == t) (λ _. set_result-Advance k t bad_state)
      (λ _.
        if_both (Advance k) (ticks == 0) (λ _. set_result-Advance k t timeout)
          (λ _. mutex_wait-Advance k m ticks))

mutex_lock_task-Advance :
    (k : Kernel) (current handle : Option ℕ) (ticks : ℕ)
    → Advance k (mutex_lock_task k current handle ticks)
unfolding mutex_lock_task
mutex_lock_task-Advance k none handle ticks = Advance-refl k
mutex_lock_task-Advance k (some t) none ticks =
    if_both (Advance k) (is_running (k.tasks t).state)
      (λ _. set_result-Advance k t invalid_argument) (λ _. Advance-refl k)
mutex_lock_task-Advance k (some t) (some m) ticks =
    if_both (Advance k) (not (is_running (k.tasks t).state)) (λ _. Advance-refl k)
      (λ _.
        if_both (Advance k) (not (mutex_is_valid k (some m)))
          (λ _. set_result-Advance k t invalid_argument)
          (λ _. mutex_lock_by-Advance k t m (k.mutexes m).owner ticks))

pub mutex_lock_current-Advance :
    (k : Kernel) (handle : Option ℕ) (ticks : ℕ) → Advance k (mutex_lock_current k handle ticks)
unfolding mutex_lock_current
mutex_lock_current-Advance k handle ticks = mutex_lock_task-Advance k k.current handle ticks

pub woken-Same : (k : Kernel) (u : ℕ) → Same k (wait_maybe_preempt (wait_make_ready k u ok) u)
woken-Same k u =
    Same-trans (wait_make_ready-Same k u ok) (wait_maybe_preempt-Same (wait_make_ready k u ok) u)

wake_owner-Same : (k : Kernel) (waiter : Option ℕ) → Same k (wake_owner k waiter)
unfolding wake_owner
wake_owner-Same k none = Same-refl k
wake_owner-Same k (some u) = woken-Same k u

-- The waiter is taken out and becomes the owner.
popped_owner-Advance :
    (k : Kernel) (m : ℕ)
    → (let (k', waiter) = wait_pop k (mutex_waiters m) in
        Advance k
          (record k' { mutexes = update k'.mutexes m (record (k'.mutexes m) { owner = waiter }) }))
popped_owner-Advance k m =
    let k' = (wait_pop k (mutex_waiters m)).0 in
    Advance-trans (Same-Advance (wait_pop-Same k (mutex_waiters m))) (
      owner-Advance k'
        (update k'.mutexes m (record (k'.mutexes m) { owner = (wait_pop k (mutex_waiters m)).1 })))

mutex_hand_over-Advance : (k : Kernel) (t m : ℕ) → Advance k (mutex_hand_over k t m)
unfolding mutex_hand_over
mutex_hand_over-Advance k t m =
    let (k', waiter) = wait_pop k (mutex_waiters m) in
    let owned = record k' {
      mutexes = update k'.mutexes m (record (k'.mutexes m) { owner = waiter });
    } in
    let told = set_result owned t ok in
    Advance-trans (Advance-trans (popped_owner-Advance k m) (set_result-Advance owned t ok)) (
      Same-Advance (
        Same-trans (mutex_waiters_changed-Same told)
          (wake_owner-Same (mutex_waiters_changed told) waiter)))

mutex_unlock_task-Advance :
    (k : Kernel) (current handle : Option ℕ) → Advance k (mutex_unlock_task k current handle)
unfolding mutex_unlock_task
mutex_unlock_task-Advance k none handle = Advance-refl k
mutex_unlock_task-Advance k (some t) none =
    if_both (Advance k) (is_running (k.tasks t).state)
      (λ _. set_result-Advance k t invalid_argument) (λ _. Advance-refl k)
mutex_unlock_task-Advance k (some t) (some m) =
    if_both (Advance k) (not (is_running (k.tasks t).state)) (λ _. Advance-refl k)
      (λ _.
        if_both (Advance k) (not (mutex_is_valid k (some m)))
          (λ _. set_result-Advance k t invalid_argument)
          (λ _.
            if_both (Advance k) (not (same_handle (k.mutexes m).owner (some t)))
              (λ _. set_result-Advance k t not_owner) (λ _. mutex_hand_over-Advance k t m)))

pub mutex_unlock_current-Advance :
    (k : Kernel) (handle : Option ℕ) → Advance k (mutex_unlock_current k handle)
unfolding mutex_unlock_current
mutex_unlock_current-Advance k handle = mutex_unlock_task-Advance k k.current handle

make_owner_ready-Same : (k : Kernel) (waiter : Option ℕ) → Same k (make_owner_ready k waiter)
unfolding make_owner_ready
make_owner_ready-Same k none = Same-refl k
make_owner_ready-Same k (some u) = wait_make_ready-Same k u ok

release_mutex-Advance :
    (t m : ℕ) (k : Kernel) (released : Bool) → AdvanceAfter k (release_mutex t m (k, released))
unfolding release_mutex
release_mutex-Advance t m k released =
    let (k', waiter) = wait_pop k (mutex_waiters m) in
    let owned = record k' {
      mutexes = update k'.mutexes m (record (k'.mutexes m) { owner = waiter });
    } in
    if_both (AdvanceAfter k) ((k.mutexes m).used && same_handle (k.mutexes m).owner (some t))
      (λ _.
        Advance-trans (popped_owner-Advance k m)
          (Same-Advance (make_owner_ready-Same owned waiter)))
      (λ _. Advance-refl k)

pub mutex_release_task-Advance : (k : Kernel) (t : ℕ) → Advance k (mutex_release_task k t)
unfolding mutex_release_task
mutex_release_task-Advance k t =
    let loop = for_each (indices max_mutexes) (release_mutex t) (k, false) in
    let released : Advance k loop.0 =
      for_each_keeps (AdvanceAfter k) (indices max_mutexes) (release_mutex t)
        (λ m s r. Advance-trans r (release_mutex-Advance t m s.0 s.1)) (Advance-refl k) in
    if_both (Advance k) loop.1
      (λ _. Advance-trans released (Same-Advance (mutex_waiters_changed-Same loop.0)))
      (λ _. released)
