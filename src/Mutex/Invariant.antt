-- ===== src/Mutex/Invariant.antt =====
-- Locking, unlocking and releasing mutexes keep the invariant of the kernel.
use mini_rtos.Base.{
  ℕ, ◌≡◌, refl, Bool, false, not, ◌&&◌, Option, none, some, ◌==◌, same_handle, if_both, for_each,
  for_each_keeps, indices, ◌∙◌,
}
use mini_rtos.Kernel.{
  Kernel, Mutex, max_tasks, ok, higher_priority_wakeup, is_running, max_mutexes, bad_state, timeout,
  invalid_argument, not_owner,
}
use mini_rtos.Invariant.{Linked, Inv, Waking}
use mini_rtos.Sched.Invariant.{sched_schedule-Inv}
use mini_rtos.Wait.{task_set_effective_priority, wait_pop}
use mini_rtos.Wait.Invariant.{
  wait_block_current-Inv, wait_make_ready-Inv, wait_maybe_preempt-Inv, Popped, wait_pop-Popped,
  wait_make_ready-current, wait_pop-current, set_result-Popped, set_result-Inv,
}
use mini_rtos.Wait.Priority.{
  Repriced, Repriced-refl, Repriced-trans, Repriced-Inv, Repriced-Waking,
  task_set_effective_priority-Linked, task_set_effective_priority-Repriced,
}
use mini_rtos.Mutex.{
  mutex_waiters_changed, inherit_passes, base_priorities, mutex_wait, mutex_lock_by,
  mutex_lock_task, mutex_lock_current, mutex_is_valid, mutex_hand_over, wake_owner,
  mutex_unlock_task, mutex_unlock_current, mutex_waiters, release_mutex, make_owner_ready,
  mutex_release_task,
}

record Keeps (k k' : Kernel) : Type 0 where
  linked : Linked k'
  repriced : Repriced k k'

-- os_MutexWaitersChanged changes effective priorities only, and keeps the structural invariant.
waiters_changed-Keeps : (k : Kernel) → Linked k → Keeps k (mutex_waiters_changed k)
unfolding mutex_waiters_changed
waiters_changed-Keeps k v =
    let desired = inherit_passes max_tasks k (base_priorities k) in
    for_each_keeps (Keeps k) (indices k.task_count)
      (λ t k'. task_set_effective_priority k' t (desired t))
      (λ t k' p. record {
        linked = task_set_effective_priority-Linked k' t (desired t) p.linked;
        repriced =
            Repriced-trans p.repriced (task_set_effective_priority-Repriced k' t (desired t));
      })
      (record { linked = v; repriced = Repriced-refl k })

-- On a kernel whose lists agree with its TCBs, os_MutexWaitersChanged changes no field of any TCB
-- but the effective priority, and leaves the current task, the delay lists, the tick, the
-- semaphores, queues and mutexes and the started flag as they were.
pub mutex_waiters_changed-Repriced : (k : Kernel) → Linked k → Repriced k (mutex_waiters_changed k)
mutex_waiters_changed-Repriced k v = (waiters_changed-Keeps k v).repriced

-- Recomputing the inherited priorities keeps the invariant, ...
pub mutex_waiters_changed-Inv : (k : Kernel) → Inv k → Inv (mutex_waiters_changed k)
mutex_waiters_changed-Inv k v =
    let s = waiters_changed-Keeps k v.linked in Repriced-Inv s.repriced s.linked v

-- ... also while a task is waking.
pub mutex_waiters_changed-Waking :
    (k : Kernel) (t : ℕ) → Waking k t → Waking (mutex_waiters_changed k) t
mutex_waiters_changed-Waking k t v =
    let s = waiters_changed-Keeps k v.linked in Repriced-Waking s.repriced s.linked t v

mutex_wait-Inv : (k : Kernel) (m ticks : ℕ) → Inv k → Inv (mutex_wait k m ticks)
unfolding mutex_wait
mutex_wait-Inv k m ticks v =
    let v' = mutex_waiters_changed-Inv _ (wait_block_current-Inv k (mutex_waiters m) 0 ticks v) in
    if_both Inv _ (λ _. sched_schedule-Inv _ higher_priority_wakeup false v') (λ _. v')

mutex_lock_by-Inv :
    (k : Kernel) (t m : ℕ) (owner : Option ℕ) (ticks : ℕ)
    → Inv k
    → Inv (mutex_lock_by k t m owner ticks)
unfolding mutex_lock_by
mutex_lock_by-Inv k t m none ticks v =
    set_result-Inv _ t ok (record { linked = v.linked; settled = v.settled })
mutex_lock_by-Inv k t m (some o) ticks v =
    if_both Inv (o == t) (λ _. set_result-Inv k t bad_state v)
      (λ _.
        if_both Inv (ticks == 0) (λ _. set_result-Inv k t timeout v)
          (λ _. mutex_wait-Inv k m ticks v))

mutex_lock_task-Inv :
    (k : Kernel) (current handle : Option ℕ) (ticks : ℕ)
    → Inv k
    → Inv (mutex_lock_task k current handle ticks)
unfolding mutex_lock_task
mutex_lock_task-Inv k none handle ticks v = v
mutex_lock_task-Inv k (some t) none ticks v =
    if_both Inv (is_running (k.tasks t).state) (λ _. set_result-Inv k t invalid_argument v) (λ _. v)
mutex_lock_task-Inv k (some t) (some m) ticks v =
    if_both Inv (not (is_running (k.tasks t).state)) (λ _. v)
      (λ _.
        if_both Inv (not (mutex_is_valid k (some m))) (λ _. set_result-Inv k t invalid_argument v)
          (λ _. mutex_lock_by-Inv k t m (k.mutexes m).owner ticks v))

-- os_MutexLockCurrent keeps the invariant.
pub mutex_lock_current-Inv :
    (k : Kernel) (handle : Option ℕ) (ticks : ℕ) → Inv k → Inv (mutex_lock_current k handle ticks)
unfolding mutex_lock_current
mutex_lock_current-Inv k handle ticks v = mutex_lock_task-Inv k k.current handle ticks v

own-Popped :
    (k : Kernel) (o : Option ℕ) (mutexes : ℕ → Mutex)
    → Popped k o
    → Popped (record k { mutexes = mutexes }) o
own-Popped k none mutexes v = record { linked = v.linked; settled = v.settled }
own-Popped k (some t) mutexes v = record {
  linked = v.linked;
  settled = v.settled;
  popped = v.popped;
}

waiters_changed-Popped :
    (k : Kernel) (o : Option ℕ) → Popped k o → Popped (mutex_waiters_changed k) o
waiters_changed-Popped k none v = mutex_waiters_changed-Inv k v
waiters_changed-Popped k (some t) v = mutex_waiters_changed-Waking k t v

wake_owner-Inv : (k : Kernel) (o : Option ℕ) → Popped k o → Inv (wake_owner k o)
unfolding wake_owner
wake_owner-Inv k none v = v
wake_owner-Inv k (some t) v = wait_maybe_preempt-Inv _ t (wait_make_ready-Inv k t ok v)

mutex_hand_over-Inv : (k : Kernel) (t m : ℕ) → Inv k → Inv (mutex_hand_over k t m)
unfolding mutex_hand_over
mutex_hand_over-Inv k t m v =
    let o = (wait_pop k (mutex_waiters m)).1 in
    wake_owner-Inv _ o (
      waiters_changed-Popped _ o
        (set_result-Popped _ t o ok (own-Popped _ o _ (wait_pop-Popped k (mutex_waiters m) v))))

mutex_unlock_task-Inv :
    (k : Kernel) (current handle : Option ℕ) → Inv k → Inv (mutex_unlock_task k current handle)
unfolding mutex_unlock_task
mutex_unlock_task-Inv k none handle v = v
mutex_unlock_task-Inv k (some t) none v =
    if_both Inv (is_running (k.tasks t).state) (λ _. set_result-Inv k t invalid_argument v) (λ _. v)
mutex_unlock_task-Inv k (some t) (some m) v =
    if_both Inv (not (is_running (k.tasks t).state)) (λ _. v)
      (λ _.
        if_both Inv (not (mutex_is_valid k (some m))) (λ _. set_result-Inv k t invalid_argument v)
          (λ _.
            if_both Inv (not (same_handle (k.mutexes m).owner (some t)))
              (λ _. set_result-Inv k t not_owner v) (λ _. mutex_hand_over-Inv k t m v)))

-- os_MutexUnlockCurrent keeps the invariant.
pub mutex_unlock_current-Inv :
    (k : Kernel) (handle : Option ℕ) → Inv k → Inv (mutex_unlock_current k handle)
unfolding mutex_unlock_current
mutex_unlock_current-Inv k handle v = mutex_unlock_task-Inv k k.current handle v

make_owner_ready-Inv : (k : Kernel) (o : Option ℕ) → Popped k o → Inv (make_owner_ready k o)
unfolding make_owner_ready
make_owner_ready-Inv k none v = v
make_owner_ready-Inv k (some t) v = wait_make_ready-Inv k t ok v

make_owner_ready-current : (k : Kernel) (o : Option ℕ) → (make_owner_ready k o).current ≡ k.current
unfolding make_owner_ready
make_owner_ready-current k none = refl
make_owner_ready-current k (some t) = wait_make_ready-current k t ok

abbrev Runs : Option ℕ → Kernel × Bool → Type 0
Runs c s = Inv s.0 × (s.0.current ≡ c)

release_mutex-Runs :
    (c : Option ℕ) (t m : ℕ) (s : Kernel × Bool) → Runs c s → Runs c (release_mutex t m s)
unfolding release_mutex
release_mutex-Runs c t m (k, released) (v, e) =
    let o = (wait_pop k (mutex_waiters m)).1 in
    if_both (Runs c) ((k.mutexes m).used && same_handle (k.mutexes m).owner (some t))
      (λ _. (
        make_owner_ready-Inv _ o (own-Popped _ o _ (wait_pop-Popped k (mutex_waiters m) v)),
        make_owner_ready-current _ o ∙ wait_pop-current k (mutex_waiters m) ∙ e,
      ))
      (λ _. (v, e))

release_all-Runs :
    (k : Kernel) (t : ℕ)
    → Inv k
    → Runs k.current (for_each (indices max_mutexes) (release_mutex t) (k, false))
release_all-Runs k t v =
    for_each_keeps (Runs k.current) (indices max_mutexes) (release_mutex t)
      (release_mutex-Runs k.current t) {s = (k, false)} (v, refl)

abbrev InvRunning : Option ℕ → Kernel → Type 0
InvRunning c k = Inv k × (k.current ≡ c)

release_task-InvRunning :
    (k : Kernel) (t : ℕ) → Inv k → InvRunning k.current (mutex_release_task k t)
unfolding mutex_release_task
release_task-InvRunning k t v =
    let (v', e) = release_all-Runs k t v in
    if_both (InvRunning k.current) (for_each (indices max_mutexes) (release_mutex t) (k, false)).1
      (λ _.
        (mutex_waiters_changed-Inv _ v', (mutex_waiters_changed-Repriced _ v'.linked).current ∙ e))
      (λ _. (v', e))

-- os_MutexReleaseTask keeps the invariant.
pub mutex_release_task-Inv : (k : Kernel) (t : ℕ) → Inv k → Inv (mutex_release_task k t)
mutex_release_task-Inv k t v = (release_task-InvRunning k t v).0

pub mutex_release_task-current :
    (k : Kernel) (t : ℕ) → Inv k → (mutex_release_task k t).current ≡ k.current
mutex_release_task-current k t v = (release_task-InvRunning k t v).1
