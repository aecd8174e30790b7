-- ===== src/Wait/Priority.antt =====
-- A change of effective priority keeps the structural invariant and writes nothing else to a TCB.
use mini_rtos.Base.{
  ℕ, ◌<◌, ◌≡◌, refl, Bool, true, false, ◌&&◌, ◌||◌, Option, none, some, ◌==◌, arith, if_both, leb,
  ◌∙◌,
}
use mini_rtos.Kernel.{
  Task, Kernel, WaitList, modify, is_ready, is_blocked_object, priority_count, idle_priority,
}
use mini_rtos.Invariant.{Linked, in_wait, modify-Linked, SameLinks, Inv, Waking}
use mini_rtos.Ready.{ready_enqueue, ready_remove}
use mini_rtos.Ready.Links.{ready_enqueue-Linked, ready_remove-Linked}
use mini_rtos.Wait.{
  wait_insert_by_priority, wait_unlink, move_ready, move_waiting, task_set_effective_priority,
}
use mini_rtos.Wait.Links.{wait_insert_by_priority-Linked, wait_unlink-Linked}

-- `k'` differs from `k` in effective priorities, ready queues and wait queues only.
pub record Repriced (k k' : Kernel) : Type 0 where
  pub tasks :
      (u : ℕ)
      → k'.tasks u ≡ record (k.tasks u) { effective_priority = (k'.tasks u).effective_priority }
  pub current : k'.current ≡ k.current
  pub mutexes : k'.mutexes ≡ k.mutexes
  pub started : k'.started ≡ k.started
  pub delayed_lists : k'.delayed_lists ≡ k.delayed_lists
  pub px_delayed : k'.px_delayed ≡ k.px_delayed
  pub tick : k'.tick ≡ k.tick
  pub semaphores : k'.semaphores ≡ k.semaphores
  pub queues : k'.queues ≡ k.queues

abbrev raise : ℕ → Task → Task
raise priority x = record x { effective_priority = priority }

raise-SameLinks :
    (x : Task) (priority : ℕ)
    → priority < priority_count
    → (x.schedule_linked && is_ready x.state) ≡ false
    → ((w : WaitList) → in_wait x w ≡ false)
    → SameLinks x (raise priority x)
raise-SameLinks x priority h off out = record {
  same_ready = λ p. ground arith;
  same_wait = λ w. refl;
  same_delay = λ d. refl;
  same_rank = λ w i. absurd (ground (arith, out w));
  same_wake = λ d i. refl;
  bound = h;
}

module _ (k : Kernel) (t priority : ℕ) (v : Linked k) (h : priority < priority_count) where
  raised-Linked :
      is_ready (k.tasks t).state ≡ false
      → ((w : WaitList) → in_wait (k.tasks t) w ≡ false)
      → Linked (modify k t (raise priority))
  raised-Linked n out =
      modify-Linked k t (raise priority) v
        (raise-SameLinks (k.tasks t) priority h (ground arith) out)

  requeued-Linked :
      (w : WaitList)
      → (k.tasks t).wait_list ≡ some w
      → (is_blocked_object (k.tasks t).state && (k.tasks t).schedule_linked) ≡ true
      → Linked (wait_insert_by_priority (modify (wait_unlink k w t) t (raise priority)) w t)
  requeued-Linked w e b =
      let k' = wait_unlink k w t in
      let l = wait_unlink-Linked k w t v (ground arith) (ground arith) e in
      wait_insert_by_priority-Linked (modify k' t (raise priority)) w t
        (modify-Linked k' t (raise priority) l (
          raise-SameLinks (k'.tasks t) priority h (unfold wait_unlink in ground arith)
            (λ x. unfold wait_unlink in ground arith)))
        (unfold wait_unlink in ground arith) (unfold wait_unlink in ground arith)
        (unfold wait_unlink in ground arith)

  move_waiting-Linked :
      (w : Option WaitList)
      → is_ready (k.tasks t).state ≡ false
      → (k.tasks t).wait_list ≡ w
      → Linked (move_waiting k t priority w)
  unfolding move_waiting
  move_waiting-Linked none n e = raised-Linked n (λ w. ground arith)
  move_waiting-Linked (some w) n e =
      if_both Linked (is_blocked_object (k.tasks t).state && (k.tasks t).schedule_linked)
        (requeued-Linked w e) (λ o. raised-Linked n (λ x. ground arith))

move_ready-Linked :
    (k : Kernel) (done : Bool) (t priority : ℕ)
    → Linked k
    → priority < priority_count
    → (done ≡ true → (k.tasks t).schedule_linked ≡ false)
    → Linked (move_ready (k, done) t priority)
unfolding move_ready
move_ready-Linked k false t priority v h off = v
move_ready-Linked k true t priority v h off = ready_enqueue-Linked (modify k t (raise priority)) t (
    modify-Linked k t (raise priority) v (
      raise-SameLinks (k.tasks t) priority h (ground (arith, off refl))
        (λ w. ground (arith, off refl))))

ready_remove-off :
    (k : Kernel) (t : ℕ)
    → (ready_remove k t).1 ≡ true
    → ((ready_remove k t).0.tasks t).schedule_linked ≡ false
unfolding ready_remove
ready_remove-off k t e = ground arith

-- os_TaskSetEffectivePriority keeps the structural invariant.
pub task_set_effective_priority-Linked :
    (k : Kernel) (t priority : ℕ) → Linked k → Linked (task_set_effective_priority k t priority)
unfolding task_set_effective_priority
task_set_effective_priority-Linked k t priority v =
    if_both Linked
      (leb priority idle_priority
        || leb priority_count priority
        || (k.tasks t).effective_priority == priority)
      (λ _. v)
      (λ e.
        let h : priority < priority_count = ground arith in
        if_both Linked (is_ready (k.tasks t).state)
          (λ r.
            move_ready-Linked (ready_remove k t).0 (ready_remove k t).1 t priority
              (ready_remove-Linked k t v r) h (ready_remove-off k t))
          (λ n. move_waiting-Linked k t priority v h (k.tasks t).wait_list n refl))

-- It writes nothing but the effective priority of its task.
pub task_set_effective_priority-Repriced :
    (k : Kernel) (t priority : ℕ) → Repriced k (task_set_effective_priority k t priority)
unfolding task_set_effective_priority ready_remove ready_enqueue wait_insert_by_priority wait_unlink
task_set_effective_priority-Repriced k t priority = record {
  tasks = λ u. ground arith;
  current = ground arith;
  mutexes = ground arith;
  started = ground arith;
  delayed_lists = ground arith;
  px_delayed = ground arith;
  tick = ground arith;
  semaphores = ground arith;
  queues = ground arith;
}

pub Repriced-refl : (k : Kernel) → Repriced k k
Repriced-refl k = record {
  tasks = λ u. refl;
  current = refl;
  mutexes = refl;
  started = refl;
  delayed_lists = refl;
  px_delayed = refl;
  tick = refl;
  semaphores = refl;
  queues = refl;
}

pub Repriced-trans : {k k' k'' : Kernel} → Repriced k k' → Repriced k' k'' → Repriced k k''
Repriced-trans r s = record {
  tasks = λ u. ground (arith, r.tasks u, s.tasks u);
  current = s.current ∙ r.current;
  mutexes = s.mutexes ∙ r.mutexes;
  started = s.started ∙ r.started;
  delayed_lists = s.delayed_lists ∙ r.delayed_lists;
  px_delayed = s.px_delayed ∙ r.px_delayed;
  tick = s.tick ∙ r.tick;
  semaphores = s.semaphores ∙ r.semaphores;
  queues = s.queues ∙ r.queues;
}

module _ {k k' : Kernel} (r : Repriced k k') (l : Linked k') where
  pub Repriced-Inv : Inv k → Inv k'
  Repriced-Inv v = record {
    linked = l;
    settled = λ t. ground (arith, v.settled t, r.tasks t, r.current);
  }

  pub Repriced-Waking : (t : ℕ) → Waking k t → Waking k' t
  Repriced-Waking t v = record {
    linked = l;
    settled = λ u o. ground (arith, v.settled u, r.tasks u, r.current);
    popped = ground (arith, v.popped, r.tasks t, r.current);
  }
