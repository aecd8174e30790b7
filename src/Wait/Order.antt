-- ===== src/Wait/Order.antt =====
-- The order in which waiters of an object are queued and woken.
use mini_rtos.Base.{
  ℕ, ◌<◌, ◌≤◌, ◌≡◌, true, some, List, [], ◌∷◌, ltb, arith, count, head?, inl, inr, Bool-cases, ◌==◌,
}
use mini_rtos.Base.Placement.{Placed, AllOf-member, insert_at-Placed}
use mini_rtos.Base.Sorted.{Sorted}
use mini_rtos.Kernel.{Task, Kernel, WaitList}
use mini_rtos.Invariant.{Linked, ByRank, in_wait}
use mini_rtos.Wait.{wait_insert_by_priority, lower_position, wait_pop}

-- On a kernel whose lists agree with its TCBs and are in order, os_WaitInsertByPriority cuts the
-- wait queue in two and puts its task between them: behind all waiters of at least its effective
-- priority and in front of all of a lower one.
pub wait_insert_by_priority-Placed :
    (k : Kernel) (w : WaitList) (t : ℕ)
    → Linked k
    → Placed
        (λ u. ltb (k.tasks u).effective_priority (k.tasks t).effective_priority)
        t
        (k.waiters w)
        ((wait_insert_by_priority k w t).waiters w)
unfolding wait_insert_by_priority lower_position
wait_insert_by_priority-Placed k w t v = ground (
  arith,
  insert_at-Placed (ByRank k.tasks)
      (λ u. ltb (k.tasks u).effective_priority (k.tasks t).effective_priority) t
      (λ x y s r. ground arith) (k.waiters w) (v.wait_sorted w),
)

head-first :
    (tasks : ℕ → Task) (xs : List ℕ) (u v : ℕ)
    → Sorted (ByRank tasks) xs
    → head? xs ≡ some u
    → 0 < count v xs
    → (tasks v).effective_priority ≤ (tasks u).effective_priority
head-first tasks [] u v s e h = absurd (ground arith)
head-first tasks (x ∷ xs) u v s e h = elim (Bool-cases (x == v)) [
  | inl y ↦ ground arith
  | inr n ↦
      let below = AllOf-member (ByRank tasks x) xs v (ground arith) s.0 in ground (arith, below)
]

-- On a kernel whose lists agree with its TCBs and are in order, the task that os_WaitPop takes is
-- outranked by no task whose TCB says that it waits in that queue.
pub wait_pop-highest :
    (k : Kernel) (w : WaitList) (u v : ℕ)
    → Linked k
    → (wait_pop k w).1 ≡ some u
    → in_wait (k.tasks v) w ≡ true
    → (k.tasks v).effective_priority ≤ (k.tasks u).effective_priority
unfolding wait_pop
wait_pop-highest k w u v l e i =
    head-first k.tasks (k.waiters w) u v (l.wait_sorted w) e (ground (arith, l.wait_counted v w))
