-- ===== src/Wait/Links.antt =====
-- The wait queue operations keep the structural invariant.
use mini_rtos.Base.{
  ℕ, ◌≡◌, refl, true, false, some, if_both, ltb, arith, count-remove, count-insert_at,
}
use mini_rtos.Kernel.{Kernel, WaitList, is_blocked_object, same_wait_list}
use mini_rtos.Base.Sorted.{Sorted, Sorted-remove, Sorted-insert_at}
use mini_rtos.Invariant.{Linked, rerank, rewake, ByRank}
use mini_rtos.Wait.{wait_insert_by_priority, wait_unlink, lower_position}

-- os_WaitInsertByPriority, where the task's TCB already names the queue
pub wait_insert_by_priority-Linked :
    (k : Kernel) (w : WaitList) (t : ℕ)
    → Linked k
    → (k.tasks t).schedule_linked ≡ false
    → is_blocked_object (k.tasks t).state ≡ true
    → (k.tasks t).wait_list ≡ some w
    → Linked (wait_insert_by_priority k w t)
unfolding wait_insert_by_priority
wait_insert_by_priority-Linked k w t v l b e = record {
  ready_counted = λ u p. ground (arith, v.ready_counted u p);
  wait_counted = λ u x. ground (
    arith,
    v.wait_counted u x,
    v.wait_counted t x,
    count-insert_at u (k.waiters w)
        (lower_position k.tasks (k.tasks t).effective_priority (k.waiters w)) t,
    count-insert_at u (k.waiters x)
        (lower_position k.tasks (k.tasks t).effective_priority (k.waiters w)) t,
  );
  delay_counted = λ u c. ground (arith, v.delay_counted u c);
  wait_sorted = λ x.
      let tasks' = (wait_insert_by_priority k w t).tasks in
      let old = rerank v tasks' k.waiters (λ w. refl) (λ u w h. ground arith) in
      if_both (Sorted (ByRank tasks')) (same_wait_list x w)
        (λ _.
          unfold lower_position in
          Sorted-insert_at (ByRank tasks')
            (λ u. ltb (k.tasks u).effective_priority (k.tasks t).effective_priority) t
            (λ u n. ground arith) (λ u y. ground arith) (λ u x p q. omega arith) (k.waiters w)
            (old w))
        (λ _. old x);
  delay_sorted =
      rewake v (wait_insert_by_priority k w t).tasks (wait_insert_by_priority k w t).delayed_lists
        (λ d. refl) (λ u d h. ground arith);
  priority_bound = λ u. ground (arith, v.priority_bound u);
  bitmap_bound = v.bitmap_bound;
  bitmap_exact = v.bitmap_exact;
}

-- os_ListRemove of a waiting task
pub wait_unlink-Linked :
    (k : Kernel) (w : WaitList) (t : ℕ)
    → Linked k
    → (k.tasks t).schedule_linked ≡ true
    → is_blocked_object (k.tasks t).state ≡ true
    → (k.tasks t).wait_list ≡ some w
    → Linked (wait_unlink k w t)
unfolding wait_unlink
wait_unlink-Linked k w t v l b e = record {
  ready_counted = λ u p. ground (arith, v.ready_counted u p);
  wait_counted =
      λ u x. ground (arith, v.wait_counted u x, v.wait_counted t x, count-remove u (k.waiters x) t);
  delay_counted = λ u c. ground (arith, v.delay_counted u c);
  wait_sorted = λ x.
      let tasks' = (wait_unlink k w t).tasks in
      let old = rerank v tasks' k.waiters (λ w. refl) (λ u w h. ground arith) in
      if_both (Sorted (ByRank tasks')) (same_wait_list x w)
        (λ _. Sorted-remove (ByRank tasks') (k.waiters w) t (old w)) (λ _. old x);
  delay_sorted =
      rewake v (wait_unlink k w t).tasks (wait_unlink k w t).delayed_lists (λ d. refl)
        (λ u d h. ground arith);
  priority_bound = λ u. ground (arith, v.priority_bound u);
  bitmap_bound = v.bitmap_bound;
  bitmap_exact = v.bitmap_exact;
}
