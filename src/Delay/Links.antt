-- ===== src/Delay/Links.antt =====
-- The delay list operations keep the structural invariant.
use mini_rtos.Base.{
  ℕ, ◌≡◌, refl, true, false, not, Option, none, some, ◌==◌, if◌then◌else◌, if_both, ltb, arith,
  count-remove, is_none, ◌||◌, Bool-cases, inl, inr, count-insert_at,
}
use mini_rtos.Kernel.{Kernel}
use mini_rtos.Base.Sorted.{Sorted, Sorted-remove, Sorted-insert_at}
use mini_rtos.Invariant.{Linked, rerank, rewake, ByWake}
use mini_rtos.Delay.{delay_list_remove, unlink_delay, link_delay, delay_list_insert, later_position}

unlink_delay-Linked :
    (k : Kernel) (t d : ℕ)
    → Linked k
    → (k.tasks t).delay_linked ≡ true
    → (k.tasks t).delay_list ≡ some d
    → Linked (unlink_delay k t (some d))
unfolding unlink_delay
unlink_delay-Linked k t d v l e = record {
  ready_counted = λ u p. ground (arith, v.ready_counted u p);
  wait_counted = λ u w. ground (arith, v.wait_counted u w);
  delay_counted = λ u c.
      ground
        (arith, v.delay_counted u c, v.delay_counted t d, count-remove u (k.delayed_lists d) t);
  wait_sorted =
      rerank v (unlink_delay k t (some d)).tasks (unlink_delay k t (some d)).waiters (λ w. refl)
        (λ u w h. ground arith);
  delay_sorted = λ c.
      let R = ByWake (unlink_delay k t (some d)).tasks in
      let old =
        rewake v (unlink_delay k t (some d)).tasks k.delayed_lists (λ d. refl)
          (λ u d h. ground arith) in
      if_both (Sorted R) (c == d) (λ _. Sorted-remove R (k.delayed_lists d) t (old d)) (λ _. old c);
  priority_bound = λ u. ground (arith, v.priority_bound u);
  bitmap_bound = v.bitmap_bound;
  bitmap_exact = v.bitmap_exact;
}

unlink_delay-any :
    (k : Kernel) (t : ℕ) (d : Option ℕ)
    → Linked k
    → (k.tasks t).delay_linked ≡ true
    → (k.tasks t).delay_list ≡ d
    → Linked (unlink_delay k t d)
unfolding unlink_delay
unlink_delay-any k t none v l e = v
unlink_delay-any k t (some d) v l e = unlink_delay-Linked k t d v l e

-- os_TimeDelayListRemove keeps the structural invariant.
pub delay_list_remove-Linked : (k : Kernel) (t : ℕ) → Linked k → Linked (delay_list_remove k t)
unfolding delay_list_remove
delay_list_remove-Linked k t v = elim (Bool-cases (k.tasks t).delay_linked) [
  | inl l ↦ rw l (unlink_delay-any k t (k.tasks t).delay_list v l refl)
  | inr l ↦ rw l v
]

pub link_delay-Linked :
    (k : Kernel) (t target : ℕ)
    → Linked k
    → (k.tasks t).delay_linked ≡ false
    → Linked (link_delay k t target)
unfolding link_delay
link_delay-Linked k t target v l = record {
  ready_counted = λ u p. ground (arith, v.ready_counted u p);
  wait_counted = λ u w. ground (arith, v.wait_counted u w);
  delay_counted = λ u c. grind (arith, v.delay_counted, count-insert_at);
  wait_sorted =
      rerank v (link_delay k t target).tasks (link_delay k t target).waiters (λ w. refl)
        (λ u w h. ground arith);
  delay_sorted = λ c.
      let d = if ltb target k.tick then k.px_overflow_delayed else k.px_delayed in
      let tasks' = (link_delay k t target).tasks in
      let old = rewake v tasks' k.delayed_lists (λ d. refl) (λ u d h. ground arith) in
      if_both (Sorted (ByWake tasks')) (c == d)
        (λ _.
          unfold later_position in
          Sorted-insert_at (ByWake tasks') (λ u. ltb target (tasks' u).wake_tick) t
            (λ u n. ground arith) (λ u y. ground arith) (λ u x p q. omega arith) (k.delayed_lists d)
            (old d))
        (λ _. old c);
  priority_bound = λ u. ground (arith, v.priority_bound u);
  bitmap_bound = v.bitmap_bound;
  bitmap_exact = v.bitmap_exact;
}

pub delay_list_remove-current : (k : Kernel) (t : ℕ) → (delay_list_remove k t).current ≡ k.current
unfolding delay_list_remove
delay_list_remove-current k t = ground arith

pub delay_list_insert-current :
    (k : Kernel) (t target : ℕ) → (delay_list_insert k t target).current ≡ k.current
unfolding delay_list_insert
delay_list_insert-current k t target = ground (arith, delay_list_remove-current k t)

-- os_TimeDelayListRemove writes only the delay node of its task.
pub delay_list_remove-other :
    (k : Kernel) (t u : ℕ) → (u == t) ≡ false → (delay_list_remove k t).tasks u ≡ k.tasks u
unfolding delay_list_remove
delay_list_remove-other k t u o = ground arith

-- Where a linked node names its list, os_TimeDelayListRemove unlinks it.
pub delay_list_remove_self :
    (k : Kernel) (t : ℕ)
    → (not (k.tasks t).delay_linked || not (is_none (k.tasks t).delay_list)) ≡ true
    → (delay_list_remove k t).tasks t ≡ record (k.tasks t) {
      delay_linked = false;
      delay_list = if (k.tasks t).delay_linked then none else (k.tasks t).delay_list;
    }
unfolding delay_list_remove
delay_list_remove_self k t n = ground arith
