-- ===== src/Delay/Order.antt =====
-- The order in which sleeping tasks are queued.
use mini_rtos.Base.{ℕ, ◌≡◌, refl, false, ltb, arith, if◌then◌else◌}
use mini_rtos.Base.Placement.{Placed, insert_at-Placed}
use mini_rtos.Kernel.{Kernel}
use mini_rtos.Invariant.{Linked, ByWake, rewake}
use mini_rtos.Delay.{link_delay, later_position, delay_list_insert}

-- The list that a wake tick belongs to: the overflow list where it lies behind the counter.
abbrev pub list_for : Kernel → ℕ → ℕ
list_for k target = if ltb target k.tick then k.px_overflow_delayed else k.px_delayed

-- On a kernel whose lists agree with its TCBs and are in order, os_TimeDelayListInsert of a task
-- that is in no delay list puts it into the overflow list where its wake tick lies behind the
-- counter and into the current list otherwise, behind all tasks that wake at the same tick or
-- before and in front of all that wake later.
pub delay_list_insert-Placed :
    (k : Kernel) (t target : ℕ)
    → Linked k
    → (k.tasks t).delay_linked ≡ false
    → let k' = delay_list_insert k t target in
      Placed
        (λ u. ltb target (k'.tasks u).wake_tick)
        t
        (k.delayed_lists (list_for k target))
        (k'.delayed_lists (list_for k target))
unfolding delay_list_insert link_delay later_position
delay_list_insert-Placed k t target v l =
    let tasks' = (link_delay k t target).tasks in
    simp l (
      ground (
        arith,
        insert_at-Placed (ByWake tasks') (λ u. ltb target (tasks' u).wake_tick) t
            (λ u x p q. ground arith) (k.delayed_lists (list_for k target))
            (rewake v tasks' k.delayed_lists (λ d. refl) (λ u d h. ground arith)
              (list_for k target)),
      ))
