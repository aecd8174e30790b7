-- ===== src/Delay/Invariant.antt =====
-- Delays keep the invariant of the kernel.
use mini_rtos.Base.{ℕ, ◌≡◌, refl, false, not, Option, none, some, ◌==◌, arith, if_both, ◌∙◌}
use mini_rtos.Kernel.{Task, Kernel, modify, is_running, blocked_delay, blocked}
use mini_rtos.Invariant.{modify-Linked, SameLinks, Inv, InvAfter, Parked}
use mini_rtos.Sched.Invariant.{sched_current_blocked-Inv, sched_yield_current-Inv, current-runs}
use mini_rtos.Delay.{delay_list_insert, link_delay, delay_task, time_delay_current}
use mini_rtos.Delay.Links.{link_delay-Linked, delay_list_insert-current}

-- The current task, its state just set to BLOCKED_DELAY, settles when its delay node is linked.
delay-Parked :
    (k : Kernel) (t target : ℕ)
    → Inv k
    → k.current ≡ some t
    → Parked (delay_list_insert (modify k t λ x. record x { state = blocked_delay }) t target)
unfolding delay_list_insert
delay-Parked k t target v c =
    let f : Task → Task = λ x. record x { state = blocked_delay } in
    let r = current-runs k t v c in
    let same : SameLinks (k.tasks t) (f (k.tasks t)) = record {
      same_ready = λ p. ground (arith, v.settled t);
      same_wait = λ w. ground (arith, v.settled t);
      same_delay = λ d. refl;
      same_rank = λ w h. refl;
      same_wake = λ d h. refl;
      bound = v.linked.priority_bound t;
    } in
    let off : ((modify k t f).tasks t).delay_linked ≡ false = ground (arith, v.settled t) in
    rw off (record {
      linked = link_delay-Linked (modify k t f) t target (modify-Linked k t f v.linked same) off;
      settled = λ u. unfold link_delay in ground (arith, v.settled u, v.settled t);
    })

delay_task-Inv :
    (k : Kernel) (current : Option ℕ) (ticks : ℕ)
    → Inv k
    → k.current ≡ current
    → Inv (delay_task k current ticks).0
unfolding delay_task
delay_task-Inv k none ticks v c = v
delay_task-Inv k (some t) ticks v c =
    if_both InvAfter (not (is_running (k.tasks t).state)) (λ _. v)
      (λ _.
        if_both InvAfter (ticks == 0) (λ _. sched_yield_current-Inv k v)
          (λ _.
            sched_current_blocked-Inv _ t blocked (delay-Parked k t _ v c)
              (delay_list_insert-current _ t _ ∙ c)))

-- os_TimeDelayCurrent keeps the invariant.
pub time_delay_current-Inv : (k : Kernel) (ticks : ℕ) → Inv k → Inv (time_delay_current k ticks).0
unfolding time_delay_current
time_delay_current-Inv k ticks v = delay_task-Inv k k.current ticks v refl
