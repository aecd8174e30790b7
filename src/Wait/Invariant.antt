-- ===== src/Wait/Invariant.antt =====
-- Blocking on an object and waking keep the invariant of the kernel.
use mini_rtos.Base.{
  ℕ, ◌≡◌, refl, Bool, true, false, not, ◌||◌, Option, none, some, List, [], ◌∷◌, arith, if_both,
  ltb, is_none, ◌∙◌, head?,
}
use mini_rtos.Kernel.{
  Kernel, Status, WaitList, modify, is_running, blocked, same_wait_list, is_no_wait,
  is_blocked_object, higher_priority_wakeup,
}
use mini_rtos.Base.Sorted.{Sorted, Sorted-tail}
use mini_rtos.Invariant.{
  Linked, rerank, rewake, ByRank, modify-Linked, SameLinks, Inv, InvAfter, Parked, Waking, fits,
}
use mini_rtos.Sched.Invariant.{sched_current_blocked-Inv, current-runs, sched_schedule-Inv}
use mini_rtos.Ready.{ready_enqueue}
use mini_rtos.Sched.Arrival.{ready_enqueue-Inv}
use mini_rtos.Delay.{delay_list_insert, delay_list_remove, link_delay}
use mini_rtos.Delay.Links.{
  link_delay-Linked, delay_list_insert-current, delay_list_remove-Linked, delay_list_remove-current,
  delay_list_remove-other, delay_list_remove_self,
}
use mini_rtos.Wait.{
  wait_insert_by_priority, waiting, block_until, block_task, wait_block, wait_block_current,
  wait_pop, wait_make_ready, woken, wait_maybe_preempt, outranks_current,
}
use mini_rtos.Wait.Links.{wait_insert_by_priority-Linked}

-- The task queued, its delay node still off.
record Queued (k : Kernel) (t : ℕ) : Type 0 where
  linked : Linked k
  settled : (u : ℕ) → fits (k.tasks u) false ≡ true
  off : (k.tasks t).delay_linked ≡ false
  waits : is_blocked_object (k.tasks t).state ≡ true
  current : k.current ≡ some t

queue-Queued :
    (k : Kernel) (t : ℕ) (w : WaitList) (buffer deadline : ℕ)
    → Inv k
    → k.current ≡ some t
    → is_no_wait w.kind ≡ false
    → Queued (wait_insert_by_priority (modify k t (waiting w buffer deadline)) w t) t
queue-Queued k t w buffer deadline v c n =
    let r = current-runs k t v c in
    let f = waiting w buffer deadline in
    let same : SameLinks (k.tasks t) (f (k.tasks t)) = record {
      same_ready = λ p. ground (arith, v.settled t);
      same_wait = λ w. ground (arith, v.settled t);
      same_delay = λ d. refl;
      same_rank = λ w h. refl;
      same_wake = λ d h. refl;
      bound = v.linked.priority_bound t;
    } in
    record {
      linked =
          wait_insert_by_priority-Linked (modify k t f) w t (modify-Linked k t f v.linked same)
            (ground (arith, v.settled t)) (ground arith) (ground arith);
      settled = λ u. unfold wait_insert_by_priority in ground (arith, v.settled u, v.settled t);
      off = unfold wait_insert_by_priority in ground (arith, v.settled t);
      waits = unfold wait_insert_by_priority in ground arith;
      current = unfold wait_insert_by_priority in c;
    }

-- Linking its delay node, or clearing it, leaves every task settled.
timed-Parked : (k : Kernel) (t deadline : ℕ) → Queued k t → Parked (delay_list_insert k t deadline)
unfolding delay_list_insert
timed-Parked k t deadline q = rw q.off (record {
  linked = link_delay-Linked k t deadline q.linked q.off;
  settled = λ u. unfold link_delay in ground (arith, q.settled u, q.settled t, q.waits);
})

untimed-Parked :
    (k : Kernel) (t : ℕ)
    → Queued k t
    → Parked (modify k t λ x. record x { delay_list = none; delay_linked = false })
untimed-Parked k t q = record {
  linked =
      modify-Linked k t (λ x. record x { delay_list = none; delay_linked = false }) q.linked
        (record {
          same_ready = λ p. refl;
          same_wait = λ w. refl;
          same_delay = λ d. ground (arith, q.off);
          same_rank = λ w h. refl;
          same_wake = λ d h. refl;
          bound = q.linked.priority_bound t;
        });
  settled = λ u. ground (arith, q.settled u, q.settled t, q.off);
}

block_until-Inv :
    (k : Kernel) (t : ℕ) (w : WaitList) (buffer deadline : ℕ) (finite : Bool)
    → Inv k
    → k.current ≡ some t
    → is_no_wait w.kind ≡ false
    → Inv (block_until k t w buffer deadline finite).0
unfolding block_until
block_until-Inv k t w buffer deadline true v c n =
    let q = queue-Queued k t w buffer deadline v c n in
    sched_current_blocked-Inv _ t blocked (timed-Parked _ t deadline q)
      (delay_list_insert-current _ t deadline ∙ q.current)
block_until-Inv k t w buffer deadline false v c n =
    let q = queue-Queued k t w buffer deadline v c n in
    sched_current_blocked-Inv _ t blocked (untimed-Parked _ t q) q.current

wait_block-Inv :
    (k : Kernel) (current : Option ℕ) (w : WaitList) (buffer ticks : ℕ)
    → Inv k
    → k.current ≡ current
    → Inv (wait_block k current w buffer ticks).0
unfolding wait_block
wait_block-Inv k none w buffer ticks v c = v
wait_block-Inv k (some t) w buffer ticks v c =
    if_both InvAfter (not (is_running (k.tasks t).state) || is_no_wait w.kind) (λ _. v)
      (λ e. unfold block_task in block_until-Inv k t w buffer _ _ v c (ground arith))

-- os_WaitBlockCurrent keeps the invariant.
pub wait_block_current-Inv :
    (k : Kernel) (w : WaitList) (buffer ticks : ℕ)
    → Inv k
    → Inv (wait_block_current k w buffer ticks).0
unfolding wait_block_current
wait_block_current-Inv k w buffer ticks v = wait_block-Inv k k.current w buffer ticks v refl

-- os_WaitPop of a nonempty queue leaves its first task waking.
pub wait_pop-Waking :
    (k : Kernel) (w : WaitList) (t : ℕ) (ts : List ℕ)
    → Inv k
    → k.waiters w ≡ t ∷ ts
    → Waking (wait_pop k w).0 t
unfolding wait_pop
wait_pop-Waking k w t ts v e = record {
  linked = record {
    ready_counted = λ u p. ground (arith, v.linked.ready_counted u p, v.linked.wait_counted t w);
    wait_counted = λ u x. ground (
      arith,
      v.linked.wait_counted u x,
      v.linked.wait_counted u w,
      v.linked.wait_counted t w,
      v.linked.wait_counted t x,
    );
    delay_counted = λ u d. ground (arith, v.linked.delay_counted u d);
    wait_sorted = λ x.
        let tasks' = (wait_pop k w).0.tasks in
        let old = rerank v.linked tasks' k.waiters (λ w. refl) (λ u w h. ground arith) in
        if_both (Sorted (ByRank tasks')) (same_wait_list x w)
          (λ _. Sorted-tail (ByRank tasks') (k.waiters w) (old w)) (λ _. old x);
    delay_sorted =
        rewake v.linked (wait_pop k w).0.tasks (wait_pop k w).0.delayed_lists (λ d. ground arith)
          (λ u d h. ground arith);
    priority_bound = λ u. ground (arith, v.linked.priority_bound u);
    bitmap_bound = ground (arith, v.linked.bitmap_bound);
    bitmap_exact = λ p h. ground (arith, v.linked.bitmap_exact p h);
  };
  settled = λ u o. ground (arith, v.settled u);
  popped = ground (arith, v.settled t, v.linked.wait_counted t w);
}

-- os_WaitMakeReady of a waking task restores the invariant.
pub wait_make_ready-Inv :
    (k : Kernel) (t : ℕ) (result : Status) → Waking k t → Inv (wait_make_ready k t result)
unfolding wait_make_ready
wait_make_ready-Inv k t result v =
    let skip : (not (is_blocked_object (k.tasks t).state) || (k.tasks t).schedule_linked) ≡ false =
      ground (arith, v.popped) in
    let named : (not (k.tasks t).delay_linked || not (is_none (k.tasks t).delay_list)) ≡ true =
      ground (arith, v.popped) in
    let k' = delay_list_remove k t in
    let self = delay_list_remove_self k t named in
    let links = delay_list_remove-Linked k t v.linked in
    let same : SameLinks (k'.tasks t) (woken result (k'.tasks t)) = record {
      same_ready = λ p. ground (arith, v.popped, self);
      same_wait = λ w. ground (arith, v.popped, self);
      same_delay = λ d. refl;
      same_rank = λ w h. refl;
      same_wake = λ d h. refl;
      bound = links.priority_bound t;
    } in
    simp skip (
      ready_enqueue-Inv (modify k' t (woken result)) t (record {
        linked = modify-Linked k' t (woken result) links same;
        settled = λ u o.
            ground (
              arith,
              v.settled u o,
              delay_list_remove-other k t u o,
              delay_list_remove-current k t,
            );
        arrives = ground (arith, v.popped, self, delay_list_remove-current k t);
      }))

-- os_WaitMaybePreempt keeps the invariant.
pub wait_maybe_preempt-Inv : (k : Kernel) (t : ℕ) → Inv k → Inv (wait_maybe_preempt k t)
unfolding wait_maybe_preempt
wait_maybe_preempt-Inv k t v =
    if_both Inv (not (outranks_current k t k.current)) (λ _. v)
      (λ _.
        if_both Inv (ltb 0 k.critical_nesting)
          (λ _. record { linked = v.linked; settled = v.settled })
          (λ _. sched_schedule-Inv k higher_priority_wakeup false v))

-- os_WaitPop of an empty queue changes no task and no list.
pub wait_pop-Inv : (k : Kernel) (w : WaitList) → Inv k → k.waiters w ≡ [] → Inv (wait_pop k w).0
unfolding wait_pop
wait_pop-Inv k w v e = record {
  linked = record {
    ready_counted = λ u p. ground (arith, v.linked.ready_counted u p);
    wait_counted = λ u x. ground (arith, v.linked.wait_counted u x, v.linked.wait_counted u w);
    delay_counted = λ u d. ground (arith, v.linked.delay_counted u d);
    wait_sorted = λ x.
        let tasks' = (wait_pop k w).0.tasks in
        let old = rerank v.linked tasks' k.waiters (λ w. refl) (λ u w h. ground arith) in
        if_both (Sorted (ByRank tasks')) (same_wait_list x w)
          (λ _. Sorted-tail (ByRank tasks') (k.waiters w) (old w)) (λ _. old x);
    delay_sorted =
        rewake v.linked (wait_pop k w).0.tasks (wait_pop k w).0.delayed_lists (λ d. ground arith)
          (λ u d h. ground arith);
    priority_bound = λ u. ground (arith, v.linked.priority_bound u);
    bitmap_bound = ground (arith, v.linked.bitmap_bound);
    bitmap_exact = λ p h. ground (arith, v.linked.bitmap_exact p h);
  };
  settled = λ u. ground (arith, v.settled u);
}

-- A wait result is no part of the invariant.
pub set_result-Inv :
    (k : Kernel) (t : ℕ) (status : Status)
    → Inv k
    → Inv (modify k t λ x. record x { wait_result = status })
set_result-Inv k t status v = record {
  linked =
      modify-Linked k t (λ x. record x { wait_result = status }) v.linked
        (record {
          same_ready = λ p. refl;
          same_wait = λ w. refl;
          same_delay = λ d. refl;
          same_rank = λ w h. refl;
          same_wake = λ d h. refl;
          bound = v.linked.priority_bound t;
        });
  settled = λ u. ground (arith, v.settled u);
}

pub set_result-Waking :
    (k : Kernel) (u t : ℕ) (status : Status)
    → Waking k t
    → Waking (modify k u λ x. record x { wait_result = status }) t
set_result-Waking k t' t status v = record {
  linked =
      modify-Linked k t' (λ x. record x { wait_result = status }) v.linked
        (record {
          same_ready = λ p. refl;
          same_wait = λ w. refl;
          same_delay = λ d. refl;
          same_rank = λ w h. refl;
          same_wake = λ d h. refl;
          bound = v.linked.priority_bound t';
        });
  settled = λ u o. ground (arith, v.settled u);
  popped = ground (arith, v.popped);
}

-- The invariant behind os_WaitPop: while the task taken, if there is one, is waking.
abbrev pub Popped : Kernel → Option ℕ → Type 0
Popped k none = Inv k
Popped k (some t) = Waking k t

wait_pop-Popped-of :
    (k : Kernel) (w : WaitList) (xs : List ℕ)
    → Inv k
    → k.waiters w ≡ xs
    → Popped (wait_pop k w).0 (head? xs)
wait_pop-Popped-of k w [] v e = wait_pop-Inv k w v e
wait_pop-Popped-of k w (t ∷ ts) v e = wait_pop-Waking k w t ts v e

pub wait_pop-Popped : (k : Kernel) (w : WaitList) → Inv k → Popped (wait_pop k w).0 (wait_pop k w).1
unfolding wait_pop
wait_pop-Popped k w v = wait_pop-Popped-of k w (k.waiters w) v refl

pub set_result-Popped :
    (k : Kernel) (u : ℕ) (o : Option ℕ) (status : Status)
    → Popped k o
    → Popped (modify k u λ x. record x { wait_result = status }) o
set_result-Popped k u none status v = set_result-Inv k u status v
set_result-Popped k u (some t) status v = set_result-Waking k u t status v

-- Waking and popping leave the current task alone.
pub wait_make_ready-current :
    (k : Kernel) (t : ℕ) (result : Status) → (wait_make_ready k t result).current ≡ k.current
unfolding wait_make_ready ready_enqueue
wait_make_ready-current k t result = ground (arith, delay_list_remove-current k t)

pub wait_pop-current : (k : Kernel) (w : WaitList) → (wait_pop k w).0.current ≡ k.current
unfolding wait_pop
wait_pop-current k w = ground arith
