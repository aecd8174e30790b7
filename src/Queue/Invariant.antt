-- ===== src/Queue/Invariant.antt =====
-- Queue operations keep the invariant of the kernel.
use mini_rtos.Base.{ℕ, not, ◌||◌, Option, none, some, ◌==◌, if_both, ltb}
use mini_rtos.Kernel.{Kernel, Queue, ok, is_running, timeout, invalid_argument}
use mini_rtos.Invariant.{Inv}
use mini_rtos.Wait.{wait_make_ready, wait_maybe_preempt}
use mini_rtos.Wait.Invariant.{
  Popped, wait_pop-Popped, wait_block_current-Inv, wait_make_ready-Inv, wait_maybe_preempt-Inv,
  set_result-Inv, set_result-Popped,
}
use mini_rtos.Queue.{
  send_waiters, receive_waiters, queue_is_valid, send_to_buffer, send_to, queue_send_task,
  queue_send_current, refill_from, receive_by, queue_receive_task, queue_receive_current,
}

-- Queue control blocks and memory are no part of the invariant.
store-Popped :
    (k : Kernel) (o : Option ℕ) (queues : ℕ → Queue) (memory : ℕ → ℕ)
    → Popped k o
    → Popped (record k { queues = queues; memory = memory }) o
store-Popped k none queues memory v = record { linked = v.linked; settled = v.settled }
store-Popped k (some t) queues memory v = record {
  linked = v.linked;
  settled = v.settled;
  popped = v.popped;
}

wake-Inv :
    (k : Kernel) (u : ℕ) → Popped k (some u) → Inv (wait_maybe_preempt (wait_make_ready k u ok) u)
wake-Inv k u v = wait_maybe_preempt-Inv _ u (wait_make_ready-Inv k u ok v)

send_to-Inv :
    (k : Kernel) (o : Option ℕ) (t q item ticks : ℕ)
    → Popped k o
    → Inv (send_to (k, o) t q item ticks)
unfolding send_to send_to_buffer
send_to-Inv k none t q item ticks v =
    if_both Inv (ltb (k.queues q).count (k.queues q).capacity)
      (λ _. set_result-Inv _ t ok (store-Popped k none _ _ v))
      (λ _.
        if_both Inv (ticks == 0) (λ _. set_result-Inv k t timeout v)
          (λ _. wait_block_current-Inv k (send_waiters q) item ticks v))
send_to-Inv k (some u) t q item ticks v =
    wake-Inv _ u (set_result-Popped _ t (some u) ok (store-Popped k (some u) _ _ v))

queue_send_task-Inv :
    (k : Kernel) (current handle : Option ℕ) (item ticks : ℕ)
    → Inv k
    → Inv (queue_send_task k current handle item ticks)
unfolding queue_send_task
queue_send_task-Inv k none handle item ticks v = v
queue_send_task-Inv k (some t) none item ticks v =
    if_both Inv (is_running (k.tasks t).state) (λ _. set_result-Inv k t invalid_argument v) (λ _. v)
queue_send_task-Inv k (some t) (some q) item ticks v =
    if_both Inv (not (is_running (k.tasks t).state)) (λ _. v)
      (λ _.
        if_both Inv (not (queue_is_valid k (some q)) || item == 0)
          (λ _. set_result-Inv k t invalid_argument v)
          (λ _. send_to-Inv _ _ t q item ticks (wait_pop-Popped k (receive_waiters q) v)))

-- os_QueueSendCurrent keeps the invariant.
pub queue_send_current-Inv :
    (k : Kernel) (handle : Option ℕ) (item ticks : ℕ)
    → Inv k
    → Inv (queue_send_current k handle item ticks)
unfolding queue_send_current
queue_send_current-Inv k handle item ticks v = queue_send_task-Inv k k.current handle item ticks v

refill_from-Inv : (k : Kernel) (o : Option ℕ) (t q : ℕ) → Popped k o → Inv (refill_from (k, o) t q)
unfolding refill_from
refill_from-Inv k none t q v = set_result-Inv k t ok v
refill_from-Inv k (some u) t q v =
    wake-Inv _ u (set_result-Popped _ t (some u) ok (store-Popped k (some u) _ _ v))

receive_by-Inv :
    (k : Kernel) (t q out_item ticks : ℕ) → Inv k → Inv (receive_by k t q out_item ticks)
unfolding receive_by
receive_by-Inv k t q out_item ticks v =
    if_both Inv (ltb 0 (k.queues q).count)
      (λ _.
        refill_from-Inv _ _ t q (wait_pop-Popped _ (send_waiters q) (store-Popped k none _ _ v)))
      (λ _.
        if_both Inv (ticks == 0) (λ _. set_result-Inv k t timeout v)
          (λ _. wait_block_current-Inv k (receive_waiters q) out_item ticks v))

queue_receive_task-Inv :
    (k : Kernel) (current handle : Option ℕ) (out_item ticks : ℕ)
    → Inv k
    → Inv (queue_receive_task k current handle out_item ticks)
unfolding queue_receive_task
queue_receive_task-Inv k none handle out_item ticks v = v
queue_receive_task-Inv k (some t) none out_item ticks v =
    if_both Inv (is_running (k.tasks t).state) (λ _. set_result-Inv k t invalid_argument v) (λ _. v)
queue_receive_task-Inv k (some t) (some q) out_item ticks v =
    if_both Inv (not (is_running (k.tasks t).state)) (λ _. v)
      (λ _.
        if_both Inv (not (queue_is_valid k (some q)) || out_item == 0)
          (λ _. set_result-Inv k t invalid_argument v) (λ _. receive_by-Inv k t q out_item ticks v))

-- os_QueueReceiveCurrent keeps the invariant.
pub queue_receive_current-Inv :
    (k : Kernel) (handle : Option ℕ) (out_item ticks : ℕ)
    → Inv k
    → Inv (queue_receive_current k handle out_item ticks)
unfolding queue_receive_current
queue_receive_current-Inv k handle out_item ticks v =
    queue_receive_task-Inv k k.current handle out_item ticks v
