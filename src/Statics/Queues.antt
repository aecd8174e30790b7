-- ===== src/Statics/Queues.antt =====
-- Operations on queues keep valid objects valid.
use mini_rtos.Base.{
  ℕ, ◌<◌, ◌≡◌, true, ◌||◌, not, Option, none, some, arith, ltb, ◌==◌, if_both, update,
}
use mini_rtos.Kernel.{Kernel, Queue, is_running, ok, timeout, invalid_argument}
use mini_rtos.Wait.{wait_pop}
use mini_rtos.Mutex.{set_result}
use mini_rtos.Queue.{
  send_waiters, receive_waiters, queue_in_order, queue_is_valid, memcpy, enqueue_at, dequeue_from,
  send_to_buffer, send_to, queue_send_task, queue_send_current, refill_from, receive_by,
  queue_receive_task, queue_receive_current,
}
use mini_rtos.Queue.Ring.{enqueue_at-Ring, dequeue_from-Ring}
use mini_rtos.Statics.Waiting.{wait_block_current-Same, wait_pop-Same}
use mini_rtos.Statics.Mutexes.{woken-Same}
use mini_rtos.Statics.Sound.{
  Advance, Advance-trans, Advance-refl, Same-Advance, set_result-Advance, queue-Advance,
  memory-Advance,
}

enqueue_used :
    (x : Queue) (memory : ℕ → ℕ) (item : ℕ)
    → (enqueue_at x memory item).0.used ≡ true
    → x.used ≡ true
unfolding enqueue_at
enqueue_used x memory item u = u

dequeue_used :
    (x : Queue) (memory : ℕ → ℕ) (out_item : ℕ)
    → (dequeue_from x memory out_item).0.used ≡ true
    → x.used ≡ true
unfolding dequeue_from
dequeue_used x memory out_item u = u

send_to_buffer-Advance :
    (k : Kernel) (t q item ticks : ℕ) → Advance k (send_to_buffer k t q item ticks)
unfolding send_to_buffer
send_to_buffer-Advance k t q item ticks =
    let x = k.queues q in
    if_both (Advance k) (ltb x.count x.capacity)
      (λ l.
        Advance-trans
          (queue-Advance k q (enqueue_at x k.memory item).0 (enqueue_at x k.memory item).1 (λ v u.
            enqueue_at-Ring x (v.queues q (enqueue_used x k.memory item u)) k.memory item
              (ground (arith, l))))
          (set_result-Advance _ t ok))
      (λ _.
        if_both (Advance k) (ticks == 0) (λ _. set_result-Advance k t timeout)
          (λ _. Same-Advance (wait_block_current-Same k (send_waiters q) item ticks)))

send_to-Advance :
    (k : Kernel) (receiver : Option ℕ) (t q item ticks : ℕ)
    → Advance k (send_to (k, receiver) t q item ticks)
unfolding send_to
send_to-Advance k none t q item ticks = send_to_buffer-Advance k t q item ticks
send_to-Advance k (some u) t q item ticks =
    let delivered = record k {
      memory = memcpy k.memory (k.tasks u).wait_buffer item (k.queues q).item_size;
    } in
    Advance-trans
      (Advance-trans (memory-Advance k delivered.memory) (set_result-Advance delivered t ok))
      (Same-Advance (woken-Same (set_result delivered t ok) u))

queue_send_task-Advance :
    (k : Kernel) (current handle : Option ℕ) (item ticks : ℕ)
    → Advance k (queue_send_task k current handle item ticks)
unfolding queue_send_task
queue_send_task-Advance k none handle item ticks = Advance-refl k
queue_send_task-Advance k (some t) none item ticks =
    if_both (Advance k) (is_running (k.tasks t).state)
      (λ _. set_result-Advance k t invalid_argument) (λ _. Advance-refl k)
queue_send_task-Advance k (some t) (some q) item ticks =
    let popped = wait_pop k (receive_waiters q) in
    if_both (Advance k) (not (is_running (k.tasks t).state)) (λ _. Advance-refl k)
      (λ _.
        if_both (Advance k) (not (queue_is_valid k (some q)) || item == 0)
          (λ _. set_result-Advance k t invalid_argument)
          (λ _.
            Advance-trans (Same-Advance (wait_pop-Same k (receive_waiters q)))
              (send_to-Advance popped.0 popped.1 t q item ticks)))

pub queue_send_current-Advance :
    (k : Kernel) (handle : Option ℕ) (item ticks : ℕ)
    → Advance k (queue_send_current k handle item ticks)
unfolding queue_send_current
queue_send_current-Advance k handle item ticks =
    queue_send_task-Advance k k.current handle item ticks

-- A queue that is not full takes the item of a waiting sender.
refill_from-Advance :
    (k : Kernel) (sender : Option ℕ) (t q : ℕ)
    → (k.queues q).count < (k.queues q).capacity
    → Advance k (refill_from (k, sender) t q)
unfolding refill_from
refill_from-Advance k none t q room = set_result-Advance k t ok
refill_from-Advance k (some u) t q room =
    let x = k.queues q in
    let buffer = (k.tasks u).wait_buffer in
    let filled = enqueue_at x k.memory buffer in
    let refilled = record k { queues = update k.queues q filled.0; memory = filled.1 } in
    Advance-trans
      (Advance-trans
        (queue-Advance k q filled.0 filled.1 (λ v used.
          enqueue_at-Ring x (v.queues q (enqueue_used x k.memory buffer used)) k.memory buffer
            room))
        (set_result-Advance refilled t ok))
      (Same-Advance (woken-Same (set_result refilled t ok) u))

module _ (k : Kernel) (t q out_item ticks : ℕ) where
  -- The kernel behind the copy out of the head slot
  taken : Kernel
  taken =
      let y = dequeue_from (k.queues q) k.memory out_item in
      record k { queues = update k.queues q y.0; memory = y.1 }

  taken-room :
      queue_in_order (k.queues q) ≡ true
      → 0 < (k.queues q).count
      → let popped = (wait_pop taken (send_waiters q)).0 in
        (popped.queues q).count < (popped.queues q).capacity
  unfolding taken dequeue_from queue_in_order wait_pop
  taken-room valid some_items = ground (arith, valid)

  receive_by-Advance :
      queue_in_order (k.queues q) ≡ true → Advance k (receive_by k t q out_item ticks)
  unfolding receive_by taken
  receive_by-Advance valid =
      let x = k.queues q in
      let y = dequeue_from x k.memory out_item in
      let popped = wait_pop taken (send_waiters q) in
      if_both (Advance k) (ltb 0 x.count)
        (λ l.
          let held : 0 < x.count = ground (arith, l) in
          Advance-trans
            (Advance-trans
              (queue-Advance k q y.0 y.1 (λ v used.
                dequeue_from-Ring x (v.queues q (dequeue_used x k.memory out_item used)) k.memory
                  out_item held))
              (Same-Advance (wait_pop-Same taken (send_waiters q))))
            (refill_from-Advance popped.0 popped.1 t q (taken-room valid held)))
        (λ _.
          if_both (Advance k) (ticks == 0) (λ _. set_result-Advance k t timeout)
            (λ _. Same-Advance (wait_block_current-Same k (receive_waiters q) out_item ticks)))

queue_receive_task-Advance :
    (k : Kernel) (current handle : Option ℕ) (out_item ticks : ℕ)
    → Advance k (queue_receive_task k current handle out_item ticks)
unfolding queue_receive_task queue_is_valid
queue_receive_task-Advance k none handle out_item ticks = Advance-refl k
queue_receive_task-Advance k (some t) none out_item ticks =
    if_both (Advance k) (is_running (k.tasks t).state)
      (λ _. set_result-Advance k t invalid_argument) (λ _. Advance-refl k)
queue_receive_task-Advance k (some t) (some q) out_item ticks =
    if_both (Advance k) (not (is_running (k.tasks t).state)) (λ _. Advance-refl k)
      (λ _.
        if_both (Advance k) (not (queue_in_order (k.queues q)) || out_item == 0)
          (λ _. set_result-Advance k t invalid_argument)
          (λ n. receive_by-Advance k t q out_item ticks (ground (arith, n))))

pub queue_receive_current-Advance :
    (k : Kernel) (handle : Option ℕ) (out_item ticks : ℕ)
    → Advance k (queue_receive_current k handle out_item ticks)
unfolding queue_receive_current
queue_receive_current-Advance k handle out_item ticks =
    queue_receive_task-Advance k k.current handle out_item ticks
