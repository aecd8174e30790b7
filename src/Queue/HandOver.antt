-- ===== src/Queue/HandOver.antt =====
-- An item sent to a queue at which a task waits goes straight to that task.
use mini_rtos.Base.{
  ℕ, ◌≡◌, true, false, ◌||◌, not, Option, none, some, List, ◌∷◌, arith, ◌==◌, if_both, ap, ◌∙◌,
  head?,
}
use mini_rtos.Kernel.{Kernel, WaitList, is_running, ok}
use mini_rtos.Mutex.{set_result}
use mini_rtos.Wait.{wait_pop}
use mini_rtos.Queue.{
  receive_waiters, queue_is_valid, memcpy, send_to, queue_send_task, queue_send_current,
}
use mini_rtos.Queue.Ring.{bytes_at, memcpy-copied}
use mini_rtos.Statics.{Statics, Same, Same-trans}
use mini_rtos.Statics.Waiting.{wait_pop-Same}
use mini_rtos.Statics.Mutexes.{woken-Same}

-- The item stands at the buffer of `u`, and no queue has changed.
pub record Handed (k : Kernel) (u q item : ℕ) (k' : Kernel) : Type 0 where
  pub delivered :
      bytes_at k'.memory (k.tasks u).wait_buffer (k.queues q).item_size
      ≡ bytes_at k.memory item (k.queues q).item_size
  pub queues : k'.queues ≡ k.queues

Same-memory : {k k' : Kernel} → Same k k' → k'.memory ≡ k.memory
Same-memory r = ap (λ (s : Statics). s.memory) (r.same 0)

Same-queues : {k k' : Kernel} → Same k k' → k'.queues ≡ k.queues
Same-queues r = ap (λ (s : Statics). s.queues) (r.same 0)

send_to-Handed :
    (k : Kernel) (u t q item ticks : ℕ) → Handed k u q item (send_to (k, some u) t q item ticks)
unfolding send_to
send_to-Handed k u t q item ticks =
    let size = (k.queues q).item_size in
    let buffer = (k.tasks u).wait_buffer in
    let copied = record k { memory = memcpy k.memory buffer item size } in
    let told : Same copied (set_result copied t ok) = record { same = λ v. ground arith } in
    let rest = Same-trans told (woken-Same (set_result copied t ok) u) in
    record {
      delivered =
          ap (λ (memory : ℕ → ℕ). bytes_at memory buffer size) (Same-memory rest)
          ∙ memcpy-copied k.memory buffer item size;
      queues = Same-queues rest;
    }

-- What happens before may be the taking out of a waiter.
behind-Handed :
    (k k₁ k' : Kernel) (u q item : ℕ)
    → Same k k₁
    → (k₁.tasks u).wait_buffer ≡ (k.tasks u).wait_buffer
    → Handed k₁ u q item k'
    → Handed k u q item k'
behind-Handed k k₁ k' u q item r b h = record {
  delivered = rw (b, Same-memory r, Same-queues r) at h.delivered;
  queues = h.queues ∙ Same-queues r;
}

wait_pop-buffer :
    (k : Kernel) (w : WaitList) (u : ℕ)
    → ((wait_pop k w).0.tasks u).wait_buffer ≡ (k.tasks u).wait_buffer
unfolding wait_pop
wait_pop-buffer k w u = ground arith

popped-Handed :
    (k : Kernel) (o : Option ℕ) (u t q item ticks : ℕ)
    → o ≡ some u
    → Handed k u q item (send_to ((wait_pop k (receive_waiters q)).0, o) t q item ticks)
popped-Handed k none u t q item ticks e = absurd (ground arith)
popped-Handed k (some v) u t q item ticks e =
    let w = receive_waiters q in
    let k₁ = (wait_pop k w).0 in
    let same : v ≡ u = ground arith in
    rw same (
      behind-Handed k k₁ (send_to (k₁, some u) t q item ticks) u q item (wait_pop-Same k w)
        (wait_pop-buffer k w u) (send_to-Handed k₁ u t q item ticks))

send_task-Handed :
    (k : Kernel) (current : Option ℕ) (t u q item ticks : ℕ) (us : List ℕ)
    → current ≡ some t
    → is_running (k.tasks t).state ≡ true
    → queue_is_valid k (some q) ≡ true
    → (item == 0) ≡ false
    → k.waiters (receive_waiters q) ≡ u ∷ us
    → Handed k u q item (queue_send_task k current (some q) item ticks)
unfolding queue_send_task
send_task-Handed k none t u q item ticks us c r valid n w = absurd (ground arith)
send_task-Handed k (some v) t u q item ticks us c r valid n w =
    let same : v ≡ t = ground arith in
    if_both (Handed k u q item) (not (is_running (k.tasks v).state))
      (λ y. absurd (ground (arith, same)))
      (λ _.
        if_both (Handed k u q item) (not (queue_is_valid k (some q)) || item == 0)
          (λ y. absurd (ground arith))
          (λ _.
            popped-Handed k (wait_pop k (receive_waiters q)).1 u v q item ticks
              (unfold wait_pop in ap head? w)))

-- Where the current task runs, the queue is valid, the item is not NULL and task u is the first
-- of the queue's waiting receivers, os_QueueSendCurrent leaves the bytes of the item, as they
-- were before, at the buffer that u waits with, and no queue changed.
pub queue_send_current-Handed :
    (k : Kernel) (t u q item ticks : ℕ) (us : List ℕ)
    → k.current ≡ some t
    → is_running (k.tasks t).state ≡ true
    → queue_is_valid k (some q) ≡ true
    → (item == 0) ≡ false
    → k.waiters (receive_waiters q) ≡ u ∷ us
    → Handed k u q item (queue_send_current k (some q) item ticks)
unfolding queue_send_current
queue_send_current-Handed k t u q item ticks us c r valid n w =
    send_task-Handed k k.current t u q item ticks us c r valid n w
