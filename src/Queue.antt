-- ===== src/Queue.antt =====
-- kernel/src/os_queue.c: message queues in ring buffers, over byte-addressed memory.
pub mod Invariant
pub mod Ring
pub mod HandOver
use mini_rtos.Base.{
  ℕ, zero, suc, ◌+◌, ◌-◌, ◌*◌, ◌/◌, ◌%◌, Bool, true, false, ◌&&◌, ◌||◌, not, Option, none, some,
  List, [], ◌∷◌, ltb, leb, ◌==◌, if◌then◌else◌, update, for_each, indices,
}
use mini_rtos.Kernel.{
  Status, WaitList, Task, Queue, Kernel, queue_send, queue_receive, ok, invalid_argument,
  limit_reached, bad_state, timeout, is_running, max_queues, wait_list_of, update_waiters,
}
use mini_rtos.Mutex.{first_free, set_result}
use mini_rtos.Wait.{wait_block_current, wait_pop, wait_make_ready, wait_maybe_preempt}

abbrev pub send_waiters : ℕ → WaitList
send_waiters q = wait_list_of queue_send q

abbrev pub receive_waiters : ℕ → WaitList
receive_waiters q = wait_list_of queue_receive q

-- memcpy(to, from, size) between regions that do not overlap
unfoldable pub memcpy : (ℕ → ℕ) → (to from size : ℕ) → ℕ → ℕ
memcpy memory to from size a =
    if leb to a && ltb a (to + size) then memory (from + (a - to)) else memory a

-- os_QueueIsValid of a queue in use or not
unfoldable pub queue_in_order : Queue → Bool
queue_in_order x =
    x.used
    && not (x.buffer == 0)
    && ltb 0 x.item_size
    && ltb 0 x.capacity
    && leb x.count x.capacity
    && ltb x.head x.capacity
    && ltb x.tail x.capacity

-- os_QueueIsValid
unfoldable pub queue_is_valid : Kernel → Option ℕ → Bool
unfolding queue_in_order
queue_is_valid k none = false
queue_is_valid k (some q) = queue_in_order (k.queues q)

-- os_QueueSlot
unfoldable pub queue_slot : Queue → ℕ → ℕ
queue_slot x index = x.buffer + index * x.item_size

-- The slot of the pool that xQueueCreate hands out.
unfoldable pub queue_allocate : Kernel → ℕ → ℕ → ℕ → Option ℕ → Kernel × Option ℕ
queue_allocate k queue_length item_size storage none =
    (record k { last_error = limit_reached }, none)
queue_allocate k queue_length item_size storage (some q) = (
  record k {
    queues = update k.queues q (record {
      used = true;
      buffer = storage;
      item_size = item_size;
      capacity = queue_length;
      head = 0;
      tail = 0;
      count = 0;
    });
    waiters = update_waiters (update_waiters k.waiters (send_waiters q) []) (receive_waiters q) [];
    last_error = ok;
  },
  some q,
)

-- xQueueCreate; `size_max` is SIZE_MAX of the target
unfoldable pub queue_create : (size_max : ℕ) → Kernel → ℕ → ℕ → ℕ → Kernel × Option ℕ
unfolding first_free queue_allocate
queue_create size_max k queue_length item_size storage =
    if not k.initialized || k.started
    then (record k { last_error = bad_state }, none)
    else if storage == 0
        || item_size == 0
        || queue_length == 0
        || ltb (size_max / queue_length) item_size
    then (record k { last_error = invalid_argument }, none)
    else queue_allocate k queue_length item_size storage
        (first_free (λ q. (k.queues q).used) (indices max_queues))

-- The queue behind a valid handle; `default` behind NULL.
abbrev pub queue_field : Kernel → Option ℕ → (Queue → ℕ) → ℕ
queue_field k none field = 0
queue_field k (some q) field = field (k.queues q)

-- uxQueueMessagesWaiting
unfoldable pub queue_messages_waiting : Kernel → Option ℕ → ℕ
unfolding queue_is_valid
queue_messages_waiting k handle =
    if queue_is_valid k handle then queue_field k handle (λ x. x.count) else 0

-- uxQueueCapacity
unfoldable pub queue_capacity : Kernel → Option ℕ → ℕ
unfolding queue_is_valid
queue_capacity k handle =
    if queue_is_valid k handle then queue_field k handle (λ x. x.capacity) else 0

-- The copies of os_QueueSnapshot, in the order of the loop.
unfoldable pub snapshot_copies : Queue → ℕ → ℕ → (ℕ → ℕ) → ℕ → ℕ
unfolding memcpy queue_slot
snapshot_copies x out_items copy_count memory =
    for_each (indices copy_count)
      (λ index m.
        memcpy m (out_items + index * x.item_size) (queue_slot x ((x.head + index) % x.capacity))
          x.item_size)
      memory

-- os_QueueSnapshot of the queue behind a handle
unfoldable pub queue_snapshot : Kernel → Option ℕ → ℕ → ℕ → Kernel × ℕ
unfolding snapshot_copies
queue_snapshot k none out_items maximum_items = (k, 0)
queue_snapshot k (some q) out_items maximum_items =
    let x = k.queues q in
    let copy_count = if ltb x.count maximum_items then x.count else maximum_items in
    if not (queue_is_valid k (some q)) || out_items == 0 || maximum_items == 0
    then (k, 0)
    else (record k { memory = snapshot_copies x out_items copy_count k.memory }, copy_count)

-- The copy into the tail slot and its advance.
unfoldable pub enqueue_at : Queue → (ℕ → ℕ) → ℕ → Queue × (ℕ → ℕ)
unfolding memcpy queue_slot
enqueue_at x memory item = (
  record x { tail = (x.tail + 1) % x.capacity; count = x.count + 1 },
  memcpy memory (queue_slot x x.tail) item x.item_size,
)

-- The copy out of the head slot and its advance.
unfoldable pub dequeue_from : Queue → (ℕ → ℕ) → ℕ → Queue × (ℕ → ℕ)
unfolding memcpy queue_slot
dequeue_from x memory out_item = (
  record x { head = (x.head + 1) % x.capacity; count = x.count - 1 },
  memcpy memory out_item (queue_slot x x.head) x.item_size,
)

-- The kernel with queue `q` and the memory replaced.
abbrev pub set_queue : Kernel → ℕ → Queue × (ℕ → ℕ) → Kernel
set_queue k q (x, memory) = record k { queues = update k.queues q x; memory = memory }

-- os_QueueSendCurrent where no receiver waits
unfoldable pub send_to_buffer : Kernel → ℕ → ℕ → ℕ → ℕ → Kernel
unfolding enqueue_at
send_to_buffer k t q item timeout_ticks =
    let x = k.queues q in
    if ltb x.count x.capacity
    then set_result (set_queue k q (enqueue_at x k.memory item)) t ok
    else if timeout_ticks == 0
    then set_result k t timeout
    else (wait_block_current k (send_waiters q) item timeout_ticks).0

-- os_QueueSendCurrent behind its tests, with the popped receiver at hand
unfoldable pub send_to : Kernel × Option ℕ → ℕ → ℕ → ℕ → ℕ → Kernel
send_to (k, none) t q item timeout_ticks = send_to_buffer k t q item timeout_ticks
send_to (k, some u) t q item timeout_ticks =
    let delivered = record k {
      memory = memcpy k.memory (k.tasks u).wait_buffer item (k.queues q).item_size;
    } in
    wait_maybe_preempt (wait_make_ready (set_result delivered t ok) u ok) u

-- os_QueueSendCurrent for the task that it reads as `current`
unfoldable pub queue_send_task : Kernel → Option ℕ → Option ℕ → ℕ → ℕ → Kernel
queue_send_task k none handle item timeout_ticks = k
queue_send_task k (some t) none item timeout_ticks =
    if is_running (k.tasks t).state then set_result k t invalid_argument else k
queue_send_task k (some t) (some q) item timeout_ticks =
    if not (is_running (k.tasks t).state)
    then k
    else if not (queue_is_valid k (some q)) || item == 0
    then set_result k t invalid_argument
    else send_to (wait_pop k (receive_waiters q)) t q item timeout_ticks

-- os_QueueSendCurrent
unfoldable pub queue_send_current : Kernel → Option ℕ → ℕ → ℕ → Kernel
unfolding queue_send_task send_to send_to_buffer queue_is_valid
queue_send_current k handle item timeout_ticks =
    queue_send_task k k.current handle item timeout_ticks

-- os_QueueReceiveCurrent behind the copy out, with the popped sender at hand
unfoldable pub refill_from : Kernel × Option ℕ → ℕ → ℕ → Kernel
unfolding enqueue_at
refill_from (k, none) t q = set_result k t ok
refill_from (k, some u) t q =
    let refilled = set_queue k q (enqueue_at (k.queues q) k.memory (k.tasks u).wait_buffer) in
    wait_maybe_preempt (wait_make_ready (set_result refilled t ok) u ok) u

-- os_QueueReceiveCurrent behind its tests
unfoldable pub receive_by : Kernel → ℕ → ℕ → ℕ → ℕ → Kernel
unfolding dequeue_from
receive_by k t q out_item timeout_ticks =
    let taken = set_queue k q (dequeue_from (k.queues q) k.memory out_item) in
    if ltb 0 (k.queues q).count
    then refill_from (wait_pop taken (send_waiters q)) t q
    else if timeout_ticks == 0
    then set_result k t timeout
    else (wait_block_current k (receive_waiters q) out_item timeout_ticks).0

-- os_QueueReceiveCurrent for the task that it reads as `current`
unfoldable pub queue_receive_task : Kernel → Option ℕ → Option ℕ → ℕ → ℕ → Kernel
queue_receive_task k none handle out_item timeout_ticks = k
queue_receive_task k (some t) none out_item timeout_ticks =
    if is_running (k.tasks t).state then set_result k t invalid_argument else k
queue_receive_task k (some t) (some q) out_item timeout_ticks =
    if not (is_running (k.tasks t).state)
    then k
    else if not (queue_is_valid k (some q)) || out_item == 0
    then set_result k t invalid_argument
    else receive_by k t q out_item timeout_ticks

-- os_QueueReceiveCurrent
unfoldable pub queue_receive_current : Kernel → Option ℕ → ℕ → ℕ → Kernel
unfolding queue_receive_task receive_by refill_from queue_is_valid
queue_receive_current k handle out_item timeout_ticks =
    queue_receive_task k k.current handle out_item timeout_ticks
