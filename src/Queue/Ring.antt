-- ===== src/Queue/Ring.antt =====
-- The ring buffer of a queue implements a first-in first-out list of items.
use native.Mathlib.Nat.{
  mod-lt, mod-eq_of_lt, mod-eq-sub-mod, mod-add-mod, mul-le-mul_right, suc-mul,
}
use mathlib.Core.Path.{ap₂}
use mini_rtos.Base.{
  ℕ, suc, ◌+◌, ◌-◌, ◌*◌, ◌%◌, ◌≤◌, ◌<◌, ◌≡◌, sym, ap, ◌∙◌, true, false, List, ◌∷◌, arith, push_back,
  ◌⊎◌, inl, inr, ltb, ◌==◌, if◌then◌else◌, Bool-cases,
}
use mini_rtos.Base.Listed.{listed, listed-ext, listed-push_back}
use mini_rtos.Kernel.{Queue}
use mini_rtos.Queue.{memcpy, queue_slot, queue_in_order, enqueue_at, dequeue_from}

-- The bytes from an address on.
abbrev pub bytes_at : (ℕ → ℕ) → (address size : ℕ) → List ℕ
bytes_at memory address size = listed (λ b. memory (address + b)) size

-- The index of the slot that holds the item `i` places behind the oldest one.
abbrev pub slot_index : Queue → ℕ → ℕ
slot_index x i = (x.head + i) % x.capacity

-- The items of a queue, the oldest first.
abbrev pub items : Queue → (ℕ → ℕ) → List (List ℕ)
items x memory = listed (λ i. bytes_at memory (queue_slot x (slot_index x i)) x.item_size) x.count

-- A queue that os_QueueIsValid accepts and whose tail is `count` slots behind its head.
pub record Ring (x : Queue) : Type 0 where
  pub in_order : queue_in_order x ≡ true
  pub tail_place : x.tail ≡ (x.head + x.count) % x.capacity

-- A region of memory outside the buffer of the queue.
abbrev pub Outside : Queue → ℕ → Type 0
Outside x a = (a + x.item_size ≤ x.buffer) ⊎ (x.buffer + x.capacity * x.item_size ≤ a)

abbrev Apart : (a b size : ℕ) → Type 0
Apart a b size = (a + size ≤ b) ⊎ (b + size ≤ a)

-- What memcpy has written, ...
pub memcpy-copied :
    (memory : ℕ → ℕ) (to from size : ℕ)
    → bytes_at (memcpy memory to from size) to size ≡ bytes_at memory from size
unfolding memcpy
memcpy-copied memory to from size =
    listed-ext _ _ size
      (λ i h. let e : from + (to + i - to) ≡ from + i = omega arith in ground (arith, ap memory e))

-- ... and what it has not.
memcpy-elsewhere :
    (memory : ℕ → ℕ) (to from size a : ℕ)
    → Apart to a size
    → bytes_at (memcpy memory to from size) a size ≡ bytes_at memory a size
unfolding memcpy
memcpy-elsewhere memory to from size a o = listed-ext _ _ size (λ i h. ground arith)

slot_end : (i j size : ℕ) → i < j → i * size + size ≤ j * size
slot_end i j size h = omega (arith, mul-le-mul_right {m = suc i} {n = j} size h, suc-mul i size)

slots-Apart :
    (x : Queue) (i j : ℕ) → (i == j) ≡ false → Apart (queue_slot x i) (queue_slot x j) x.item_size
unfolding queue_slot
slots-Apart x i j n = elim (Bool-cases (ltb i j)) [
  | inl l ↦ inl (ground (arith, slot_end i j x.item_size))
  | inr g ↦ inr (ground (arith, slot_end j i x.item_size))
]

-- A sum of two values up to the capacity wraps at most once.
wrap : (n c : ℕ) → 0 < c → n < c + c → n % c ≡ (if ltb n c then n else n - c)
wrap n c p h = elim (Bool-cases (ltb n c)) [
  | inl l ↦ rw l (mod-eq_of_lt (ground arith))
  | inr g ↦ rw g (mod-eq-sub-mod (ground arith) ∙ mod-eq_of_lt (ground arith))
]

module _ (x : Queue) (v : Ring x) where
  ring_bounds : (0 < x.capacity) × (x.head < x.capacity) × (x.count ≤ x.capacity)
  unfolding queue_in_order
  ring_bounds = ground (arith, v.in_order)

  slot_index-lt : (i : ℕ) → slot_index x i < x.capacity
  slot_index-lt i = mod-lt (x.head + i) ring_bounds.0

  -- Behind fewer items than the queue holds lies another slot than the free one.
  slot_index-tail :
      (i : ℕ) → i < x.count → x.count < x.capacity → (x.tail == slot_index x i) ≡ false
  slot_index-tail i h f =
      let (p, b, c) = ring_bounds in
      ground (
        arith,
        v.tail_place,
        wrap (x.head + i) x.capacity p (ground arith),
        wrap (x.head + x.count) x.capacity p (ground arith),
      )

  slot-Outside : (a i : ℕ) → Outside x a → i < x.capacity → Apart a (queue_slot x i) x.item_size
  unfolding queue_slot
  slot-Outside a i o h = ground (arith, o, slot_end i x.capacity x.item_size h)

  -- For a valid queue whose tail stands count slots behind its head and that is not full, the
  -- items in its buffer after os_QueueSendCurrent's copy and advance are, byte for byte, those
  -- before with the sent item appended.
  pub enqueue_at-items :
      (memory : ℕ → ℕ) (item : ℕ)
      → x.count < x.capacity
      → items (enqueue_at x memory item).0 (enqueue_at x memory item).1
        ≡ push_back (items x memory) (bytes_at memory item x.item_size)
  unfolding enqueue_at queue_slot
  enqueue_at-items memory item f =
      let size = x.item_size in
      let after = memcpy memory (x.buffer + x.tail * size) item size in
      let slot : ℕ → List ℕ =
        λ i. bytes_at after (x.buffer + (x.head + i) % x.capacity * size) size in
      let one_more : x.count + 1 ≡ suc x.count = omega arith in
      ap (listed slot) one_more
      ∙ listed-push_back slot x.count
      ∙ ap₂ push_back
          (listed-ext slot _ x.count (λ i h.
            memcpy-elsewhere memory _ item size _
              (slots-Apart x x.tail (slot_index x i) (slot_index-tail i h f))))
          (ap (λ j. bytes_at after (x.buffer + j * size) size) (sym v.tail_place)
            ∙ memcpy-copied memory (x.buffer + x.tail * size) item size)

  pub enqueue_at-Ring :
      (memory : ℕ → ℕ) (item : ℕ) → x.count < x.capacity → Ring (enqueue_at x memory item).0
  unfolding enqueue_at queue_in_order
  enqueue_at-Ring memory item f = record {
    in_order = ground (arith, v.in_order, mod-lt (x.tail + 1) {m = x.capacity});
    tail_place =
        ap (λ n. (n + 1) % x.capacity) v.tail_place
        ∙ mod-add-mod (x.head + x.count) x.capacity 1
        ∙ ap (λ n. n % x.capacity) (omega arith);
  }

  next_index :
      (i : ℕ) → (x.head + suc i) % x.capacity ≡ ((x.head + 1) % x.capacity + i) % x.capacity
  next_index i =
      ap (λ n. n % x.capacity) (omega arith) ∙ sym (mod-add-mod (x.head + 1) x.capacity i)

  -- For a valid queue whose tail stands count slots behind its head and that is not empty, and a
  -- target outside its buffer, the items before os_QueueReceiveCurrent's copy and advance are the
  -- bytes then at the target followed by the items that stay in the buffer.
  pub dequeue_from-items :
      (memory : ℕ → ℕ) (out_item : ℕ)
      → 0 < x.count
      → Outside x out_item
      → items x memory
        ≡ bytes_at (dequeue_from x memory out_item).1 out_item x.item_size
          ∷ items (dequeue_from x memory out_item).0 (dequeue_from x memory out_item).1
  unfolding dequeue_from queue_slot
  dequeue_from-items memory out_item f o =
      let size = x.item_size in
      let after = memcpy memory out_item (x.buffer + x.head * size) size in
      let slot : ℕ → List ℕ =
        λ i. bytes_at memory (x.buffer + (x.head + i) % x.capacity * size) size in
      let one_less : x.count ≡ suc (x.count - 1) = omega arith in
      let first : (x.head + 0) % x.capacity ≡ x.head =
        mod-eq_of_lt (ground (arith, ring_bounds)) ∙ omega arith in
      ap (listed slot) one_less
      ∙ ap₂ (λ y ys. y ∷ ys)
          (ap (λ j. bytes_at memory (x.buffer + j * size) size) first
            ∙ sym (memcpy-copied memory out_item (x.buffer + x.head * size) size))
          (listed-ext (λ i. slot (suc i)) _ (x.count - 1)
            (λ i h.
              ap (λ j. bytes_at memory (x.buffer + j * size) size) (next_index i)
              ∙ sym (
                  memcpy-elsewhere memory out_item _ size _
                    (slot-Outside out_item _ o (mod-lt _ ring_bounds.0)))))

  pub dequeue_from-Ring :
      (memory : ℕ → ℕ) (out_item : ℕ) → 0 < x.count → Ring (dequeue_from x memory out_item).0
  unfolding dequeue_from queue_in_order
  dequeue_from-Ring memory out_item f = record {
    in_order = ground (arith, v.in_order, mod-lt (x.head + 1) {m = x.capacity});
    tail_place =
        v.tail_place ∙ ap (λ n. (x.head + n) % x.capacity) (omega arith) ∙ next_index (x.count - 1);
  }
