-- ===== src/CortexM/Frame.antt =====
-- The initial stack frame of os_port_stack_init: where it lies and what it holds.
use Prim.Native.Nat.{bit_or}
use mini_rtos.Base.{
  ℕ, ◌+◌, ◌-◌, ◌*◌, ◌%◌, ◌≤◌, ◌<◌, ◌≡◌, refl, false, ◌||◌, ◌⊎◌, List, [], ◌∷◌, ltb, ◌==◌, if_both,
  arith, length, update,
}
use mini_rtos.Kernel.{u32, min_stack_bytes}
use mini_rtos.CortexM.{push_words, initial_frame, aligned_top, machine_stack_init, load_registers}

-- Pushing moves the stack pointer down by four bytes for each word, ...
push_words-top :
    (words : ℕ → ℕ) (top : ℕ) (vs : List ℕ)
    → 4 * length vs ≤ top
    → (push_words words top vs).1 ≡ top - 4 * length vs
unfolding push_words
push_words-top words top [] h = omega arith
push_words-top words top (v ∷ vs) h =
    omega (arith, push_words-top (update words (top - 4) v) (top - 4) vs (omega arith))

-- ... and writes nothing outside that range.
push_words-outside :
    (words : ℕ → ℕ) (top : ℕ) (vs : List ℕ) (a : ℕ)
    → 4 * length vs ≤ top
    → (a + 4 * length vs < top) ⊎ (top ≤ a)
    → (push_words words top vs).0 a ≡ words a
unfolding push_words
push_words-outside words top [] a h o = refl
push_words-outside words top (v ∷ vs) a h o =
    ground (arith, push_words-outside (update words (top - 4) v) (top - 4) vs a)

-- A frame of a stack that os_port_stack_init accepts, and that ends within the address space.
pub record Framed (words : ℕ → ℕ) (stack_memory stack_size : ℕ) (r : (ℕ → ℕ) × ℕ) : Type 0 where
  pub above : stack_memory ≤ r.1
  pub below : r.1 + 64 ≤ stack_memory + stack_size
  pub aligned : r.1 % 8 ≡ 0
  pub outside : (a : ℕ) → (a < stack_memory) ⊎ (stack_memory + stack_size ≤ a) → r.0 a ≡ words a

module _ (task_exit : ℕ) (words : ℕ → ℕ) (entry argument stack_memory stack_size : ℕ) where
  -- For a stack that ends within the 32-bit address space and has 64 bytes left when its end is
  -- rounded down to a multiple of 8, with a task entry, os_port_stack_init puts its frame of 64
  -- bytes inside the stack, at an address that is a multiple of 8, and changes no word outside
  -- the stack.
  pub machine_stack_init-Framed :
      (entry == 0) ≡ false
      → (stack_memory == 0) ≡ false
      → 64 + (stack_memory + stack_size) % 8 ≤ stack_size
      → stack_memory + stack_size < 4294967296
      → Framed words stack_memory stack_size
          (machine_stack_init task_exit words entry argument stack_memory stack_size)
  unfolding machine_stack_init
  machine_stack_init-Framed e s h b =
      let top = aligned_top stack_memory stack_size in
      let vs = initial_frame task_exit entry argument in
      let place : stack_memory + 64 ≤ top = omega arith in
      let end : top ≤ stack_memory + stack_size = omega arith in
      let even : top % 8 ≡ 0 = omega arith in
      let sp = push_words-top words top vs (omega arith) in
      if_both (Framed words stack_memory stack_size)
        (entry == 0 || stack_memory == 0 || ltb stack_size 64) (λ y. absurd (ground arith))
        (λ n. record {
          above = omega arith;
          below = omega arith;
          aligned = omega arith;
          outside = λ a o. push_words-outside words top vs a (omega arith) (ground (arith, o));
        })

  -- For a stack of exactly OS_MIN_STACK_BYTES whose end is no multiple of 8 and within the 32-bit
  -- address space, with a task entry, the stack pointer that os_port_stack_init returns lies
  -- below the stack.
  pub machine_stack_init-below :
      (entry == 0) ≡ false
      → (stack_memory == 0) ≡ false
      → stack_size ≡ min_stack_bytes
      → 0 < (stack_memory + stack_size) % 8
      → stack_memory + stack_size < 4294967296
      → (machine_stack_init task_exit words entry argument stack_memory stack_size).1 < stack_memory
  unfolding machine_stack_init
  machine_stack_init-below e s h o b =
      let top = aligned_top stack_memory stack_size in
      let sp = push_words-top words top (initial_frame task_exit entry argument) (omega arith) in
      ground (arith, sp)

-- What the first resume of a task finds: R4 to R11 at the stack pointer, then the hardware's frame.
pub record Startable (task_exit entry argument : ℕ) (r : (ℕ → ℕ) × ℕ) : Type 0 where
  pub callee_saved : (i : ℕ) → 4 ≤ i → i ≤ 11 → load_registers r.0 r.1 i ≡ i
  pub r0 : r.0 (r.1 + 32) ≡ u32 argument
  pub lr : r.0 (r.1 + 52) ≡ u32 task_exit
  pub pc : r.0 (r.1 + 56) ≡ bit_or (u32 entry) 1
  pub xpsr : r.0 (r.1 + 60) ≡ 0x0100_0000

frame_words-Startable :
    (task_exit entry argument : ℕ) (words : ℕ → ℕ) (top base : ℕ)
    → top ≡ base + 64
    → Startable task_exit entry argument
        (push_words words top (initial_frame task_exit entry argument))
unfolding push_words load_registers
frame_words-Startable task_exit entry argument words top base e = rw e (record {
  callee_saved = λ i lo hi. ground arith;
  r0 = ground arith;
  lr = ground arith;
  pc = ground arith;
  xpsr = ground arith;
})

-- For a stack of at least OS_MIN_STACK_BYTES that ends at address 72 or above and within the
-- 32-bit address space, with a task entry, the words at the stack pointer that os_port_stack_init
-- returns give R4 to R11 their own numbers and the exception frame the argument as R0, the exit
-- function as LR, the entry with its Thumb bit as PC and the Thumb state as xPSR.
pub machine_stack_init-Startable :
    (task_exit : ℕ) (words : ℕ → ℕ) (entry argument stack_memory stack_size : ℕ)
    → (entry == 0) ≡ false
    → (stack_memory == 0) ≡ false
    → min_stack_bytes ≤ stack_size
    → 72 ≤ stack_memory + stack_size
    → stack_memory + stack_size < 4294967296
    → Startable task_exit entry argument
        (machine_stack_init task_exit words entry argument stack_memory stack_size)
unfolding machine_stack_init
machine_stack_init-Startable task_exit words entry argument stack_memory stack_size e s h d b =
    let top = aligned_top stack_memory stack_size in
    if_both (Startable task_exit entry argument)
      (entry == 0 || stack_memory == 0 || ltb stack_size 64) (λ y. absurd (ground arith))
      (λ n. frame_words-Startable task_exit entry argument words top (top - 64) (omega arith))
