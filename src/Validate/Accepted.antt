-- ===== src/Validate/Accepted.antt =====
-- A kernel that os_KernelValidate accepts is in order.
use mini_rtos.Base.{
  ℕ, zero, suc, ◌+◌, ◌≤◌, ◌<◌, ◌≡◌, refl, Bool, true, false, ◌&&◌, not, Option, none, some, ltb,
  leb, ◌==◌, inl, inr, arith, count, is_empty, same_handle, if◌then◌else◌, indices, Bool-cases, sym,
  ◌∙◌, is_none,
}
use mini_rtos.Base.Bits.{has_bit}
use mini_rtos.Base.Sorted.{Sorted}
use mini_rtos.Kernel.{
  Task, TaskState, Kernel, is_ready, is_running, unused, ready, running, blocked_delay,
  blocked_object, terminated, is_no_wait, wait_forever,
}
use mini_rtos.Invariant.{ByWake, in_ready, in_delay, once, runs, no_object}
use mini_rtos.Validate.{kernel_validate, is_unused, check_state, waits_listed}
use mini_rtos.Validate.Walks.{total, total-home}
use mini_rtos.Validate.Tasks.{both, used_in, check_state-ready, check_state-delay}
use mini_rtos.Validate.Passes.{Passed, count-count_up, kernel_validate-Passed}

-- What the state of a task says of its nodes and of whether it is the current one
abbrev pub settles : TaskState → Task → Bool → Bool
settles unused x runs = not x.schedule_linked && not x.delay_linked && not runs
settles ready x runs = x.schedule_linked && not x.delay_linked && not runs && no_object x
settles running x runs = not x.schedule_linked && not x.delay_linked && runs && no_object x
settles blocked_delay x runs = not x.schedule_linked && x.delay_linked && not runs
settles blocked_object x runs = x.schedule_linked && not runs && not (is_no_wait x.wait_kind)
settles terminated x runs = not x.schedule_linked && not x.delay_linked && not runs

pub record Accepted (k : Kernel) : Type 0 where
  pub ready_known : (t p : ℕ) → p < 8 → 0 < count t (k.ready_lists p) → t < 8
  pub delay_known : (t d : ℕ) → d < 2 → 0 < count t (k.delayed_lists d) → t < 8
  pub ready_counted :
      (t p : ℕ) → t < 8 → p < 8 → count t (k.ready_lists p) ≡ once (in_ready (k.tasks t) p)
  pub delay_counted :
      (t d : ℕ) → t < 8 → d < 2 → count t (k.delayed_lists d) ≡ once (in_delay (k.tasks t) d)
  pub delay_sorted : (d : ℕ) → d < 2 → Sorted (ByWake k.tasks) (k.delayed_lists d)
  pub bitmap_exact : (p : ℕ) → p < 8 → has_bit k.ready_bitmap p ≡ not (is_empty (k.ready_lists p))
  pub settled : (t : ℕ) → t < 8 → settles (k.tasks t).state (k.tasks t) (runs k t) ≡ true
  pub counted : k.task_count ≡ used_in k (indices 8)

module _ (k : Kernel) (rm dm : ℕ → ℕ) (v : Passed k rm dm) where
  -- A READY task is in the queue of its priority, once.
  ready-home :
      (t : ℕ)
      → t < 8
      → is_ready (k.tasks t).state ≡ true
      → (count t (k.ready_lists (k.tasks t).effective_priority) ≡ 1)
        × ((k.tasks t).effective_priority < 8)
  ready-home t h r =
      let found = v.tasks t h in
      let met =
        check_state-ready k t (rm t) (dm t) (k.tasks t).state
          (found.checked (ready_used (k.tasks t).state r)) r in
      let home = (k.tasks t).effective_priority in
      let all =
        total-home k.ready_lists t home (indices 8)
          (λ p i c. sym (v.ready_nodes p t (below p i) c).rank) (once_each home) in
      let sums : rm t ≡ total k.ready_lists t (indices 8) = v.ready_sums t in
      at_home home (count t (k.ready_lists home)) (total k.ready_lists t (indices 8))
        (sym sums ∙ met) all (count-count_up 0 8 home)
    where
      ready_used : (s : TaskState) → is_ready s ≡ true → is_unused s ≡ false
      ready_used unused r = absurd (ground arith)
      ready_used ready r = refl
      ready_used running r = refl
      ready_used blocked_delay r = refl
      ready_used blocked_object r = refl
      ready_used terminated r = refl

      below : (p : ℕ) → 0 < count p (indices 8) → p < 8
      below p i = ground (arith, count-count_up 0 8 p)

      once_each : (p : ℕ) → count p (indices 8) ≤ 1
      once_each p = ground (arith, count-count_up 0 8 p)

      at_home :
          (home c all : ℕ)
          → all ≡ 1
          → all ≡ (if ltb 0 (count home (indices 8)) then c else 0)
          → count home (indices 8) ≡ (if leb 0 home && ltb home (0 + 8) then 1 else 0)
          → (c ≡ 1) × (home < 8)
      at_home home c all one e i = (ground arith, ground arith)

  ready-counted :
      (t p : ℕ) → t < 8 → p < 8 → count t (k.ready_lists p) ≡ once (in_ready (k.tasks t) p)
  ready-counted t p h i =
      let home = (k.tasks t).effective_priority in
      elim (Bool-cases (is_ready (k.tasks t).state)) [
        | inl r ↦
            let (one, low) = ready-home t h r in
            let node = v.ready_nodes home t low (omega (arith, one)) in
            elim (Bool-cases (home == p)) [
              | inl y ↦
                  let same : home ≡ p = ground arith in
                  rw (sym same) (one ∙ ground (arith, node.linked, r))
              | inr y ↦
                  zero_elsewhere (count t (k.ready_lists p)) home
                    (λ c. (v.ready_nodes p t i c).rank) y
                  ∙ ground (arith, y)
            ]
        | inr r ↦
            unready (count t (k.ready_lists p)) (is_ready (k.tasks t).state)
              (λ c. (v.ready_nodes p t i c).state) r
            ∙ ground (arith, r)
      ]
    where
      zero_elsewhere : (c home : ℕ) → (0 < c → home ≡ p) → (home == p) ≡ false → c ≡ 0
      zero_elsewhere zero home f n = refl
      zero_elsewhere (suc c) home f n = absurd (ground (arith, f))

      unready : (c : ℕ) (b : Bool) → (0 < c → b ≡ true) → b ≡ false → c ≡ 0
      unready zero b f n = refl
      unready (suc c) b f n = absurd (ground (arith, f))

  -- A linked delay node was met once.
  delay-met : (t : ℕ) → t < 8 → (k.tasks t).delay_linked ≡ true → dm t ≡ 1
  delay-met t h l =
      let found = v.tasks t h in
      elim (Bool-cases (is_unused (k.tasks t).state)) [
        | inl u ↦ absurd (clash (k.tasks t).delay_linked l (found.free u).1)
        | inr u ↦ check_state-delay k t (rm t) (dm t) (k.tasks t).state (found.checked u) l
      ]
    where
      clash : (b : Bool) → b ≡ true → b ≡ false → ⊥
      clash true e f = absurd (ground arith)
      clash false e f = absurd (ground arith)

  delay-counted :
      (t d : ℕ) → t < 8 → d < 2 → count t (k.delayed_lists d) ≡ once (in_delay (k.tasks t) d)
  delay-counted t d h i =
      let node =
        λ (e : ℕ) (j : e < 2) (c : 0 < count t (k.delayed_lists e)). v.delay_nodes e t j c in
      decide (k.tasks t).delay_linked (k.tasks t).delay_list (count t (k.delayed_lists 0))
        (count t (k.delayed_lists 1)) d i
        (λ c. ((node 0 (omega arith) c).linked, (node 0 (omega arith) c).named))
        (λ c. ((node 1 (omega arith) c).linked, (node 1 (omega arith) c).named))
        (λ l. sym (v.delay_sums t) ∙ delay-met t h l) (λ e. count t (k.delayed_lists e)) refl refl
    where
      decide :
          (linked : Bool) (list : Option ℕ) (a b d : ℕ)
          → d < 2
          → (0 < a → (linked ≡ true) × (same_handle list (some 0) ≡ true))
          → (0 < b → (linked ≡ true) × (same_handle list (some 1) ≡ true))
          → (linked ≡ true → a + b ≡ 1)
          → (c : ℕ → ℕ) → c 0 ≡ a
          → c 1 ≡ b
          → c d ≡ once (linked && same_handle list (some d))
      decide linked list a b d i f g s c x y = elim (Bool-cases (d == 0)) [
        | inl z ↦ ground (arith, f, g, s)
        | inr z ↦ ground (arith, f, g, s)
      ]

-- The checks of one state, put together
settles-checked :
    (k : Kernel) (t a b : ℕ) (s : TaskState)
    → (is_unused s ≡ true
        → ((k.tasks t).schedule_linked ≡ false) × ((k.tasks t).delay_linked ≡ false))
    → (is_unused s ≡ false → check_state k t s a b ≡ true)
    → (is_ready s ≡ true → (k.tasks t).schedule_linked ≡ true)
    → (is_running s ≡ false → runs k t ≡ false)
    → settles s (k.tasks t) (runs k t) ≡ true
unfolding check_state
settles-checked k t a b unused free c l r = ground (arith, free, r)
settles-checked k t a b ready free c l r = ground (arith, c refl, l refl, r refl)
settles-checked k t a b running free c l r = ground (arith, c refl)
settles-checked k t a b blocked_delay free c l r = ground (arith, c refl, r refl)
settles-checked k t a b blocked_object free c l r =
    let x = k.tasks t in
    let (first, timed) =
      both
        ((a == 0)
          && x.schedule_linked
          && not (is_no_wait x.wait_kind)
          && waits_listed k x.wait_list t)
        (if x.delay_linked
          then (b == 1) && not (is_none x.delay_list) && (x.wake_tick == x.wait_deadline)
          else (b == 0) && is_none x.delay_list && (x.wait_deadline == wait_forever))
        (c refl) in
    ground (arith, first, r refl)
settles-checked k t a b terminated free c l r = ground (arith, c refl, r refl)

current-else :
    (k : Kernel) (current : Option ℕ) (t : ℕ)
    → ((u : ℕ) → current ≡ some u → is_running (k.tasks u).state ≡ true)
    → is_running (k.tasks t).state ≡ false
    → same_handle current (some t) ≡ false
current-else k none t f n = refl
current-else k (some u) t f n = elim (Bool-cases (u == t)) [
  | inl y ↦ let same : u ≡ t = ground arith in absurd (ground (arith, f u refl, same))
  | inr y ↦ y
]

-- Where os_KernelValidate returns true, the ready queues and the two delay lists hold only tasks
-- of the pool; each task of the pool is in the ready queue and the delay list that its TCB names,
-- once, and in no other; the delay lists are in ascending order of wake tick; the bitmap names
-- the nonempty ready queues; the nodes and wait fields of each task agree with its state and with
-- whether it is the current one; and task_count is the number of tasks in use.
pub kernel_validate-Accepted : (k : Kernel) → kernel_validate k ≡ true → Accepted k
kernel_validate-Accepted k e =
    let (rm, dm, v) = kernel_validate-Passed k e in
    record {
      ready_known = λ t p i c. (v.ready_nodes p t i c).place;
      delay_known = λ t d i c. (v.delay_nodes d t i c).place;
      ready_counted = ready-counted k rm dm v;
      delay_counted = delay-counted k rm dm v;
      delay_sorted = v.delay_sorted;
      bitmap_exact = v.bits;
      settled = λ t h.
          settles-checked k t (rm t) (dm t) (k.tasks t).state (v.tasks t h).free
            (v.tasks t h).checked
            (λ r.
              let (one, low) = ready-home k rm dm v t h r in
              (v.ready_nodes (k.tasks t).effective_priority t low (omega (arith, one))).linked)
            (current-else k k.current t v.current);
      counted = v.used;
    }
