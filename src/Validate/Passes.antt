-- ===== src/Validate/Passes.antt =====
-- The passes of os_KernelValidate together, when all of them end without a fault.
use mini_rtos.Base.{
  ℕ, zero, suc, ◌+◌, ◌<◌, ◌≡◌, refl, Bool, true, false, ◌&&◌, not, Option, none, some, ltb, leb,
  ◌==◌, arith, count, is_empty, if◌then◌else◌, count_up, indices, ◌∙◌,
}
use mini_rtos.Base.Bits.{has_bit, has_bit-zero}
use mini_rtos.Base.Sorted.{Sorted}
use mini_rtos.Kernel.{Kernel, is_running}
use mini_rtos.Invariant.{ByWake}
use mini_rtos.Validate.{
  check_ready, check_delayed, check_tasks, check_counts, check_rest, check_found, kernel_validate,
  current_valid,
}
use mini_rtos.Validate.Walks.{ReadyNode, DelayNode, total, ready_pass-found, delay_pass-found}
use mini_rtos.Validate.Tasks.{TaskFound, used_in, both, tasks-found}

pub count-count_up :
    (start n p : ℕ)
    → count p (count_up start n) ≡ (if leb start p && ltb p (start + n) then 1 else 0)
count-count_up start zero p = ground arith
count-count_up start (suc n) p = ground (arith, count-count_up (start + 1) n p)

-- What the passes leave when all of them end without a fault.
pub record Passed (k : Kernel) (rm dm : ℕ → ℕ) : Type 0 where
  pub ready_nodes : (p u : ℕ) → p < 8 → 0 < count u (k.ready_lists p) → ReadyNode k p u
  pub ready_sums : (u : ℕ) → rm u ≡ total k.ready_lists u (indices 8)
  pub bits : (p : ℕ) → p < 8 → has_bit k.ready_bitmap p ≡ not (is_empty (k.ready_lists p))
  pub delay_nodes : (d u : ℕ) → d < 2 → 0 < count u (k.delayed_lists d) → DelayNode k d u
  pub delay_sums : (u : ℕ) → dm u ≡ count u (k.delayed_lists 0) + count u (k.delayed_lists 1)
  pub delay_sorted : (d : ℕ) → d < 2 → Sorted (ByWake k.tasks) (k.delayed_lists d)
  pub tasks : (t : ℕ) → t < 8 → TaskFound k (rm t) (dm t) t
  pub used : k.task_count ≡ used_in k (indices 8)
  pub current : (t : ℕ) → k.current ≡ some t → is_running (k.tasks t).state ≡ true
  pub idle : k.current ≡ none → (t : ℕ) → t < 8 → is_running (k.tasks t).state ≡ false

check_ready-Passed :
    (k : Kernel) (rm : ℕ → ℕ) (b : ℕ)
    → check_ready k ≡ some (rm, b)
    → ((p u : ℕ) → p < 8 → 0 < count u (k.ready_lists p) → ReadyNode k p u)
      × ((u : ℕ) → rm u ≡ total k.ready_lists u (indices 8))
      × ((p : ℕ) → p < 8 → has_bit b p ≡ not (is_empty (k.ready_lists p)))
unfolding check_ready
check_ready-Passed k rm b e =
    let (nodes, sums, bits) =
      ready_pass-found k (indices 8) 0 b (λ _. 0) rm (λ p h. ground (arith, count-count_up 0 8 p))
        (omega arith) e in
    (
      λ p u h. nodes p u (ground (arith, count-count_up 0 8 p)),
      λ u. omega (arith, sums u),
      λ p h. bits p h ∙ ground (arith, count-count_up 0 8 p, has_bit-zero p h),
    )

check_delayed-Passed :
    (k : Kernel) (dm : ℕ → ℕ)
    → check_delayed k ≡ some dm
    → ((d u : ℕ) → d < 2 → 0 < count u (k.delayed_lists d) → DelayNode k d u)
      × ((u : ℕ) → dm u ≡ count u (k.delayed_lists 0) + count u (k.delayed_lists 1))
      × ((d : ℕ) → d < 2 → Sorted (ByWake k.tasks) (k.delayed_lists d))
unfolding check_delayed
check_delayed-Passed k dm e =
    let (nodes, sums, sorted) =
      delay_pass-found k (indices 2) (λ _. 0) dm
        (lists_differ (k.px_delayed == k.px_overflow_delayed) _ e) in
    (
      λ d u h. nodes d u (ground (arith, count-count_up 0 2 d)),
      λ u. omega (arith, sums u),
      λ d h. sorted d (ground (arith, count-count_up 0 2 d)),
    )
  where
    lists_differ : (b : Bool) (x : Option (ℕ → ℕ)) → (if b then none else x) ≡ some dm → x ≡ some dm
    lists_differ true x e = absurd (ground arith)
    lists_differ false x e = e

current-idle :
    (k : Kernel) (current : Option ℕ) (n : ℕ)
    → current_valid k current n ≡ true
    → ((t : ℕ) → current ≡ some t → is_running (k.tasks t).state ≡ true) × (current ≡ none → n ≡ 0)
current-idle k none n e = (λ t c. absurd (ground arith), λ _. ground arith)
current-idle k (some u) n e = (λ t c. ground arith, λ c. absurd (ground arith))

check_tasks-Passed :
    (k : Kernel) (rm dm : ℕ → ℕ) (o : Option (ℕ × ℕ))
    → check_tasks k rm dm ≡ o
    → check_counts k o ≡ true
    → ((t : ℕ) → t < 8 → TaskFound k (rm t) (dm t) t)
      × (k.task_count ≡ used_in k (indices 8))
      × ((t : ℕ) → k.current ≡ some t → is_running (k.tasks t).state ≡ true)
      × (k.current ≡ none → (t : ℕ) → t < 8 → is_running (k.tasks t).state ≡ false)
unfolding check_tasks check_counts
check_tasks-Passed k rm dm none e c = absurd (ground arith)
check_tasks-Passed k rm dm (some (n, r)) e c =
    let (found, sum, runners, more) = tasks-found k rm dm (indices 8) 0 n 0 r e in
    let (current, idle) = current-idle k k.current r (ground arith) in
    let member : (t : ℕ) → t < 8 → 0 < count t (indices 8) =
      λ t h. ground (arith, count-count_up 0 8 t) in
    (
      λ t h. found t (member t h),
      counts (used_in k (indices 8)) sum,
      current,
      λ z t h. stays (is_running (k.tasks t).state) (runners t (member t h)) (idle z),
    )
  where
    counts : (used : ℕ) → n ≡ 0 + used → k.task_count ≡ used
    counts used s = ground arith

    stays : (b : Bool) → (b ≡ true → 0 < r) → r ≡ 0 → b ≡ false
    stays true more z = absurd (omega (arith, more refl))
    stays false more z = refl

module _ (k : Kernel) where
  rest-Passed :
      (rm : ℕ → ℕ) (b : ℕ) (o : Option (ℕ → ℕ))
      → check_ready k ≡ some (rm, b)
      → b ≡ k.ready_bitmap
      → check_delayed k ≡ o
      → check_rest k rm o ≡ true
      → (dm : ℕ → ℕ) × Passed k rm dm
  unfolding check_rest
  rest-Passed rm b none e same f c = absurd (ground arith)
  rest-Passed rm b (some dm) e same f c =
      let (ready_nodes, ready_sums, bits) = check_ready-Passed k rm b e in
      let (delay_nodes, delay_sums, delay_sorted) = check_delayed-Passed k dm f in
      let (tasks, used, current, idle) = check_tasks-Passed k rm dm (check_tasks k rm dm) refl c in
      (
        dm,
        record {
          ready_nodes = ready_nodes;
          ready_sums = ready_sums;
          bits = rw same at bits;
          delay_nodes = delay_nodes;
          delay_sums = delay_sums;
          delay_sorted = delay_sorted;
          tasks = tasks;
          used = used;
          current = current;
          idle = idle;
        },
      )

  found-Passed :
      (o : Option ((ℕ → ℕ) × ℕ))
      → check_ready k ≡ o
      → check_found k o ≡ true
      → (rm : ℕ → ℕ) × (dm : ℕ → ℕ) × Passed k rm dm
  unfolding check_found
  found-Passed none e c = absurd (ground arith)
  found-Passed (some (rm, b)) e c =
      let (same, rest) = both (b == k.ready_bitmap) (check_rest k rm (check_delayed k)) c in
      let (dm, v) = rest-Passed rm b (check_delayed k) e (ground arith) refl rest in (rm, dm, v)

  pub kernel_validate-Passed :
      kernel_validate k ≡ true → (rm : ℕ → ℕ) × (dm : ℕ → ℕ) × Passed k rm dm
  unfolding kernel_validate
  kernel_validate-Passed c =
      found-Passed (check_ready k) refl
        (both (k.initialized && leb k.task_count 8) (check_found k (check_ready k)) c).1
