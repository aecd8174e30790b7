-- ===== src/Ready/Links.antt =====
-- The ready queue operations keep the structural invariant.
use mini_rtos.Base.{
  ℕ, ◌<◌, ◌≡◌, refl, true, false, none, some, List, [], ◌∷◌, is_empty, count, arith,
  count-push_back, push_back, Bool-cases, inl, inr, count-remove, List-cases, Option-cases, zero,
  suc,
}
use mini_rtos.Base.Bits.{has_bit, has_bit-set_bit, has_bit-clear_bit, set_bit-lt, clear_bit-lt}
use mini_rtos.Kernel.{Kernel, is_ready, priority_count}
use mini_rtos.Invariant.{Linked, rerank, rewake}
use mini_rtos.Ready.{
  ready_enqueue, ready_remove, ready_pop, ready_pop_highest, highest_below, ready_highest_priority,
}

is_empty-push_back : (xs : List ℕ) (x : ℕ) → is_empty (push_back xs x) ≡ false
is_empty-push_back [] x = refl
is_empty-push_back (y ∷ xs) x = refl

-- os_ReadyEnqueue keeps the structural invariant, whatever it is called on.
pub ready_enqueue-Linked : (k : Kernel) (t : ℕ) → Linked k → Linked (ready_enqueue k t)
unfolding ready_enqueue
ready_enqueue-Linked k t v = record {
  ready_counted = λ u p. ground (arith, v.ready_counted u p, count-push_back u (k.ready_lists p) t);
  wait_counted = λ u w. ground (arith, v.wait_counted u w);
  delay_counted = λ u d. ground (arith, v.delay_counted u d);
  wait_sorted =
      rerank v (ready_enqueue k t).tasks (ready_enqueue k t).waiters (λ w. ground arith)
        (λ u w l. ground arith);
  delay_sorted =
      rewake v (ready_enqueue k t).tasks (ready_enqueue k t).delayed_lists (λ d. ground arith)
        (λ u d l. ground arith);
  priority_bound = λ u. ground (arith, v.priority_bound u);
  bitmap_bound = ground (
    arith,
    v.bitmap_bound,
    v.priority_bound t,
    set_bit-lt k.ready_bitmap (k.tasks t).effective_priority 0,
  );
  bitmap_exact = λ p h. ground (
    arith,
    v.bitmap_exact p h,
    v.bitmap_bound,
    v.priority_bound t,
    is_empty-push_back (k.ready_lists p) t,
    has_bit-set_bit k.ready_bitmap (k.tasks t).effective_priority p,
  );
}

count-pos_ne : (x : ℕ) (xs : List ℕ) → 0 < count x xs → is_empty xs ≡ false
count-pos_ne x [] h = absurd (omega arith)
count-pos_ne x (y ∷ xs) h = refl

-- os_ReadyRemove keeps it where the task is READY, as its caller checks.
pub ready_remove-Linked :
    (k : Kernel) (t : ℕ)
    → Linked k
    → is_ready (k.tasks t).state ≡ true
    → Linked (ready_remove k t).0
unfolding ready_remove
ready_remove-Linked k t v r = record {
  ready_counted = λ u p. ground (
    arith,
    v.ready_counted u p,
    v.ready_counted t (k.tasks t).effective_priority,
    count-remove u (k.ready_lists p) t,
  );
  wait_counted = λ u w. ground (arith, v.wait_counted u w);
  delay_counted = λ u d. ground (arith, v.delay_counted u d);
  wait_sorted =
      rerank v (ready_remove k t).0.tasks (ready_remove k t).0.waiters (λ w. ground arith)
        (λ u w l. ground arith);
  delay_sorted =
      rewake v (ready_remove k t).0.tasks (ready_remove k t).0.delayed_lists (λ d. ground arith)
        (λ u d l. ground arith);
  priority_bound = λ u. ground (arith, v.priority_bound u);
  bitmap_bound = ground (
    arith,
    v.bitmap_bound,
    v.priority_bound t,
    clear_bit-lt k.ready_bitmap (k.tasks t).effective_priority 0,
  );
  bitmap_exact = λ p h. ground (
    arith,
    v.bitmap_exact p h,
    v.bitmap_bound,
    v.priority_bound t,
    v.ready_counted t (k.tasks t).effective_priority,
    count-pos_ne t (k.ready_lists p),
    has_bit-clear_bit k.ready_bitmap (k.tasks t).effective_priority p,
  );
}

ready_pop-cons :
    (k : Kernel) (p t : ℕ) (ts : List ℕ)
    → k.ready_lists p ≡ t ∷ ts
    → Linked k
    → p < priority_count
    → Linked (ready_pop k p).0
unfolding ready_pop
ready_pop-cons k p t ts e v h = record {
  ready_counted =
      λ u q. ground (arith, v.ready_counted u q, v.ready_counted u p, v.ready_counted t p);
  wait_counted = λ u w. ground (arith, v.wait_counted u w, v.ready_counted t p);
  delay_counted = λ u d. ground (arith, v.delay_counted u d);
  wait_sorted =
      rerank v (ready_pop k p).0.tasks (ready_pop k p).0.waiters (λ w. ground arith)
        (λ u w l. ground arith);
  delay_sorted =
      rewake v (ready_pop k p).0.tasks (ready_pop k p).0.delayed_lists (λ d. ground arith)
        (λ u d l. ground arith);
  priority_bound = λ u. ground (arith, v.priority_bound u);
  bitmap_bound = ground (arith, v.bitmap_bound, clear_bit-lt k.ready_bitmap p 0);
  bitmap_exact = λ q l.
      ground (arith, v.bitmap_exact q l, v.bitmap_bound, has_bit-clear_bit k.ready_bitmap p q);
}

ready_pop-nil :
    (k : Kernel) (p : ℕ)
    → k.ready_lists p ≡ []
    → Linked k
    → p < priority_count
    → Linked (ready_pop k p).0
unfolding ready_pop
ready_pop-nil k p e v h = record {
  ready_counted = λ u q. ground (arith, v.ready_counted u q);
  wait_counted = λ u w. ground (arith, v.wait_counted u w);
  delay_counted = λ u d. ground (arith, v.delay_counted u d);
  wait_sorted =
      rerank v (ready_pop k p).0.tasks (ready_pop k p).0.waiters (λ w. ground arith)
        (λ u w l. ground arith);
  delay_sorted =
      rewake v (ready_pop k p).0.tasks (ready_pop k p).0.delayed_lists (λ d. ground arith)
        (λ u d l. ground arith);
  priority_bound = λ u. ground (arith, v.priority_bound u);
  bitmap_bound = ground (arith, v.bitmap_bound, clear_bit-lt k.ready_bitmap p 0);
  bitmap_exact = λ q l.
      ground (arith, v.bitmap_exact q l, v.bitmap_bound, has_bit-clear_bit k.ready_bitmap p q);
}

-- os_ReadyPopHighest on the queue of priority `p`
pub ready_pop-Linked :
    (k : Kernel) (p : ℕ) → Linked k → p < priority_count → Linked (ready_pop k p).0
ready_pop-Linked k p v h = elim (List-cases (k.ready_lists p)) [
  | inl e ↦ ready_pop-nil k p e v h
  | inr (t, ts, e) ↦ ready_pop-cons k p t ts e v h
]

pub highest_below-lt : (b n : ℕ) {p : ℕ} → highest_below b n ≡ some p → p < n
unfolding highest_below
highest_below-lt b zero e = cc
highest_below-lt b (suc n) {p} e = elim (Bool-cases (has_bit b n)) [
  | inl y ↦ ground arith
  | inr n' ↦ ground (arith, highest_below-lt b n {p = p})
]

pub ready_pop_highest-none :
    (k : Kernel) → ready_highest_priority k ≡ none → ready_pop_highest k ≡ (k, none)
unfolding ready_pop_highest
ready_pop_highest-none k e = rw (e, ready_pop_highest)

pub ready_pop_highest-some :
    (k : Kernel) (p : ℕ) → ready_highest_priority k ≡ some p → ready_pop_highest k ≡ ready_pop k p
unfolding ready_pop_highest
ready_pop_highest-some k p e = rw (e, ready_pop_highest)

pub highest-lt : (k : Kernel) {p : ℕ} → ready_highest_priority k ≡ some p → p < priority_count
unfolding ready_highest_priority
highest-lt k e = highest_below-lt k.ready_bitmap 8 e

-- os_ReadyPopHighest keeps the structural invariant.
pub ready_pop_highest-Linked : (k : Kernel) → Linked k → Linked (ready_pop_highest k).0
ready_pop_highest-Linked k v = elim (Option-cases (ready_highest_priority k)) [
  | inl e ↦ rw (ready_pop_highest-none k e) v
  | inr (p, e) ↦ rw (ready_pop_highest-some k p e) (ready_pop-Linked k p v (highest-lt k e))
]

pub highest_below-has_bit : (b n : ℕ) {p : ℕ} → highest_below b n ≡ some p → has_bit b p ≡ true
unfolding highest_below
highest_below-has_bit b zero e = cc
highest_below-has_bit b (suc n) {p} e = elim (Bool-cases (has_bit b n)) [
  | inl y ↦ ground arith
  | inr n' ↦ ground (arith, highest_below-has_bit b n {p = p})
]
