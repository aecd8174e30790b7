-- ===== src/Sched/Highest.antt =====
-- What the scheduler chooses.
use mini_rtos.Base.{
  ℕ, zero, suc, ◌≤◌, ◌<◌, ◌≡◌, Bool, true, false, ◌&&◌, ◌||◌, Option, none, some, List, [], ◌∷◌,
  ◌==◌, inl, inr, arith, is_empty, Bool-cases, Option-cases, count, head?, refl, if_both, ltb, sym,
}
use mathlib.Core.Path.{subst}
use mini_rtos.Base.Bits.{has_bit}
use mini_rtos.Kernel.{Kernel, SwitchReason, is_ready, is_running}
use mini_rtos.Invariant.{Linked, Inv, Parked}
use mini_rtos.Ready.{highest_below, ready_highest_priority, ready_pop, commit_switch}
use mini_rtos.Ready.Links.{ready_pop_highest-none, ready_pop_highest-some}
use mini_rtos.Sched.{
  sched_schedule, switch_to_highest, schedule_started, preempt_or_rotate, requeue,
}
use mini_rtos.Sched.Invariant.{highest-nonempty, current-runs, requeue-Parked, idle-Parked}

pub highest_below-max :
    (b n q : ℕ) (p : ℕ) → highest_below b n ≡ some p → q < n → has_bit b q ≡ true → q ≤ p
unfolding highest_below
highest_below-max b zero q p e h t = absurd (omega arith)
highest_below-max b (suc n) q p e h t = elim (Bool-cases (has_bit b n)) [
  | inl y ↦ ground arith
  | inr m ↦ ground (arith, highest_below-max b n q p)
]

highest_below-none : (b n q : ℕ) → highest_below b n ≡ none → q < n → has_bit b q ≡ false
unfolding highest_below
highest_below-none b zero q e h = absurd (omega arith)
highest_below-none b (suc n) q e h = elim (Bool-cases (has_bit b n)) [
  | inl y ↦ ground arith
  | inr m ↦ ground (arith, highest_below-none b n q)
]

count-nonempty : (x : ℕ) (xs : List ℕ) → is_empty xs ≡ true → count x xs ≡ 0
count-nonempty x [] e = refl
count-nonempty x (y ∷ ys) e = absurd (ground arith)

in_ready_list :
    (k : Kernel) (u : ℕ)
    → Linked k
    → (k.tasks u).schedule_linked ≡ true
    → is_ready (k.tasks u).state ≡ true
    → is_empty (k.ready_lists (k.tasks u).effective_priority) ≡ false
in_ready_list k u v l r =
    let p = (k.tasks u).effective_priority in
    ground (arith, v.ready_counted u p, count-nonempty u (k.ready_lists p))

-- os_ReadyHighestPriority is the highest effective priority of a queued READY task.
pub ready_highest-max :
    (k : Kernel) (p u : ℕ)
    → Linked k
    → ready_highest_priority k ≡ some p
    → (k.tasks u).schedule_linked ≡ true
    → is_ready (k.tasks u).state ≡ true
    → (k.tasks u).effective_priority ≤ p
unfolding ready_highest_priority
ready_highest-max k p u v e l r =
    let q = (k.tasks u).effective_priority in
    highest_below-max k.ready_bitmap 8 q p e (v.priority_bound u)
      (ground (arith, v.bitmap_exact q (v.priority_bound u), in_ready_list k u v l r))

-- Where it is -1, no READY task is queued.
pub ready_highest-none :
    (k : Kernel) (u : ℕ)
    → Linked k
    → ready_highest_priority k ≡ none
    → (k.tasks u).schedule_linked ≡ true
    → is_ready (k.tasks u).state ≡ false
unfolding ready_highest_priority
ready_highest-none k u v e l = elim (Bool-cases (is_ready (k.tasks u).state)) [
  | inr n ↦ n
  | inl r ↦
      let q = (k.tasks u).effective_priority in
      absurd (
        ground (
          arith,
          highest_below-none k.ready_bitmap 8 q e (v.priority_bound u),
          v.bitmap_exact q (v.priority_bound u),
          in_ready_list k u v l r,
        ))
]

-- No READY task has a higher effective priority than the current task.
abbrev pub Highest : Kernel → Type 0
Highest k =
    (u : ℕ)
    → is_ready (k.tasks u).state ≡ true
    → (c : ℕ) × (k.current ≡ some c)
      × ((k.tasks u).effective_priority ≤ (k.tasks c).effective_priority)

commit_pop-Highest :
    (k : Kernel) (previous : Option ℕ) (reason : SwitchReason) (p t : ℕ) (ts : List ℕ)
    → Parked k
    → ready_highest_priority k ≡ some p
    → k.ready_lists p ≡ t ∷ ts
    → Highest (commit_switch (ready_pop k p).0 previous (some t) reason).0
unfolding commit_switch ready_pop
commit_pop-Highest k previous reason p t ts v e f u r = (
  t,
  ground arith,
  ground (arith, v.settled u, v.linked.ready_counted t p, ready_highest-max k p u v.linked e),
)

commit_none-Highest :
    (k : Kernel) (previous : Option ℕ) (reason : SwitchReason)
    → Parked k
    → ready_highest_priority k ≡ none
    → Highest (commit_switch k previous none reason).0
unfolding commit_switch
commit_none-Highest k previous reason v e u r =
    absurd (ground (arith, v.settled u, ready_highest-none k u v.linked e))

switch_pop-Highest :
    (k : Kernel) (previous : Option ℕ) (reason : SwitchReason) (p : ℕ) (xs : List ℕ)
    → Parked k
    → ready_highest_priority k ≡ some p
    → k.ready_lists p ≡ xs
    → Highest (commit_switch (ready_pop k p).0 previous (head? xs) reason).0
switch_pop-Highest k previous reason p [] v e f =
    absurd (ground (arith, highest-nonempty k p v.linked e))
switch_pop-Highest k previous reason p (t ∷ ts) v e f =
    commit_pop-Highest k previous reason p t ts v e f

abbrev switch_from : Option ℕ → SwitchReason → Kernel × Option ℕ → Kernel
switch_from previous reason r = (commit_switch r.0 previous r.1 reason).0

switch_to_highest-Highest :
    (k : Kernel) (previous : Option ℕ) (reason : SwitchReason)
    → Parked k
    → Highest (switch_to_highest k previous reason).0
unfolding switch_to_highest
switch_to_highest-Highest k previous reason v = elim (Option-cases (ready_highest_priority k)) [
  | inl e ↦
      subst (λ r. Highest (switch_from previous reason r)) (sym (ready_pop_highest-none k e))
        (commit_none-Highest k previous reason v e)
  | inr (p, e) ↦
      subst (λ r. Highest (switch_from previous reason r)) (sym (ready_pop_highest-some k p e))
        (unfold ready_pop in switch_pop-Highest k previous reason p (k.ready_lists p) v e refl)
]

keep-Highest :
    (k : Kernel) (t : ℕ) (highest : Option ℕ)
    → Inv k
    → k.current ≡ some t
    → ready_highest_priority k ≡ highest
    → ((p : ℕ) → highest ≡ some p → p ≤ (k.tasks t).effective_priority)
    → Highest k
keep-Highest k t none v c e below u r =
    absurd (ground (arith, v.settled u, ready_highest-none k u v.linked e))
keep-Highest k t (some p) v c e below u r =
    (t, c, ground (arith, v.settled u, ready_highest-max k p u v.linked e, below p))

abbrev HighestAfter : Kernel × Option ℕ → Type 0
HighestAfter r = Highest r.0

preempt-Highest :
    (k : Kernel) (t : ℕ) (highest : Option ℕ) (reason : SwitchReason) (rotate_equal : Bool)
    → Inv k
    → k.current ≡ some t
    → ready_highest_priority k ≡ highest
    → HighestAfter (preempt_or_rotate k t highest reason rotate_equal)
unfolding preempt_or_rotate
preempt-Highest k t none reason rotate_equal v c e = keep-Highest k t none v c e (λ p f. cc)
preempt-Highest k t (some p) reason rotate_equal v c e =
    if_both HighestAfter
      (ltb (k.tasks t).effective_priority p || rotate_equal && p == (k.tasks t).effective_priority)
      (λ _.
        switch_to_highest-Highest (requeue k t) (some t) reason
          (requeue-Parked k t v c (current-runs k t v c)))
      (λ n. keep-Highest k t (some p) v c e (λ q f. ground arith))

schedule_started-Highest :
    (k : Kernel) (current : Option ℕ) (reason : SwitchReason) (rotate_equal : Bool)
    → Inv k
    → k.current ≡ current
    → HighestAfter (schedule_started k current reason rotate_equal)
unfolding schedule_started
schedule_started-Highest k none reason rotate_equal v c =
    switch_to_highest-Highest k none reason (idle-Parked k v c)
schedule_started-Highest k (some t) reason rotate_equal v c =
    if_both HighestAfter (is_running (k.tasks t).state)
      (λ _. preempt-Highest k t (ready_highest_priority k) reason rotate_equal v c refl)
      (λ n. absurd (ground (arith, current-runs k t v c)))

-- From a started kernel that satisfies the invariant, os_SchedSchedule, whatever its reason and
-- rotation flag, leaves no READY task without a current task whose effective priority is at least
-- as high.
pub sched_schedule-Highest :
    (k : Kernel) (reason : SwitchReason) (rotate_equal : Bool)
    → Inv k
    → k.started ≡ true
    → Highest (sched_schedule k reason rotate_equal).0
unfolding sched_schedule
sched_schedule-Highest k reason rotate_equal v s =
    if_both HighestAfter k.started
      (λ _. schedule_started-Highest k k.current reason rotate_equal v refl)
      (λ n. absurd (ground arith))
