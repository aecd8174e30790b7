-- ===== src/Port/Preempt.antt =====
-- Preemption by a woken task, at once or at the end of a critical section.
use mini_rtos.Base.{
  ℕ, ◌≤◌, ◌-◌, ◌≡◌, refl, true, false, ◌&&◌, not, Option, none, some, ltb, ◌==◌, inl, inr, arith,
  Bool-cases, if_both,
}
use mini_rtos.Kernel.{Kernel, is_ready, higher_priority_wakeup}
use mini_rtos.Invariant.{Inv}
use mini_rtos.Sched.Highest.{Highest, sched_schedule-Highest}
use mini_rtos.Wait.{wait_maybe_preempt, outranks_current}
use mini_rtos.Port.{exit_critical, run_pending, port_exit_critical, port_pend_context_switch}

-- No READY task but `t` may have a higher effective priority than the current task.
abbrev pub HighestBut : Kernel → ℕ → Type 0
HighestBut k t =
    (u : ℕ)
    → (u == t) ≡ false
    → is_ready (k.tasks u).state ≡ true
    → (c : ℕ) × (k.current ≡ some c)
      × ((k.tasks u).effective_priority ≤ (k.tasks c).effective_priority)

not_outranked :
    (k : Kernel) (t : ℕ) (current : Option ℕ)
    → k.current ≡ current
    → outranks_current k t current ≡ false
    → (c : ℕ) × (k.current ≡ some c)
      × ((k.tasks t).effective_priority ≤ (k.tasks c).effective_priority)
not_outranked k t none e n = absurd (ground arith)
not_outranked k t (some c) e n = (c, e, ground arith)

stays-Highest :
    (k : Kernel) (t : ℕ) → HighestBut k t → outranks_current k t k.current ≡ false → Highest k
stays-Highest k t h n u r = elim (Bool-cases (u == t)) [
  | inl e ↦
      let (c, current, below) = not_outranked k t k.current refl n in (c, current, ground arith)
  | inr o ↦ h u o r
]

pub wait_maybe_preempt-Highest :
    (k : Kernel) (t : ℕ)
    → Inv k
    → k.started ≡ true
    → k.critical_nesting ≡ 0
    → HighestBut k t
    → Highest (wait_maybe_preempt k t)
unfolding wait_maybe_preempt
wait_maybe_preempt-Highest k t v s z h =
    if_both Highest (not (outranks_current k t k.current))
      (λ n. stays-Highest k t h (ground (arith, n)))
      (λ y.
        if_both Highest (ltb 0 k.critical_nesting) (λ b. absurd (ground (arith, z, b)))
          (λ b. sched_schedule-Highest k higher_priority_wakeup false v s))

-- The port's nesting count and its pending switch are no concern of the scheduler.
left-Highest : (k : Kernel) → Highest k → Highest (port_exit_critical k)
unfolding port_exit_critical
left-Highest k h = if_both Highest (ltb 0 k.port_nesting) (λ _. h) (λ _. h)

run_pending-Highest : (k : Kernel) → Inv k → k.started ≡ true → Highest (run_pending k)
unfolding run_pending port_pend_context_switch
run_pending-Highest k v s =
    sched_schedule-Highest (record k { sched_pending = false }) higher_priority_wakeup false
      (record { linked = v.linked; settled = v.settled }) s

pub exit_pending-Highest :
    (k : Kernel)
    → Inv k
    → k.started ≡ true
    → k.critical_nesting ≡ 1
    → (k.sched_pending ≡ false → Highest k)
    → Highest (exit_critical k)
unfolding exit_critical
exit_pending-Highest k v s one h =
    if_both Highest (k.critical_nesting == 0) (λ z. absurd (ground (arith, one, z)))
      (λ _.
        if_both Highest ((k.critical_nesting - 1) == 0 && k.sched_pending)
          (λ _. left-Highest _ (
            run_pending-Highest (record k { critical_nesting = k.critical_nesting - 1 })
              (record { linked = v.linked; settled = v.settled }) s))
          (λ n. left-Highest _ (h (ground (arith, n, one)))))

abbrev LeftHighest : Kernel → Type 0
LeftHighest k = Highest (exit_critical k)

-- On a started kernel that satisfies the invariant, inside one critical section, where no READY
-- task but t outranks the current one, os_WaitMaybePreempt for t and then os_ExitCritical leave
-- no READY task without a current task whose effective priority is at least as high.
pub exit_critical-Highest :
    (k : Kernel) (t : ℕ)
    → Inv k
    → k.started ≡ true
    → k.critical_nesting ≡ 1
    → HighestBut k t
    → Highest (exit_critical (wait_maybe_preempt k t))
unfolding wait_maybe_preempt
exit_critical-Highest k t v s one h =
    if_both LeftHighest (not (outranks_current k t k.current))
      (λ n. exit_pending-Highest k v s one (λ _. stays-Highest k t h (ground (arith, n))))
      (λ y.
        if_both LeftHighest (ltb 0 k.critical_nesting)
          (λ _.
            exit_pending-Highest (record k { sched_pending = true })
              (record { linked = v.linked; settled = v.settled }) s one
              (λ f. absurd (ground (arith, f))))
          (λ z. absurd (ground (arith, one, z))))
