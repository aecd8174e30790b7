-- ===== src/CortexM/Pending.antt =====
-- No context switch is lost: the task whose context is in the registers is the current one, or
-- PendSV is pending.
use mini_rtos.Base.{
  ℕ, ◌+◌, ◌≡◌, refl, true, false, ◌&&◌, ◌⊎◌, inl, inr, Option, none, some, arith, ◌<◌, ◌-◌, ltb,
  ◌==◌, if_both, same_handle, ◌∙◌, sym,
}
use mini_rtos.Kernel.{Kernel, is_running, u32}
use mini_rtos.Invariant.{Inv}
use mini_rtos.Time.{time_tick}
use mini_rtos.Time.Returns.{time_tick-Reports}
use mini_rtos.Wait.{wait_maybe_preempt}
use mini_rtos.Port.{
  Request, serve, exit_critical, enter_critical, run_pending, port_pend_context_switch,
  port_exit_critical,
}
use mini_rtos.Sem.{Given, sem_give_from_isr_context, preempt_by}
use mini_rtos.Api.{give_and_preempt, semaphore_give_from_isr}
use mini_rtos.Api.IsrGive.{LeftTo, give-LeftTo}
use mini_rtos.Port.Invariant.{serve-Inv}
use mini_rtos.CortexM.{
  Machine, machine_serve, machine_request_by, machine_task_request, systick_handler, give_interrupt,
  resume, resume_at, machine_enter_critical, machine_exit_critical, machine_pend_switch,
  pendsv_handler,
}
use mini_rtos.CortexM.Switch.{left, pendsv_handler-resume}

abbrev pub Synced : Machine → Type 0
Synced m = (m.psp_owner ≡ m.kernel.current) ⊎ (m.pendsv ≡ true)

exit_critical-Synced : (m : Machine) → Synced m → Synced (machine_exit_critical m)
unfolding machine_exit_critical
exit_critical-Synced m s = if_both Synced (m.critical_nesting == 0) (λ _. s) (λ _. s)

running-current :
    (k : Kernel) (t : ℕ) → Inv k → is_running (k.tasks t).state ≡ true → k.current ≡ some t
running-current k t v r = ground (arith, v.settled t)

serve-Synced :
    (m : Machine) (t : ℕ) (request : Request)
    → Inv m.kernel
    → m.kernel.current ≡ some t
    → m.psp_owner ≡ some t
    → Synced (machine_serve m t request)
unfolding machine_serve machine_enter_critical machine_pend_switch
serve-Synced m t request v c o =
    let k = serve m.kernel t request in
    let served = record m {
      irq_disabled = true;
      critical_nesting = u32 (m.critical_nesting + 1);
      kernel = k;
    } in
    exit_critical-Synced _ (
      if_both Synced (is_running (k.tasks t).state) {x = served}
        {y = record served { pendsv = true }}
        (λ r. inl (o ∙ sym (running-current k t (serve-Inv m.kernel t request v) r)))
        (λ _. inr refl))

request_by-Synced :
    (m : Machine) (current : Option ℕ) (request : Request)
    → Inv m.kernel
    → m.kernel.current ≡ current
    → m.psp_owner ≡ current
    → Synced (machine_request_by m current request).0
unfolding machine_request_by
request_by-Synced m none request v c o = inl (o ∙ sym c)
request_by-Synced m (some t) request v c o =
    if_both (λ (r : Machine × Option _). Synced r.0) (is_running (m.kernel.tasks t).state)
      (λ _. serve-Synced m t request v c o) (λ _. inl (o ∙ sym c))

-- On a kernel that satisfies the invariant, with the current task's context loaded, after the
-- Cortex-M os_port_task_request of any request the loaded context is that of the current task or
-- PendSV is pending.
pub machine_task_request-Synced :
    (m : Machine) (request : Request)
    → Inv m.kernel
    → m.psp_owner ≡ m.kernel.current
    → Synced (machine_task_request m request).0
unfolding machine_task_request
machine_task_request-Synced m request v o = request_by-Synced m m.kernel.current request v refl o

-- On a started kernel that satisfies the invariant, where the loaded context is that of the
-- current task or PendSV is pending, the same holds after SysTick_Handler.
pub systick_handler-Synced :
    (m : Machine) → Inv m.kernel → m.kernel.started ≡ true → Synced m → Synced (systick_handler m)
unfolding systick_handler machine_pend_switch
systick_handler-Synced m v s y =
    let k = (time_tick m.kernel).0 in
    let next = (time_tick m.kernel).1 in
    if_both Synced (same_handle next m.kernel.current) {x = record m { kernel = k }}
      {y = record m { kernel = k; pendsv = true }}
      (λ e. ground (arith, time_tick-Reports m.kernel v s, y, e)) (λ _. inr refl)

resume-Synced :
    (m m' : Machine) (o : Option ℕ)
    → m.psp_owner ≡ m.kernel.current
    → resume (m, o) ≡ some m'
    → Synced m'
unfolding resume
resume-Synced m m' none s e = absurd (ground arith)
resume-Synced m m' (some sp) s e = inl (ground arith)

pub pendsv_handler-Synced : (m m' : Machine) → pendsv_handler m ≡ some m' → Synced m'
pendsv_handler-Synced m m' e =
    resume-Synced (left m) m' (resume_at (left m).kernel (left m).kernel.current) refl
      (sym (pendsv_handler-resume m) ∙ e)

-- Either the current task is `c`, or the port has been asked for a switch.
abbrev Asked : Option ℕ → Kernel → Type 0
Asked c k = (k.current ≡ c) ⊎ (k.switch_pending ≡ true)

port_exit-Asked : (c : Option ℕ) (k : Kernel) → Asked c k → Asked c (port_exit_critical k)
unfolding port_exit_critical
port_exit-Asked c k a = if_both (Asked c) (ltb 0 k.port_nesting) (λ _. a) (λ _. a)

run_pending-Asked : (c : Option ℕ) (k : Kernel) → Asked c (run_pending k)
unfolding run_pending port_pend_context_switch
run_pending-Asked c k = inr refl

exit_critical-Asked : (c : Option ℕ) (k : Kernel) → k.current ≡ c → Asked c (exit_critical k)
unfolding exit_critical
exit_critical-Asked c k e =
    let inner : Kernel = record k { critical_nesting = k.critical_nesting - 1 } in
    if_both (Asked c) (k.critical_nesting == 0) (λ _. port_exit-Asked c k (inl e))
      (λ _.
        if_both (Asked c) (k.critical_nesting - 1 == 0 && k.sched_pending)
          (λ _. port_exit-Asked c (run_pending inner) (run_pending-Asked c inner))
          (λ _. port_exit-Asked c inner (inl e)))

preempt-current :
    (k : Kernel) (t : ℕ) → 0 < k.critical_nesting → (wait_maybe_preempt k t).current ≡ k.current
unfolding wait_maybe_preempt
preempt-current k t h = ground arith

give_and_preempt-Asked :
    (k : Kernel) (g : Given)
    → 0 < k.critical_nesting
    → LeftTo k g
    → Asked k.current (give_and_preempt g).0
unfolding give_and_preempt preempt_by
give_and_preempt-Asked k (k', status, none) h d = exit_critical-Asked k.current k' (d 0).current
give_and_preempt-Asked k (k', status, some t) h d =
    exit_critical-Asked k.current (wait_maybe_preempt k' t)
      (preempt-current k' t (ground (arith, d.nesting)) ∙ d.current)

give-Asked :
    (k : Kernel) (handle : Option ℕ)
    → k.critical_nesting ≡ 0
    → Asked k.current (semaphore_give_from_isr k handle).0
unfolding semaphore_give_from_isr enter_critical
give-Asked k handle z =
    let k' = enter_critical k in
    give_and_preempt-Asked k' (sem_give_from_isr_context k' handle) (ground (arith, z))
      (give-LeftTo k' handle)

-- Outside critical sections, where the loaded context is that of the current task or PendSV is
-- pending, the same holds after xSemaphoreGiveFromISR on any handle in an interrupt of the
-- Cortex-M port.
pub give_interrupt-Synced :
    (m : Machine) (handle : Option ℕ)
    → m.kernel.critical_nesting ≡ 0
    → Synced m
    → Synced (give_interrupt m handle)
unfolding give_interrupt
give_interrupt-Synced m handle z s =
    ground (arith, give-Asked (record m.kernel { switch_pending = false }) handle z, s)
