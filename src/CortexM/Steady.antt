-- ===== src/CortexM/Steady.antt =====
-- In any run of the machine no context switch is lost, and no task's context.
use mini_rtos.Base.{ℕ, ◌+◌, ◌≡◌, true, false, some, inl, inr, arith, sym, ap, ◌∙◌}
use mini_rtos.Kernel.{Kernel, ok}
use mini_rtos.Invariant.{Inv}
use mini_rtos.CortexM.{
  Machine, pendsv_handler, machine_start_scheduler, svc_handler, machine_task_request,
  systick_handler, give_interrupt,
}
use mini_rtos.CortexM.Pending.{
  Synced, machine_task_request-Synced, systick_handler-Synced, give_interrupt-Synced,
  pendsv_handler-Synced,
}
use mini_rtos.CortexM.Contexts.{Context, Contexts, Aside-Contexts, SameStacks, same_sp}
use mini_rtos.CortexM.Exchange.{Resumed, with_loaded, run-Contexts, pendsv-Contexts, svc-Contexts}
use mini_rtos.CortexM.Runs.{
  Laid, Live, launched, ran, asked, ticked, given, switched, initial_contexts,
}
use mini_rtos.CortexM.Layouts.{Arranged, Arranged-stacks}
use mini_rtos.CortexM.Creation.{Laid-Arrangement}
use mini_rtos.CortexM.Quiet.{request-Aside, tick-Aside, give-Aside, sched_start-SameStacks}
use mini_rtos.CortexM.Running.{
  Running, request-Running, tick-Running, give-Running, switch-Running, start-Running,
  systick-kernel,
}

-- What holds of the machine between two steps, with the context that each task last left with
pub record Steady (contexts : ℕ → Context) (m : Machine) : Type 0 where
  pub valid : Inv m.kernel
  pub started : m.kernel.started ≡ true
  pub synced : Synced m
  pub kept : Contexts contexts m
  pub resumes :
      (m' : Machine)
      → pendsv_handler m ≡ some m'
      → Resumed (with_loaded contexts m m.psp_owner) m m'

steady :
    (contexts : ℕ → Context) (m : Machine)
    → Running m.kernel
    → Synced m
    → Contexts contexts m
    → Steady contexts m
steady contexts m v s c = record {
  valid = v.valid;
  started = v.started;
  synced = s;
  kept = c;
  resumes = λ m' e. (pendsv-Contexts contexts m m' c e).1;
}

running : {contexts : ℕ → Context} {m : Machine} → Steady contexts m → Running m.kernel
running s = record { valid = s.valid; started = s.started }

-- A task that runs while no switch is pending runs on its own context.
undisturbed : (m : Machine) → Synced m → m.pendsv ≡ false → m.psp_owner ≡ m.kernel.current
undisturbed m (inl s) e = s
undisturbed m (inr p) e = absurd (ground arith)

-- The first task, with its initial context
module _ (task_exit clock lowest : ℕ) (m m₁ m₂ : Machine) (l : Laid task_exit m)
    (e : machine_start_scheduler clock lowest m ≡ (m₁, ok)) (f : svc_handler m₁ ≡ some m₂) where
  launch :
      Running m₁.kernel
      × Contexts (initial_contexts m.kernel) m₂
      × Resumed (initial_contexts m.kernel) m₁ m₂
      × (m₂.kernel ≡ m₁.kernel)
  launch =
      let a = Laid-Arrangement task_exit m l in
      let (v, same, words) = start-Running clock lowest m m₁ a.boot e in
      let stacks : SameStacks m.kernel m₁.kernel = rw same (sched_start-SameStacks m.kernel) in
      let arranged : Arranged m₁.kernel m₁.words = rw words (Arranged-stacks stacks a.arranged) in
      let (c, r, kernel) =
        svc-Contexts (initial_contexts m.kernel) m₁ m₂ arranged.layout
          (λ t p.
            let i = arranged.frames t p in
            record { psp = ap (λ n. n + 32) (same_sp stacks t); room = i.room; saved = i.saved })
          f in
      (v, c, r, kernel)

  -- After os_Init and creations of tasks whose stacks share nothing, end within the 32-bit
  -- address space and hold the initial frame, where os_port_start_scheduler gets to the first
  -- task and SVC_Handler returns, the current task is loaded with R4 to R11 holding their own
  -- numbers, its process stack pointer is 32 above the stack pointer that its creation left in
  -- its TCB, and interrupts are enabled.
  pub svc_handler-Resumed : Resumed (initial_contexts m.kernel) m₁ m₂
  svc_handler-Resumed = launch.2

-- However the Cortex-M port runs, from os_Init and creations of tasks whose stacks share nothing,
-- end within the 32-bit address space and hold the initial frame, over os_port_start_scheduler
-- and SVC_Handler, and then, the item buffers of queues lying on no stored context, by
-- instructions and requests of the running task while PendSV is not pending, the instructions
-- leaving its stack pointer room for a context on its own stack and writing to no other stack, by
-- runs of SysTick_Handler that no device cuts in two, gives from device interrupts outside
-- critical sections and PendSV_Handler: the kernel satisfies its invariant and is started; the
-- loaded task is the current one or PendSV is pending; every other task with a stack has the R4
-- to R11 and the stack pointer that it last left with, or was created with, stored on its own
-- stack; and PendSV_Handler, where it returns, leaves the current task loaded with the R4 to R11
-- and the process stack pointer that it last left with, and interrupts enabled.
pub Live-Steady :
    (task_exit clock lowest : ℕ) (contexts : ℕ → Context) (m : Machine)
    → Live task_exit clock lowest contexts m
    → Steady contexts m
Live-Steady x y z _ _ (launched m m₁ {m₂} l e f) =
    let (v, c, r, kernel) = launch x y z m m₁ m₂ l e f in
    steady (initial_contexts m.kernel) m₂ (rw kernel v)
      (inl (r.owner ∙ sym r.current ∙ ap (λ (k : Kernel). k.current) (sym kernel))) c
Live-Steady x y z _ _ (ran {contexts} {m} t registers psp words l free current w off) =
    let s = Live-Steady x y z contexts m l in
    let owner = undisturbed m s.synced free in
    let c = run-Contexts t registers psp words s.kept (owner ∙ current) w off in
    steady contexts (record m { registers = registers; psp = psp; words = words }) (running s)
      (inl owner) c
Live-Steady x y z _ _ (asked {contexts} {m} request l free) =
    let s = Live-Steady x y z contexts m l in
    steady contexts (machine_task_request m request).0 (request-Running m request (running s))
      (machine_task_request-Synced m request s.valid (undisturbed m s.synced free))
      (Aside-Contexts (request-Aside m request) s.kept)
Live-Steady x y z _ _ (ticked {contexts} {m} l) =
    let s = Live-Steady x y z contexts m l in
    steady contexts (systick_handler m) (rw (systick-kernel m) (tick-Running m.kernel (running s)))
      (systick_handler-Synced m s.valid s.started s.synced) (Aside-Contexts (tick-Aside m) s.kept)
Live-Steady x y z _ _ (given {contexts} {m} handle l outside) =
    let s = Live-Steady x y z contexts m l in
    steady contexts (give_interrupt m handle) (give-Running m handle (running s))
      (give_interrupt-Synced m handle outside s.synced)
      (Aside-Contexts (give-Aside m handle) s.kept)
Live-Steady x y z _ _ (switched {contexts} {m} {m'} l e) =
    let s = Live-Steady x y z contexts m l in
    let (c, r) = pendsv-Contexts contexts m m' s.kept e in
    steady (with_loaded contexts m m.psp_owner) m' (switch-Running m m' e (running s))
      (pendsv_handler-Synced m m' e) c
