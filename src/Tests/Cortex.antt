-- ===== src/Tests/Cortex.antt =====
-- The theorems on the Cortex-M port at concrete machines.
use mini_rtos.Base.{ℕ, ◌≡◌, refl, sym, true, false, Option, some, arith, inl, ◌<◌}
use mini_rtos.Kernel.{Kernel}
use mini_rtos.TaskPool.{zero_task}
use mini_rtos.Port.{yield_cpu}
use mini_rtos.Time.{time_tick}
use mini_rtos.Time.Returns.{Reports, time_tick-Reports}
use mini_rtos.CortexM.{
  Machine, machine_stack_init, machine_task_request, systick_handler, give_interrupt,
  pendsv_handler, load_registers, resume, resume_at, set_sp, pendsv_save_psp, pendsv_restore_psp,
}
use mini_rtos.CortexM.Frame.{
  Framed, Startable, machine_stack_init-Framed, machine_stack_init-below,
  machine_stack_init-Startable,
}
use mini_rtos.CortexM.Switch.{left, Returned, pendsv_handler-Returned}
use mini_rtos.CortexM.Pending.{
  Synced, machine_task_request-Synced, systick_handler-Synced, give_interrupt-Synced,
}
use mini_rtos.Tests.{storage}
use mini_rtos.Tests.Turns.{peers, peers-Inv, peers-started, peers-current, peers-outside}

-- A machine that runs `owner` with its stack pointer at `psp`.
abbrev pub machine : Kernel → Option ℕ → ℕ → Machine
machine k owner psp = record {
  kernel = k;
  critical_nesting = 0;
  running = true;
  psp_owner = owner;
  irq_disabled = false;
  pendsv = false;
  syst_csr = 7;
  syst_rvr = 71999;
  syst_cvr = 0;
  shpr3 = 4294901760;
  psp = psp;
  registers = λ r. r;
  words = λ a. 0;
}

machine_stack_init-Framed_example :
    Framed (λ a. 0) 4098 256 (machine_stack_init 99 (λ a. 0) 7 0 4098 256)
machine_stack_init-Framed_example =
    machine_stack_init-Framed 99 (λ a. 0) 7 0 4098 256 refl refl (omega arith) (omega arith)

machine_stack_init-below_example : (machine_stack_init 99 (λ a. 0) 7 0 4100 64).1 < 4100
machine_stack_init-below_example =
    machine_stack_init-below 99 (λ a. 0) 7 0 4100 64 refl refl refl (omega arith) (omega arith)

machine_stack_init-Startable_example :
    Startable 99 7 0 (machine_stack_init 99 (λ a. 0) 7 0 4098 256)
machine_stack_init-Startable_example =
    machine_stack_init-Startable 99 (λ a. 0) 7 0 4098 256 refl refl (omega arith) (omega arith)
      (omega arith)

-- Task 1 has become current while the context of task 0 is loaded, and the other way round.
abbrev stacked : ℕ → Kernel
stacked t = record storage { current = some t; tasks = λ u. record zero_task { sp = 8192 } }

abbrev leaving : Machine
leaving = machine (stacked 1) (some 0) 4200

abbrev arrived : Machine
arrived = record (left leaving) {
  registers = load_registers (left leaving).words 8192;
  psp = 8224;
  irq_disabled = false;
}

abbrev returning : Machine
returning = record arrived { kernel = record arrived.kernel { current = some 0 } }

leaving-arrived : pendsv_handler leaving ≡ some arrived
unfolding pendsv_handler pendsv_save_psp pendsv_restore_psp resume resume_at set_sp
leaving-arrived = refl

returning-sp : (returning.kernel.tasks 0).sp ≡ (arrived.kernel.tasks 0).sp
returning-sp = refl

returning-current : returning.kernel.current ≡ some 0
unfolding set_sp
returning-current = refl

returning-owner : returning.psp_owner ≡ some 1
unfolding set_sp
returning-owner = refl

pendsv_handler-Returned_example :
    (m₃ : Machine) × (pendsv_handler returning ≡ some m₃) × Returned 0 4168 leaving.registers m₃
pendsv_handler-Returned_example =
    pendsv_handler-Returned leaving arrived returning 0 refl (omega arith) leaving-arrived
      returning-sp (λ r lo hi. refl) refl (ground (arith, returning-owner)) (inl (omega arith))
      (omega arith)

-- The kernel with semaphore 0 in use
abbrev signalled : Kernel
signalled = record peers { semaphores = λ _. record { used = true; count = 0; maximum_count = 3 } }

machine_task_request-Synced_example :
    Synced (machine_task_request (machine peers peers.current 4200) yield_cpu).0
machine_task_request-Synced_example =
    machine_task_request-Synced (machine peers peers.current 4200) yield_cpu peers-Inv refl

systick_handler-Synced_example : Synced (systick_handler (machine peers peers.current 4200))
systick_handler-Synced_example =
    systick_handler-Synced (machine peers peers.current 4200) peers-Inv peers-started (inl refl)

give_interrupt-Synced_example : Synced (give_interrupt (machine signalled (some 0) 4200) (some 0))
give_interrupt-Synced_example =
    give_interrupt-Synced (machine signalled (some 0) 4200) (some 0) peers-outside
      (inl (sym peers-current))

time_tick-Reports_example : Reports (time_tick peers)
time_tick-Reports_example = time_tick-Reports peers peers-Inv peers-started
