-- ===== src/CortexM/Runs.antt =====
-- Runs of the machine. Before the start: os_Init and creations. After it: instructions of the
-- running task, its requests, ticks, gives of devices and context switches in any order. A handler
-- is one step, so the runs in which a device's interrupt cuts SysTick_Handler in two are not here.
use mini_rtos.Base.{ℕ, ◌+◌, ◌%◌, ◌≤◌, ◌<◌, ◌≡◌, ◌⊎◌, false, Bool, Option, some}
use mini_rtos.Kernel.{Kernel, Status, ok}
use mini_rtos.TaskPool.{TaskSpec, init}
use mini_rtos.Sem.{semaphore_create_counting}
use mini_rtos.Queue.{queue_create}
use mini_rtos.Mutex.{mutex_create}
use mini_rtos.Port.{Request}
use mini_rtos.CortexM.{
  Machine, machine_create, machine_task_request, systick_handler, give_interrupt, pendsv_handler,
  machine_start_scheduler, svc_handler,
}
use mini_rtos.CortexM.Contexts.{Context, Within, OffStack}
use mini_rtos.CortexM.Exchange.{with_loaded}

-- A stack that holds the initial frame and shares nothing with those of the tasks so far
pub record Room (k : Kernel) (spec : TaskSpec) : Type 0 where
  pub holds : 64 + (spec.stack_memory + spec.stack_size) % 8 ≤ spec.stack_size
  pub ends : spec.stack_memory + spec.stack_size < 4294967296
  pub apart :
      (t : ℕ)
      → 0 < (k.tasks t).sp
      → ((k.tasks t).stack_memory + (k.tasks t).stack_size ≤ spec.stack_memory)
        ⊎ (spec.stack_memory + spec.stack_size ≤ (k.tasks t).stack_memory)

-- The machines before the start; `noted` stands for what xTaskCreate and os_EnsureIdleTask record
-- of a creation.
pub data Laid (task_exit : ℕ) : Machine → Type 0 where
  reset : (m : Machine) → Laid task_exit (record m { kernel = init m.kernel })
  with_task :
      {m : Machine} (spec : TaskSpec) (allow_idle_priority : Bool)
      → Laid task_exit m
      → Room m.kernel spec
      → Laid task_exit (machine_create task_exit m spec allow_idle_priority).0
  noted :
      {m : Machine} (last_error : Status) (idle_task : Option ℕ)
      → Laid task_exit m
      → Laid task_exit
          (record m { kernel = record m.kernel { last_error = last_error; idle_task = idle_task } })
  with_semaphore :
      {m : Machine} (max_count initial_count : ℕ)
      → Laid task_exit m
      → Laid task_exit
          (record m { kernel = (semaphore_create_counting m.kernel max_count initial_count).0 })
  with_queue :
      {m : Machine} (size_max queue_length item_size storage : ℕ)
      → Laid task_exit m
      → Laid task_exit
          (record m { kernel = (queue_create size_max m.kernel queue_length item_size storage).0 })
  with_mutex :
      {m : Machine}
      → Laid task_exit m
      → Laid task_exit (record m { kernel = (mutex_create m.kernel).0 })

-- R4 to R11 as os_port_stack_init pushes them, and the stack pointer behind them
abbrev pub initial_contexts : Kernel → ℕ → Context
initial_contexts k t = record { registers = λ r. r; psp = (k.tasks t).sp + 32 }

-- The machines after the start, with the context that each task last left with. A task runs, and
-- makes requests, only while no switch is pending, and writes, of the stacks, only to its own.
pub data Live (task_exit clock lowest : ℕ) : (ℕ → Context) → Machine → Type 0 where
  launched :
      (m m₁ : Machine) {m₂ : Machine}
      → Laid task_exit m
      → machine_start_scheduler clock lowest m ≡ (m₁, ok)
      → svc_handler m₁ ≡ some m₂
      → Live task_exit clock lowest (initial_contexts m.kernel) m₂
  ran :
      {contexts : ℕ → Context} {m : Machine} (t : ℕ) (registers : ℕ → ℕ) (psp : ℕ) (words : ℕ → ℕ)
      → Live task_exit clock lowest contexts m
      → m.pendsv ≡ false
      → m.kernel.current ≡ some t
      → Within m.kernel t psp
      → ((a : ℕ) → OffStack m.kernel t a → words a ≡ m.words a)
      → Live task_exit clock lowest contexts
          (record m { registers = registers; psp = psp; words = words })
  asked :
      {contexts : ℕ → Context} {m : Machine} (request : Request)
      → Live task_exit clock lowest contexts m
      → m.pendsv ≡ false
      → Live task_exit clock lowest contexts (machine_task_request m request).0
  ticked :
      {contexts : ℕ → Context} {m : Machine}
      → Live task_exit clock lowest contexts m
      → Live task_exit clock lowest contexts (systick_handler m)
  given :
      {contexts : ℕ → Context} {m : Machine} (handle : Option ℕ)
      → Live task_exit clock lowest contexts m
      → m.kernel.critical_nesting ≡ 0
      → Live task_exit clock lowest contexts (give_interrupt m handle)
  switched :
      {contexts : ℕ → Context} {m m' : Machine}
      → Live task_exit clock lowest contexts m
      → pendsv_handler m ≡ some m'
      → Live task_exit clock lowest (with_loaded contexts m m.psp_owner) m'
