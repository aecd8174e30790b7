-- ===== src/CortexM.antt =====
-- port/cortex-m/os_port_cortex_m.c, with the context switch of os_port_cortex_m_asm.S: initial
-- stack frames, PRIMASK critical sections, task requests, the tick interrupt, PendSV and the start.
-- The address of os_port_task_exit is a parameter. The observer is left out.
pub mod Frame
pub mod Switch
pub mod Pending
pub mod Contexts
pub mod Exchange
pub mod Layouts
pub mod Creation
pub mod Quiet
pub mod Runs
pub mod Running
pub mod Steady
use Prim.Native.Nat.{bit_or}
use mini_rtos.Base.{
  ℕ, zero, suc, ◌+◌, ◌-◌, ◌*◌, ◌/◌, ◌%◌, Bool, true, false, ◌&&◌, ◌||◌, not, Option, none, some,
  List, [], ◌∷◌, ltb, leb, ◌==◌, if◌then◌else◌, same_handle, update,
}
use mini_rtos.Kernel.{Status, Task, Kernel, ok, bad_state, is_running, modify, u32, min_stack_bytes}
use mini_rtos.Sched.{sched_start}
use mini_rtos.TaskPool.{TaskSpec, task_create_internal}
use mini_rtos.Time.{time_tick}
use mini_rtos.Port.{Request, serve}
use mini_rtos.Api.{semaphore_give_from_isr}

-- The kernel, the statics of the port, the registers that it uses and the words of the stacks.
-- `pendsv` is the PENDSVSET bit of ICSR; `registers` holds R4 to R11 at their numbers.
pub record Machine : Type 0 where
  pub kernel : Kernel
  pub critical_nesting : ℕ
  pub running : Bool
  pub psp_owner : Option ℕ
  pub irq_disabled : Bool
  pub pendsv : Bool
  pub syst_csr : ℕ
  pub syst_rvr : ℕ
  pub syst_cvr : ℕ
  pub shpr3 : ℕ
  pub psp : ℕ
  pub registers : ℕ → ℕ
  pub words : ℕ → ℕ

-- os_port_enter_critical
unfoldable pub machine_enter_critical : Machine → Machine
machine_enter_critical m = record m {
  irq_disabled = true;
  critical_nesting = u32 (m.critical_nesting + 1);
}

-- os_port_exit_critical
unfoldable pub machine_exit_critical : Machine → Machine
machine_exit_critical m =
    let left = m.critical_nesting - 1 in
    if m.critical_nesting == 0 then m else record m {
      critical_nesting = left;
      irq_disabled = if left == 0 then false else m.irq_disabled;
    }

-- os_port_pend_context_switch
unfoldable pub machine_pend_switch : Machine → Machine
machine_pend_switch m = record m { pendsv = true }

-- `*(--top) = value` for each value in turn
unfoldable pub push_words : (ℕ → ℕ) → ℕ → List ℕ → (ℕ → ℕ) × ℕ
push_words words top [] = (words, top)
push_words words top (v ∷ vs) = push_words (update words (top - 4) v) (top - 4) vs

-- The values that os_port_stack_init pushes, the first at the highest address.
abbrev pub initial_frame : (task_exit entry argument : ℕ) → List ℕ
initial_frame task_exit entry argument =
    0x0100_0000
    ∷ bit_or (u32 entry) 1
    ∷ u32 task_exit
    ∷ 12
    ∷ 3
    ∷ 2
    ∷ 1
    ∷ u32 argument
    ∷ 11
    ∷ 10
    ∷ 9
    ∷ 8
    ∷ 7
    ∷ 6
    ∷ 5
    ∷ 4
    ∷ []

-- The end of the stack, rounded down to a multiple of 8
abbrev pub aligned_top : ℕ → ℕ → ℕ
aligned_top stack_memory stack_size =
    let aligned = u32 (stack_memory + stack_size) in aligned - aligned % 8

-- os_port_stack_init; 0 stands for NULL
unfoldable pub machine_stack_init :
    (task_exit : ℕ) → (ℕ → ℕ) → (entry argument stack_memory stack_size : ℕ) → (ℕ → ℕ) × ℕ
unfolding push_words
machine_stack_init task_exit words entry argument stack_memory stack_size =
    if entry == 0 || stack_memory == 0 || ltb stack_size min_stack_bytes
    then (words, 0)
    else push_words words (aligned_top stack_memory stack_size)
        (initial_frame task_exit entry argument)

-- os_port_task_request for the RUNNING task `t`, up to the read of its result
unfoldable pub machine_serve : Machine → ℕ → Request → Machine
unfolding machine_enter_critical machine_exit_critical machine_pend_switch
machine_serve m t request =
    let entered = machine_enter_critical m in
    let served = record entered { kernel = serve entered.kernel t request } in
    machine_exit_critical
      (if is_running (served.kernel.tasks t).state then served else machine_pend_switch served)

-- os_port_task_request for the task that it reads as `current`. The status is `none` where the
-- request has been served: the task then reads its result when it runs, by request_result.
unfoldable pub machine_request_by : Machine → Option ℕ → Request → Machine × Option Status
unfolding machine_serve
machine_request_by m none request = (m, some bad_state)
machine_request_by m (some t) request =
    if is_running (m.kernel.tasks t).state
    then (machine_serve m t request, none)
    else (m, some bad_state)

-- os_port_task_request
unfoldable pub machine_task_request : Machine → Request → Machine × Option Status
unfolding machine_request_by
machine_task_request m request = machine_request_by m m.kernel.current request

-- return current->wait_result, once the task runs again
unfoldable pub request_result : Machine → ℕ → Status
request_result m t = (m.kernel.tasks t).wait_result

-- SysTick_Handler
unfoldable pub systick_handler : Machine → Machine
unfolding machine_pend_switch
systick_handler m =
    let (k, next) = time_tick m.kernel in
    let ticked = record m { kernel = k } in
    if same_handle next m.kernel.current then ticked else machine_pend_switch ticked

-- xSemaphoreGiveFromISR in a device's interrupt: a switch that it asks the port for sets PENDSVSET
unfoldable pub give_interrupt : Machine → Option ℕ → Machine
give_interrupt m handle =
    let k = (semaphore_give_from_isr (record m.kernel { switch_pending = false }) handle).0 in
    record m { kernel = k; pendsv = m.pendsv || k.switch_pending }

-- os_port_prepare_systick; `clock` is SystemCoreClock
unfoldable pub prepare_systick : (clock : ℕ) → Machine → Machine
prepare_systick clock m =
    let hertz = if clock == 0 then 72000000 else clock in
    let ticks = u32 (hertz / 1000 * 1) in
    record m { syst_csr = 0; syst_rvr = (if ltb ticks 2 then 2 else ticks) - 1; syst_cvr = 0 }

-- os_port_enable_systick
unfoldable pub enable_systick : Machine → Machine
enable_systick m = record m { syst_csr = 7 }

-- os_port_configure_kernel_priorities; `lowest` is OS_PORT_CORTEX_M_PENDSV_PRIORITY
unfoldable pub configure_priorities : (lowest : ℕ) → Machine → Machine
configure_priorities lowest m = record m {
  shpr3 = m.shpr3 % 65536 + lowest * 65536 + lowest * 16777216;
}

-- `owner->sp = psp_after_push` where there is an owner
unfoldable pub set_sp : Kernel → Option ℕ → ℕ → Kernel
set_sp k none sp = k
set_sp k (some t) sp = modify k t λ x. record x { sp = sp }

-- os_port_pendsv_save_psp
unfoldable pub pendsv_save_psp : Machine → ℕ → Machine
unfolding set_sp
pendsv_save_psp m psp_after_push = record m { kernel = set_sp m.kernel m.psp_owner psp_after_push }

-- os_TaskCreateInternal with this port's frame for the task created, if there is one
unfoldable pub frame_task :
    (task_exit : ℕ) → Machine → TaskSpec → Kernel × Status × Option ℕ → Machine × Status × Option ℕ
unfolding machine_stack_init set_sp
frame_task task_exit m spec (k, status, none) = (record m { kernel = k }, status, none)
frame_task task_exit m spec (k, status, some t) =
    let (words, sp) =
      machine_stack_init task_exit m.words spec.entry spec.argument spec.stack_memory
        spec.stack_size in
    (record m { kernel = set_sp k (some t) sp; words = words }, status, some t)

-- os_TaskCreateInternal over this port. TaskPool.task_create_internal has the stub's stack pointer,
-- which frame_task replaces; behind the earlier tests of the function neither port refuses.
unfoldable pub machine_create :
    (task_exit : ℕ) → Machine → TaskSpec → Bool → Machine × Status × Option ℕ
unfolding frame_task
machine_create task_exit m spec allow_idle_priority =
    frame_task task_exit m spec (task_create_internal m.kernel spec allow_idle_priority)

-- The stack pointer that a task is to resume at, `none` where the handler waits for ever
unfoldable pub resume_at : Kernel → Option ℕ → Option ℕ
resume_at k none = none
resume_at k (some t) = if (k.tasks t).sp == 0 then none else some (k.tasks t).sp

-- os_port_pendsv_restore_psp
unfoldable pub pendsv_restore_psp : Machine → Machine × Option ℕ
unfolding resume_at
pendsv_restore_psp m =
    (record m { psp_owner = m.kernel.current }, resume_at m.kernel m.kernel.current)

-- stmdb r0!, {r4-r11}: the words from `base` on
unfoldable pub store_registers : (ℕ → ℕ) → ℕ → (ℕ → ℕ) → ℕ → ℕ
store_registers words base registers a =
    if leb base a && ltb a (base + 32) && (a - base) % 4 == 0
    then registers (4 + (a - base) / 4)
    else words a

-- ldmia r0!, {r4-r11}
unfoldable pub load_registers : (ℕ → ℕ) → ℕ → ℕ → ℕ
load_registers words base r = words (base + 4 * (r - 4))

-- The end of PendSV_Handler, with the stack pointer to resume at
unfoldable pub resume : Machine × Option ℕ → Option Machine
unfolding load_registers
resume (m, none) = none
resume (m, some sp) =
    some (record m { registers = load_registers m.words sp; psp = sp + 32; irq_disabled = false })

-- PendSV_Handler; `none` where it waits for ever. Its entry clears PENDSVSET.
unfoldable pub pendsv_handler : Machine → Option Machine
unfolding store_registers pendsv_save_psp pendsv_restore_psp resume
pendsv_handler m =
    let base = m.psp - 32 in
    let saved = record m {
      irq_disabled = true;
      pendsv = false;
      words = store_registers m.words base m.registers;
    } in
    resume (pendsv_restore_psp (pendsv_save_psp saved base))

-- os_port_start_scheduler, with the task that os_SchedStart returned and its stack pointer, up to
-- os_port_start_first_task
unfoldable pub machine_start_first :
    (clock lowest : ℕ) → Machine → Option ℕ → Option ℕ → Machine × Status
unfolding configure_priorities prepare_systick
machine_start_first clock lowest m first none = (m, bad_state)
machine_start_first clock lowest m first (some sp) =
    let owned = record m { psp_owner = first; running = true; irq_disabled = true } in
    (prepare_systick clock (configure_priorities lowest owned), ok)

-- os_port_start_scheduler up to os_port_start_first_task; `ok` where it gets there
unfoldable pub machine_start_scheduler : (clock lowest : ℕ) → Machine → Machine × Status
unfolding machine_start_first resume_at
machine_start_scheduler clock lowest m =
    let (k, first) = sched_start m.kernel in
    if not m.kernel.initialized || m.kernel.started
    then (m, bad_state)
    else machine_start_first clock lowest (record m { kernel = k }) first (resume_at k first)

-- SVC_Handler after os_port_start_first_task has enabled interrupts
unfoldable pub svc_handler : Machine → Option Machine
unfolding pendsv_restore_psp resume enable_systick
svc_handler m = elim (resume (pendsv_restore_psp m)) [
  | none ↦ none
  | some m' ↦ some (enable_systick m')
]
