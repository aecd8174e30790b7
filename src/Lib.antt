-- ===== src/Lib.antt =====
-- The mini_rtos kernel: a fixed-priority preemptive real-time kernel in C with statically allocated
-- tasks, counting semaphores, message queues and mutexes with priority inheritance.
--
-- The state of all modules is one record, Kernel.Kernel: os_kernel_t, the object pools, the memory
-- that queues copy through, and the statics of the API and of the port. An operation is a function
-- from kernel to kernel, with its result beside it. Pointers into static pools are indices, `none`
-- for NULL; addresses of user memory are numbers, 0 for NULL. A list of os_list.c is the sequence
-- of the tasks whose nodes it links; the node's `linked` flag stays in the TCB. A NULL test of a
-- parameter that no caller passes as NULL has no case. The links inside os_list.c
-- are modelled in NodeList, which shows that they stand for such sequences.
-- 32-bit counters wrap explicitly by Kernel.u32.
--
-- Files and sources:
--   Kernel        include/os.h, kernel/include/*.h: types, constants, state
--   Ready, Sched  kernel/src/os_sched.c: ready queues, switching, scheduling decisions
--   Wait          kernel/src/os_sched.c: object wait queues, effective priorities, preemption
--   Delay, Time   kernel/src/os_time.c: delay lists, the tick; os_SchedTerminateCurrent
--   Mutex         kernel/src/os_mutex.c
--   Sem           kernel/src/os_sem.c
--   Queue         kernel/src/os_queue.c
--   TaskPool      kernel/src/os_task.c
--   Port          port/stub/os_port_stub.c, and the critical sections of kernel/src/os_sched.c
--   NodeList      kernel/src/os_list.c, with its assertions, over a store of nodes
--   CortexM       port/cortex-m/os_port_cortex_m.c and os_port_cortex_m_asm.S
--   Api           kernel/src/os_api.c, and the snapshot and stop of kernel/src/os_sched.c
--   Run           runs of the whole kernel as inductive relations; CortexM.Runs: of the machine
--   Validate      os_KernelValidate of kernel/src/os_sched.c
--   Statics       flags, task identities and control blocks: what operations leave alone, and
--                 that valid objects stay valid
--   Invariant     the invariant; the child modules Links and Invariant of each part prove that its
--                 operations keep it; other child modules are named for what they prove
--   Tests         concrete kernels and the theorems at them
-- Base and its children hold the shared names, list lemmas, bit masks, sorted lists and the
-- place of an ordered insertion.
--
-- A function of the source that reads `g_os_kernel.current` is split in two here: the outer one
-- passes the current task to an inner one by cases on it. Helpers for one branch or one loop of a
-- function carry a comment that names the function.
--
-- Loops: walks over lists and counted loops are structural. The wake-up loop of os_TimeTick takes
-- as fuel the length of the current delay list, of which each round takes off one entry. The passes
-- of os_MutexWaitersChanged have the bound of the source.
--
-- The Cortex-M port is a machine: the kernel, the statics of the port, its registers and the words
-- of the stacks. A run of it (CortexM.Runs) starts from os_Init and creations over this port; its
-- steps are a stretch of the running task's code, a request, a handler or PendSV, so interleavings
-- are orders of steps, and the run carries the context that each task last left with. A stretch of
-- code stands for any values of R4 to R11, of the stack pointer and of the words of the task's own
-- stack, the frames that the hardware pushes for exceptions included. A handler is one step:
-- SysTick_Handler leaves interrupts enabled, and a device that cuts it in two is not modelled, nor
-- is one that cuts a kernel operation outside critical sections. The bytes that queues copy are
-- Kernel.memory and apart from the words: an item buffer lies on no stored context. The lowest priority of the
-- exceptions is a byte, the address of os_port_task_exit and the core clock are parameters, and a
-- waiting loop is `none`.
--
-- Not modelled: the Win32 port, os_port_start_scheduler for Api.os_start (a parameter of it), the
-- observer, os_port_start_first_task, demos and tests. SIZE_MAX is a
-- parameter of Queue.queue_create, and the addresses of the Idle task of TaskPool.ensure_idle_task.
-- The delay lists are modelled as the code has them, in order; the guides under docs describe an
-- older queue without order.
mod Base
pub mod Kernel
pub mod NodeList
pub mod Ready
pub mod Invariant
pub mod Sched
pub mod Delay
pub mod Wait
pub mod Mutex
pub mod Sem
pub mod Queue
pub mod Time
pub mod TaskPool
pub mod Port
pub mod Api
pub mod Statics
pub mod Validate
pub mod CortexM
pub mod Run
mod Tests
