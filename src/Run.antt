-- ===== src/Run.antt =====
-- Runs of the kernel: initialisation and creations, the start, and then requests of the current
-- task, ticks and gives from interrupts in any order.
pub mod Invariant
pub mod Objects
use mini_rtos.Base.{ℕ, Option}
use mini_rtos.Kernel.{Kernel}
use mini_rtos.TaskPool.{TaskSpec, IdleAddresses, init, task_create, ensure_idle_task}
use mini_rtos.Sem.{semaphore_create_counting}
use mini_rtos.Queue.{queue_create}
use mini_rtos.Mutex.{mutex_create}
use mini_rtos.Sched.{sched_start}
use mini_rtos.Port.{Request, task_request}
use mini_rtos.Time.{time_tick}
use mini_rtos.Api.{semaphore_give_from_isr}

-- The kernels that can stand before the start: os_Init over any static storage, then creations.
pub data Prepared : Kernel → Type 0 where
  initialised : (k : Kernel) → Prepared (init k)
  with_task : {k : Kernel} (spec : TaskSpec) → Prepared k → Prepared (task_create k spec).0
  with_semaphore :
      {k : Kernel} (max_count initial_count : ℕ)
      → Prepared k
      → Prepared (semaphore_create_counting k max_count initial_count).0
  with_queue :
      {k : Kernel} (size_max queue_length item_size storage : ℕ)
      → Prepared k
      → Prepared (queue_create size_max k queue_length item_size storage).0
  with_mutex : {k : Kernel} → Prepared k → Prepared (mutex_create k).0
  with_idle :
      {k : Kernel} (addresses : IdleAddresses)
      → Prepared k
      → Prepared (ensure_idle_task addresses k).0

-- The kernels that a prepared one can become.
pub data Reached : Kernel → Type 0 where
  started : {k : Kernel} → Prepared k → Reached (sched_start k).0
  requested : {k : Kernel} (request : Request) → Reached k → Reached (task_request k request).0
  ticked : {k : Kernel} → Reached k → Reached (time_tick k).0
  interrupted :
      {k : Kernel} (handle : Option ℕ) → Reached k → Reached (semaphore_give_from_isr k handle).0

-- The kernels that `k` can become while it runs.
pub data Later (k : Kernel) : Kernel → Type 0 where
  now : Later k k
  after_request :
      {k' : Kernel} (request : Request) → Later k k' → Later k (task_request k' request).0
  after_tick : {k' : Kernel} → Later k k' → Later k (time_tick k').0
  after_give :
      {k' : Kernel} (handle : Option ℕ) → Later k k' → Later k (semaphore_give_from_isr k' handle).0
