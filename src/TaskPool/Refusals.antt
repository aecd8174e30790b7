-- ===== src/TaskPool/Refusals.antt =====
-- A creation that hands out nothing leaves the kernel as it was, but for the last error.
use mini_rtos.Base.{
  ℕ, ◌+◌, ◌/◌, ◌≡◌, refl, false, ◌||◌, not, Option, none, some, arith, ltb, ◌==◌, if_both, indices,
  update,
}
use mini_rtos.Kernel.{
  Kernel, Status, ok, bad_state, invalid_argument, limit_reached, max_semaphores, max_queues,
  max_mutexes,
}
use mini_rtos.Ready.{ready_enqueue}
use mini_rtos.TaskPool.{TaskSpec, is_ok, new_task, create_status, task_create_internal, task_create}
use mini_rtos.Mutex.{first_free, mutex_allocate, mutex_create}
use mini_rtos.Sem.{semaphore_allocate, semaphore_create_counting}
use mini_rtos.Queue.{queue_allocate, queue_create}

-- The kernel and the handle of a creation: a handle, or an error and nothing else changed.
pub record Refusal (k : Kernel) (r : Kernel × Option ℕ) : Type 0 where
  pub unchanged : r.1 ≡ none → r.0 ≡ record k { last_error = r.0.last_error }
  pub error : r.1 ≡ none → is_ok r.0.last_error ≡ false

refused :
    (k : Kernel) (s : Status) → is_ok s ≡ false → Refusal k (record k { last_error = s }, none)
refused k s e = record { unchanged = λ _. refl; error = λ _. e }

handed_out : (k k' : Kernel) (i : ℕ) → Refusal k (k', some i)
handed_out k k' i = record {
  unchanged = λ n. absurd (ground arith);
  error = λ n. absurd (ground arith);
}

-- What xTaskCreate makes of the result of os_TaskCreateInternal
abbrev Recorded : Kernel → Kernel × Status × Option ℕ → Type 0
Recorded k (k', status, task) = Refusal k (record k' { last_error = status }, task)

task_create-Refusal : (k : Kernel) (spec : TaskSpec) → Refusal k (task_create k spec)
unfolding task_create task_create_internal
task_create-Refusal k spec =
    let t = k.task_count in
    let filled = record k { tasks = update k.tasks t (new_task k.memory spec (k.tasks t)) } in
    if_both (Recorded k) (is_ok (create_status k spec false))
      {x = (record (ready_enqueue filled t) { task_count = t + 1 }, ok, some t)}
      {y = (k, create_status k spec false, none)} (λ _. handed_out k _ t)
      (λ n. refused k (create_status k spec false) n)

semaphore_create-Refusal : (k : Kernel) (n i : ℕ) → Refusal k (semaphore_create_counting k n i)
unfolding semaphore_create_counting
semaphore_create-Refusal k n i =
    if_both (Refusal k) (not k.initialized || k.started) (λ _. refused k bad_state refl)
      (λ _.
        if_both (Refusal k) (n == 0 || ltb n i) (λ _. refused k invalid_argument refl)
          (λ _. allocated (first_free (λ s. (k.semaphores s).used) (indices max_semaphores))))
  where
    allocated : (o : Option ℕ) → Refusal k (semaphore_allocate k n i o)
    allocated none = refused k limit_reached refl
    allocated (some s) = handed_out k _ s

queue_create-Refusal :
    (size_max : ℕ) (k : Kernel) (n i storage : ℕ) → Refusal k (queue_create size_max k n i storage)
unfolding queue_create
queue_create-Refusal size_max k n i storage =
    if_both (Refusal k) (not k.initialized || k.started) (λ _. refused k bad_state refl)
      (λ _.
        if_both (Refusal k) (storage == 0 || i == 0 || n == 0 || ltb (size_max / n) i)
          (λ _. refused k invalid_argument refl)
          (λ _. allocated (first_free (λ q. (k.queues q).used) (indices max_queues))))
  where
    allocated : (o : Option ℕ) → Refusal k (queue_allocate k n i storage o)
    allocated none = refused k limit_reached refl
    allocated (some q) = handed_out k _ q

mutex_create-Refusal : (k : Kernel) → Refusal k (mutex_create k)
unfolding mutex_create
mutex_create-Refusal k =
    if_both (Refusal k) (not k.initialized || k.started) (λ _. refused k bad_state refl)
      (λ _. allocated (first_free (λ m. (k.mutexes m).used) (indices max_mutexes)))
  where
    allocated : (o : Option ℕ) → Refusal k (mutex_allocate k o)
    allocated none = refused k limit_reached refl
    allocated (some m) = handed_out k _ m

-- Where xTaskCreate, xSemaphoreCreateCounting, xQueueCreate or xMutexCreate returns no handle,
-- the last error is set to a status other than OS_STATUS_OK and nothing else of the kernel
-- changes.
pub create-Refusal :
    (k : Kernel) (spec : TaskSpec)
    (max_count initial_count size_max queue_length item_size storage : ℕ)
    → Refusal k (task_create k spec)
      × Refusal k (semaphore_create_counting k max_count initial_count)
      × Refusal k (queue_create size_max k queue_length item_size storage)
      × Refusal k (mutex_create k)
create-Refusal k spec max_count initial_count size_max queue_length item_size storage = (
  task_create-Refusal k spec,
  semaphore_create-Refusal k max_count initial_count,
  queue_create-Refusal size_max k queue_length item_size storage,
  mutex_create-Refusal k,
)
