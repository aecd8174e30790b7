-- ===== src/Statics/Creation.antt =====
-- os_Init, the creations and os_SchedStart make and keep valid objects.
use native.Mathlib.Nat.{mod-eq_of_lt}
use mini_rtos.Base.{
  ℕ, ◌+◌, ◌/◌, ◌≡◌, Bool, true, false, ◌||◌, not, Option, none, some, arith, ltb, ◌==◌, if_both,
  update, indices, sym,
}
use mini_rtos.Kernel.{Kernel, Sem, Queue, Status, max_semaphores, max_queues, max_mutexes, ok}
use mini_rtos.Ready.{ready_enqueue, ready_pop_highest, commit_switch}
use mini_rtos.TaskPool.{
  TaskSpec, IdleAddresses, idle_spec, init, sem_kernel_reset, queue_kernel_reset,
  task_create_internal, task_create, create_status, is_ok, ensure_idle, ensure_idle_task, new_task,
}
use mini_rtos.Mutex.{mutex_create, mutex_allocate, first_free}
use mini_rtos.Sem.{semaphore_create_counting, semaphore_allocate}
use mini_rtos.Queue.{queue_create, queue_allocate, queue_in_order}
use mini_rtos.Queue.Ring.{Ring}
use mini_rtos.Sched.{sched_start, start_first}
use mini_rtos.Statics.Scheduling.{ready_pop_highest-Same, ready_enqueue-Same}
use mini_rtos.Statics.Sound.{ValidSem, Sound, Same-Advance}

abbrev SoundAfter {ℓ} : {A : Type ℓ} → Kernel × A → Type 0
SoundAfter r = Sound r.0

abbrev SoundTask : Kernel × Status × Option ℕ → Type 0
SoundTask r = Sound r.0

pub init-Sound : (k : Kernel) → Sound (init k)
unfolding init sem_kernel_reset queue_kernel_reset
init-Sound k = record {
  semaphores = λ s u. absurd (ground arith);
  queues = λ q u. absurd (ground arith);
}

task_create_internal-Sound :
    (k : Kernel) (spec : TaskSpec) (allow : Bool)
    → Sound k
    → SoundTask (task_create_internal k spec allow)
unfolding task_create_internal
task_create_internal-Sound k spec allow v =
    let t = k.task_count in
    let filled = record k { tasks = update k.tasks t (new_task k.memory spec (k.tasks t)) } in
    let kept : Sound filled = record { semaphores = v.semaphores; queues = v.queues } in
    let w = (Same-Advance (ready_enqueue-Same filled t)).sound kept in
    if_both SoundTask (is_ok (create_status k spec allow))
      {x = (record (ready_enqueue filled t) { task_count = t + 1 }, ok, some t)}
      {y = (k, create_status k spec allow, none)}
      (λ _. record { semaphores = w.semaphores; queues = w.queues }) (λ _. v)

pub task_create-Sound : (k : Kernel) (spec : TaskSpec) → Sound k → SoundAfter (task_create k spec)
unfolding task_create
task_create-Sound k spec v =
    let v' = task_create_internal-Sound k spec false v in
    record { semaphores = v'.semaphores; queues = v'.queues }

ensure_idle-Sound :
    (addresses : IdleAddresses) (k : Kernel) (o : Option ℕ)
    → Sound k
    → SoundAfter (ensure_idle addresses k o)
unfolding ensure_idle
ensure_idle-Sound addresses k none v =
    let v' = task_create_internal-Sound k (idle_spec addresses) true v in
    record { semaphores = v'.semaphores; queues = v'.queues }
ensure_idle-Sound addresses k (some t) v = v

pub ensure_idle_task-Sound :
    (addresses : IdleAddresses) (k : Kernel) → Sound k → SoundAfter (ensure_idle_task addresses k)
unfolding ensure_idle_task
ensure_idle_task-Sound addresses k v = ensure_idle-Sound addresses k k.idle_task v

mutex_allocate-Sound : (k : Kernel) (o : Option ℕ) → Sound k → SoundAfter (mutex_allocate k o)
unfolding mutex_allocate
mutex_allocate-Sound k none v = record { semaphores = v.semaphores; queues = v.queues }
mutex_allocate-Sound k (some m) v = record { semaphores = v.semaphores; queues = v.queues }

pub mutex_create-Sound : (k : Kernel) → Sound k → SoundAfter (mutex_create k)
unfolding mutex_create
mutex_create-Sound k v =
    if_both SoundAfter (not k.initialized || k.started)
      (λ _. record { semaphores = v.semaphores; queues = v.queues })
      (λ _. mutex_allocate-Sound k (first_free (λ m. (k.mutexes m).used) (indices max_mutexes)) v)

semaphore_allocate-Sound :
    (k : Kernel) (max_count initial_count : ℕ) (o : Option ℕ)
    → (max_count == 0 || ltb max_count initial_count) ≡ false
    → Sound k
    → SoundAfter (semaphore_allocate k max_count initial_count o)
unfolding semaphore_allocate
semaphore_allocate-Sound k n i none g v = record { semaphores = v.semaphores; queues = v.queues }
semaphore_allocate-Sound k n i (some s) g v = record {
  semaphores = λ j.
      if_both (λ (x : Sem). x.used ≡ true → ValidSem x) (j == s)
        (λ _ _. record { positive = ground (arith, g); bounded = ground (arith, g) })
        (λ _. v.semaphores j);
  queues = v.queues;
}

pub semaphore_create_counting-Sound :
    (k : Kernel) (max_count initial_count : ℕ)
    → Sound k
    → SoundAfter (semaphore_create_counting k max_count initial_count)
unfolding semaphore_create_counting
semaphore_create_counting-Sound k n i v =
    if_both SoundAfter (not k.initialized || k.started)
      (λ _. record { semaphores = v.semaphores; queues = v.queues })
      (λ _.
        if_both SoundAfter (n == 0 || ltb n i)
          (λ _. record { semaphores = v.semaphores; queues = v.queues })
          (λ g.
            semaphore_allocate-Sound k n i
              (first_free (λ s. (k.semaphores s).used) (indices max_semaphores)) g v))

-- The queue that xQueueCreate sets up is empty and valid.
fresh-Ring :
    (storage item_size capacity : ℕ)
    → (storage == 0) ≡ false
    → (item_size == 0) ≡ false
    → (capacity == 0) ≡ false
    → Ring (record {
      used = true;
      buffer = storage;
      item_size = item_size;
      capacity = capacity;
      head = 0;
      tail = 0;
      count = 0;
    })
unfolding queue_in_order
fresh-Ring storage item_size capacity a b c = record {
  in_order = ground (arith, a, b, c);
  tail_place = sym (mod-eq_of_lt (ground (arith, c)));
}

queue_allocate-Sound :
    (k : Kernel) (size_max n i storage : ℕ) (o : Option ℕ)
    → (storage == 0 || i == 0 || n == 0 || ltb (size_max / n) i) ≡ false
    → Sound k
    → SoundAfter (queue_allocate k n i storage o)
unfolding queue_allocate
queue_allocate-Sound k size_max n i storage none g v = record {
  semaphores = v.semaphores;
  queues = v.queues;
}
queue_allocate-Sound k size_max n i storage (some q) g v = record {
  semaphores = v.semaphores;
  queues = λ j.
      if_both (λ (x : Queue). x.used ≡ true → Ring x) (j == q)
        (λ _ _. fresh-Ring storage i n (ground (arith, g)) (ground (arith, g)) (ground (arith, g)))
        (λ _. v.queues j);
}

pub queue_create-Sound :
    (size_max : ℕ) (k : Kernel) (queue_length item_size storage : ℕ)
    → Sound k
    → SoundAfter (queue_create size_max k queue_length item_size storage)
unfolding queue_create
queue_create-Sound size_max k n i storage v =
    if_both SoundAfter (not k.initialized || k.started)
      (λ _. record { semaphores = v.semaphores; queues = v.queues })
      (λ _.
        if_both SoundAfter (storage == 0 || i == 0 || n == 0 || ltb (size_max / n) i)
          (λ _. record { semaphores = v.semaphores; queues = v.queues })
          (λ g.
            queue_allocate-Sound k size_max n i storage
              (first_free (λ q. (k.queues q).used) (indices max_queues)) g v))

start_first-Sound : (k : Kernel) (next : Option ℕ) → Sound k → SoundAfter (start_first k next)
unfolding start_first commit_switch
start_first-Sound k none v = v
start_first-Sound k (some t) v = record { semaphores = v.semaphores; queues = v.queues }

pub sched_start-Sound : (k : Kernel) → Sound k → SoundAfter (sched_start k)
unfolding sched_start
sched_start-Sound k v =
    let next = ready_pop_highest k in
    if_both SoundAfter (not k.initialized || k.started) (λ _. v)
      (λ _. start_first-Sound next.0 next.1 ((Same-Advance (ready_pop_highest-Same k)).sound v))
