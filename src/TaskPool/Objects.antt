-- ===== src/TaskPool/Objects.antt =====
-- Creating semaphores, queues and mutexes before the start.
use mini_rtos.Base.{ℕ, not, ◌||◌, Option, none, some, ◌==◌, ◌/◌, if_both, ltb}
use mini_rtos.Kernel.{Status, Kernel, Sem, Queue, Mutex}
use mini_rtos.Mutex.{mutex_allocate, mutex_create, mutex_waiters}
use mini_rtos.Sem.{semaphore_allocate, semaphore_create_counting, sem_waiters}
use mini_rtos.Queue.{queue_allocate, queue_create, send_waiters, receive_waiters}
use mini_rtos.TaskPool.Boot.{Boot, clear_waiters-Boot}

-- Control blocks and the last error are no part of what holds before the start.
pools-Boot :
    (k : Kernel) (semaphores : ℕ → Sem) (queues : ℕ → Queue) (mutexes : ℕ → Mutex) (e : Status)
    → Boot k
    → Boot
        (record k { semaphores = semaphores; queues = queues; mutexes = mutexes; last_error = e })
pools-Boot k semaphores queues mutexes e b = record {
  inv = record { linked = b.inv.linked; settled = b.inv.settled };
  fresh = b.fresh;
  quiet = b.quiet;
}

abbrev BootAfter : Kernel × Option ℕ → Type 0
BootAfter r = Boot r.0

failed-Boot : (k : Kernel) (e : Status) → Boot k → Boot (record k { last_error = e })
failed-Boot k e b = pools-Boot k k.semaphores k.queues k.mutexes e b

semaphore_allocate-Boot :
    (k : Kernel) (n i : ℕ) (o : Option ℕ) → Boot k → BootAfter (semaphore_allocate k n i o)
unfolding semaphore_allocate
semaphore_allocate-Boot k n i none b = failed-Boot k _ b
semaphore_allocate-Boot k n i (some s) b =
    pools-Boot _ _ k.queues k.mutexes _ (clear_waiters-Boot k (sem_waiters s) b)

pub semaphore_create_counting-Boot :
    (k : Kernel) (n i : ℕ) → Boot k → BootAfter (semaphore_create_counting k n i)
unfolding semaphore_create_counting
semaphore_create_counting-Boot k n i b =
    if_both BootAfter (not k.initialized || k.started) (λ _. failed-Boot k _ b)
      (λ _.
        if_both BootAfter (n == 0 || ltb n i) (λ _. failed-Boot k _ b)
          (λ _. semaphore_allocate-Boot k n i _ b))

queue_allocate-Boot :
    (k : Kernel) (n i a : ℕ) (o : Option ℕ) → Boot k → BootAfter (queue_allocate k n i a o)
unfolding queue_allocate
queue_allocate-Boot k n i a none b = failed-Boot k _ b
queue_allocate-Boot k n i a (some q) b =
    pools-Boot _ k.semaphores _ k.mutexes _
      (clear_waiters-Boot _ (receive_waiters q) (clear_waiters-Boot k (send_waiters q) b))

pub queue_create-Boot :
    (m : ℕ) (k : Kernel) (n i a : ℕ) → Boot k → BootAfter (queue_create m k n i a)
unfolding queue_create
queue_create-Boot m k n i a b =
    if_both BootAfter (not k.initialized || k.started) (λ _. failed-Boot k _ b)
      (λ _.
        if_both BootAfter (a == 0 || i == 0 || n == 0 || ltb (m / n) i) (λ _. failed-Boot k _ b)
          (λ _. queue_allocate-Boot k n i a _ b))

mutex_allocate-Boot : (k : Kernel) (o : Option ℕ) → Boot k → BootAfter (mutex_allocate k o)
unfolding mutex_allocate
mutex_allocate-Boot k none b = failed-Boot k _ b
mutex_allocate-Boot k (some m) b =
    pools-Boot _ k.semaphores k.queues _ _ (clear_waiters-Boot k (mutex_waiters m) b)

pub mutex_create-Boot : (k : Kernel) → Boot k → BootAfter (mutex_create k)
unfolding mutex_create
mutex_create-Boot k b =
    if_both BootAfter (not k.initialized || k.started) (λ _. failed-Boot k _ b)
      (λ _. mutex_allocate-Boot k _ b)
