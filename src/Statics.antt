-- ===== src/Statics.antt =====
-- What scheduling leaves alone: the flags of the kernel, the identity of its tasks and the control
-- blocks of its objects.
pub mod Scheduling
pub mod Waiting
pub mod Sound
pub mod Mutexes
pub mod Semaphores
pub mod Queues
pub mod Ticks
pub mod Requests
pub mod Creation
use mini_rtos.Base.{ℕ, Bool, ◌≡◌, refl, ◌∙◌, ap, for_each, for_each_keeps, List}
use mini_rtos.Kernel.{Kernel, Task, Sem, Queue, Mutex, modify}

-- The flags and the size of the task pool, with the identity of one task.
pub record Identity : Type 0 where
  pub initialized : Bool
  pub started : Bool
  pub task_count : ℕ
  pub id : ℕ
  pub entry : ℕ
  pub base_priority : ℕ
  pub sp : ℕ
  pub stack_memory : ℕ
  pub stack_size : ℕ

abbrev pub identity : Kernel → ℕ → Identity
identity k u = record {
  initialized = k.initialized;
  started = k.started;
  task_count = k.task_count;
  id = (k.tasks u).id;
  entry = (k.tasks u).entry;
  base_priority = (k.tasks u).base_priority;
  sp = (k.tasks u).sp;
  stack_memory = (k.tasks u).stack_memory;
  stack_size = (k.tasks u).stack_size;
}

-- The identities, the control blocks and the memory.
pub record Statics : Type 0 where
  pub known : Identity
  pub semaphores : ℕ → Sem
  pub queues : ℕ → Queue
  pub mutexes : ℕ → Mutex
  pub memory : ℕ → ℕ

abbrev pub statics : Kernel → ℕ → Statics
statics k u = record {
  known = identity k u;
  semaphores = k.semaphores;
  queues = k.queues;
  mutexes = k.mutexes;
  memory = k.memory;
}

-- `k'` has the flags and the task identities of `k`, ...
pub record Fixed (k k' : Kernel) : Type 0 where
  pub same : (u : ℕ) → identity k' u ≡ identity k u

-- ... and its control blocks and memory too.
pub record Same (k k' : Kernel) : Type 0 where
  pub same : (u : ℕ) → statics k' u ≡ statics k u

pub Same-refl : (k : Kernel) → Same k k
Same-refl k = record { same = λ u. refl }

pub Same-trans : {k k' k'' : Kernel} → Same k k' → Same k' k'' → Same k k''
Same-trans r s = record { same = λ u. s.same u ∙ r.same u }

pub Fixed-refl : (k : Kernel) → Fixed k k
Fixed-refl k = record { same = λ u. refl }

pub Fixed-trans : {k k' k'' : Kernel} → Fixed k k' → Fixed k' k'' → Fixed k k''
Fixed-trans r s = record { same = λ u. s.same u ∙ r.same u }

pub Same-Fixed : {k k' : Kernel} → Same k k' → Fixed k k'
Same-Fixed r = record { same = λ u. ap (λ (s : Statics). s.known) (r.same u) }

abbrev pub SameAfter {ℓ} : {A : Type ℓ} → Kernel → Kernel × A → Type 0
SameAfter k r = Same k r.0

abbrev pub FixedAfter {ℓ} : {A : Type ℓ} → Kernel → Kernel × A → Type 0
FixedAfter k r = Fixed k r.0
