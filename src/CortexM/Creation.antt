-- ===== src/CortexM/Creation.antt =====
-- Before the start each task that has been created has a frame on a stack of its own.
use mini_rtos.Base.{
  ℕ, ◌+◌, ◌/◌, ◌≡◌, refl, Bool, true, false, ◌||◌, not, Option, none, some, ◌==◌, ltb, arith,
  if_both, for_each_keeps, indices,
}
use mini_rtos.Kernel.{
  Kernel, Task, Status, modify, max_tasks, max_semaphores, max_queues, max_mutexes, ok,
}
use mini_rtos.Invariant.{modify-Linked}
use mini_rtos.Ready.{ready_enqueue}
use mini_rtos.TaskPool.{
  TaskSpec, init, zero_task, number_task, number_tasks, new_task, create_status, is_ok,
  task_create_internal,
}
use mini_rtos.TaskPool.Boot.{Boot, init-Boot, created-Boot, create_status-priority}
use mini_rtos.TaskPool.Objects.{
  semaphore_create_counting-Boot, queue_create-Boot, mutex_create-Boot,
}
use mini_rtos.Sem.{semaphore_create_counting, semaphore_allocate}
use mini_rtos.Queue.{queue_create, queue_allocate}
use mini_rtos.Mutex.{mutex_create, mutex_allocate, first_free}
use mini_rtos.CortexM.{Machine, set_sp, machine_stack_init, frame_task, machine_create}
use mini_rtos.CortexM.Frame.{machine_stack_init-Framed, machine_stack_init-Startable}
use mini_rtos.CortexM.Contexts.{SameStacks}
use mini_rtos.CortexM.Layouts.{Arranged, Arranged-stacks, NewStack, new-Layout, new-frames}
use mini_rtos.CortexM.Runs.{
  Room, Laid, reset, with_task, noted, with_semaphore, with_queue, with_mutex,
}

pub record Arrangement (m : Machine) : Type 0 where
  pub boot : Boot m.kernel
  pub arranged : Arranged m.kernel m.words

set_sp-Boot : (k : Kernel) (o : Option ℕ) (sp : ℕ) → Boot k → Boot (set_sp k o sp)
unfolding set_sp
set_sp-Boot k none sp b = b
set_sp-Boot k (some t) sp b = record {
  inv = record {
    linked =
        modify-Linked k t (λ x. record x { sp = sp }) b.inv.linked
          (record {
            same_ready = λ p. refl;
            same_wait = λ w. refl;
            same_delay = λ d. refl;
            same_rank = λ w h. refl;
            same_wake = λ d h. refl;
            bound = b.inv.linked.priority_bound t;
          });
    settled = λ u. ground (arith, b.inv.settled u);
  };
  fresh = λ u l. ground (arith, b.fresh u l, b.fresh t);
  quiet = λ u. ground (arith, b.quiet u, b.quiet t);
}

pub number_tasks-sp : (t : ℕ) → (number_tasks (λ _. zero_task) t).sp ≡ 0
unfolding number_tasks number_task
number_tasks-sp t =
    for_each_keeps (λ (tasks : ℕ → Task). (u : ℕ) → (tasks u).sp ≡ 0) (indices max_tasks)
      number_task (λ i tasks p u. ground (arith, p u, p i)) {s = λ _. zero_task} (λ u. refl) t

init-Arrangement : (m : Machine) → Arrangement (record m { kernel = init m.kernel })
unfolding init
init-Arrangement m = record {
  boot = init-Boot m.kernel;
  arranged = record {
    layout = record {
      low = λ t p. absurd (omega (arith, number_tasks-sp t));
      apart = λ t u n p q. absurd (omega (arith, number_tasks-sp t));
    };
    frames = λ t p. absurd (omega (arith, number_tasks-sp t));
  };
}

-- The kernel of a creation that os_TaskCreateInternal accepts, with the port's stack pointer
abbrev created : Kernel → TaskSpec → Kernel
created k spec =
    record (ready_enqueue (modify k k.task_count (new_task k.memory spec)) k.task_count) {
      task_count = k.task_count + 1;
    }

created-NewStack :
    (k : Kernel) (spec : TaskSpec) (sp : ℕ)
    → NewStack k
        (set_sp (created k spec) (some k.task_count) sp)
        k.task_count
        sp
        spec.stack_memory
        spec.stack_size
unfolding ready_enqueue new_task set_sp
created-NewStack k spec sp = record { own = ground arith; others = λ u n. ground arith }

create_status-addresses :
    (k : Kernel) (spec : TaskSpec) (allow : Bool)
    → is_ok (create_status k spec allow) ≡ true
    → ((spec.entry == 0) ≡ false) × ((spec.stack_memory == 0) ≡ false)
unfolding create_status
create_status-addresses k spec allow e = (ground arith, ground arith)

module _ (task_exit : ℕ) (m : Machine) (spec : TaskSpec) (v : Arrangement m)
    (room : Room m.kernel spec) where
  accepted-Arrangement :
      (allow : Bool)
      → is_ok (create_status m.kernel spec allow) ≡ true
      → Arrangement
          (frame_task task_exit m spec (created m.kernel spec, ok, some m.kernel.task_count)).0
  unfolding frame_task
  accepted-Arrangement allow e =
      let k = m.kernel in
      let t = k.task_count in
      let stack =
        machine_stack_init task_exit m.words spec.entry spec.argument spec.stack_memory
          spec.stack_size in
      let (entry, memory) = create_status-addresses k spec allow e in
      let framed =
        machine_stack_init-Framed task_exit m.words spec.entry spec.argument spec.stack_memory
          spec.stack_size entry memory room.holds room.ends in
      let startable =
        machine_stack_init-Startable task_exit m.words spec.entry spec.argument spec.stack_memory
          spec.stack_size entry memory (omega (arith, room.holds))
          (ground (arith, room.holds, memory)) room.ends in
      let n = created-NewStack k spec stack.1 in
      record {
        boot =
            set_sp-Boot (created k spec) (some t) stack.1
              (created-Boot k spec v.boot (create_status-priority k spec allow e));
        arranged = record {
          layout = new-Layout n (ground (arith, memory)) room.apart v.arranged.layout;
          frames =
              new-frames n m.words stack.0 framed startable.callee_saved room.apart
                v.arranged.frames;
        };
      }

  create-Arrangement : (allow : Bool) → Arrangement (machine_create task_exit m spec allow).0
  unfolding machine_create task_create_internal
  create-Arrangement allow =
      let k = m.kernel in
      if_both (λ (r : Kernel × Status × Option ℕ). Arrangement (frame_task task_exit m spec r).0)
        (is_ok (create_status k spec allow)) {x = (created k spec, ok, some k.task_count)}
        {y = (k, create_status k spec allow, none)} (accepted-Arrangement allow)
        (λ _. unfold frame_task in record { boot = v.boot; arranged = v.arranged })

-- Creations of objects leave the stacks alone.
semaphore-SameStacks : (k : Kernel) (n i : ℕ) → SameStacks k (semaphore_create_counting k n i).0
unfolding semaphore_create_counting
semaphore-SameStacks k n i =
    if_both (λ (r : Kernel × Option ℕ). SameStacks k r.0) (not k.initialized || k.started)
      (λ _. record { same = λ t. refl })
      (λ _.
        if_both (λ (r : Kernel × Option ℕ). SameStacks k r.0) (n == 0 || ltb n i)
          (λ _. record { same = λ t. refl })
          (λ _. allocated (first_free (λ s. (k.semaphores s).used) (indices max_semaphores))))
  where
    allocated : (o : Option ℕ) → SameStacks k (semaphore_allocate k n i o).0
    allocated none = record { same = λ t. refl }
    allocated (some s) = record { same = λ t. refl }

queue-SameStacks :
    (size_max : ℕ) (k : Kernel) (n i storage : ℕ)
    → SameStacks k (queue_create size_max k n i storage).0
unfolding queue_create
queue-SameStacks size_max k n i storage =
    if_both (λ (r : Kernel × Option ℕ). SameStacks k r.0) (not k.initialized || k.started)
      (λ _. record { same = λ t. refl })
      (λ _.
        if_both (λ (r : Kernel × Option ℕ). SameStacks k r.0)
          (storage == 0 || i == 0 || n == 0 || ltb (size_max / n) i)
          (λ _. record { same = λ t. refl })
          (λ _. allocated (first_free (λ q. (k.queues q).used) (indices max_queues))))
  where
    allocated : (o : Option ℕ) → SameStacks k (queue_allocate k n i storage o).0
    allocated none = record { same = λ t. refl }
    allocated (some q) = record { same = λ t. refl }

mutex-SameStacks : (k : Kernel) → SameStacks k (mutex_create k).0
unfolding mutex_create
mutex-SameStacks k =
    if_both (λ (r : Kernel × Option ℕ). SameStacks k r.0) (not k.initialized || k.started)
      (λ _. record { same = λ t. refl })
      (λ _. allocated (first_free (λ m. (k.mutexes m).used) (indices max_mutexes)))
  where
    allocated : (o : Option ℕ) → SameStacks k (mutex_allocate k o).0
    allocated none = record { same = λ t. refl }
    allocated (some m) = record { same = λ t. refl }

pub Laid-Arrangement : (task_exit : ℕ) (m : Machine) → Laid task_exit m → Arrangement m
Laid-Arrangement task_exit _ (reset m) = init-Arrangement m
Laid-Arrangement task_exit _ (with_task {m} spec allow l room) =
    create-Arrangement task_exit m spec (Laid-Arrangement task_exit m l) room allow
Laid-Arrangement task_exit _ (noted {m} last_error idle_task l) =
    let v = Laid-Arrangement task_exit m l in
    record {
      boot = record {
        inv = record { linked = v.boot.inv.linked; settled = v.boot.inv.settled };
        fresh = v.boot.fresh;
        quiet = v.boot.quiet;
      };
      arranged = Arranged-stacks (record { same = λ t. refl }) v.arranged;
    }
Laid-Arrangement task_exit _ (with_semaphore {m} n i l) =
    let v = Laid-Arrangement task_exit m l in
    record {
      boot = semaphore_create_counting-Boot m.kernel n i v.boot;
      arranged = Arranged-stacks (semaphore-SameStacks m.kernel n i) v.arranged;
    }
Laid-Arrangement task_exit _ (with_queue {m} size_max n i storage l) =
    let v = Laid-Arrangement task_exit m l in
    record {
      boot = queue_create-Boot size_max m.kernel n i storage v.boot;
      arranged = Arranged-stacks (queue-SameStacks size_max m.kernel n i storage) v.arranged;
    }
Laid-Arrangement task_exit _ (with_mutex {m} l) =
    let v = Laid-Arrangement task_exit m l in
    record {
      boot = mutex_create-Boot m.kernel v.boot;
      arranged = Arranged-stacks (mutex-SameStacks m.kernel) v.arranged;
    }
