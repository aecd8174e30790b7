-- ===== src/TaskPool/Boot.antt =====
-- Initialisation and creation, up to the start of the scheduler.
use mini_rtos.Base.{
  ℕ, ◌+◌, ◌≤◌, ◌<◌, ◌≡◌, refl, Bool, true, false, not, ◌&&◌, ◌||◌, Option, none, some, List, [],
  ◌∷◌, if_both, ltb, arith, for_each_keeps, indices, Option-cases, inl, inr, head?, sym,
}
use mathlib.Core.Path.{subst}
use mini_rtos.Base.Bits.{has_bit-zero}
use mini_rtos.Kernel.{
  Status, Task, TaskState, Kernel, WaitList, unused, priority_count, max_tasks, modify, start,
  is_ready, update_waiters, same_wait_list,
}
use mini_rtos.Base.Sorted.{Sorted}
use mini_rtos.Invariant.{ByRank, Inv, InvAfter, Parked, fits, runs, modify-Linked}
use mini_rtos.Ready.{ready_enqueue, ready_pop, ready_highest_priority}
use mini_rtos.Ready.Links.{ready_pop_highest-none, ready_pop_highest-some}
use mini_rtos.Sched.{sched_start, start_first}
use mini_rtos.Sched.Arrival.{fits_arriving, Arriving, ready_enqueue-Inv}
use mini_rtos.Sched.Invariant.{commit_some-Inv, ready_pop-Chosen, highest-nonempty}
use mini_rtos.TaskPool.{
  TaskSpec, IdleAddresses, init, number_task, number_tasks, zero_task, task_create_internal,
  create_status, new_task, is_ok, task_create, ensure_idle_task, ensure_idle, idle_spec,
}

abbrev pub is_unused : TaskState → Bool
is_unused unused = true
is_unused _ = false

-- The kernel before the scheduler starts: tasks are READY or unused, and those above the count
-- are unused.
pub record Boot (k : Kernel) : Type 0 where
  pub inv : Inv k
  pub fresh : (t : ℕ) → k.task_count ≤ t → is_unused (k.tasks t).state ≡ true
  pub quiet : (t : ℕ) → (is_unused (k.tasks t).state || is_ready (k.tasks t).state) ≡ true

abbrev is_blank : Task → Bool
is_blank x =
    is_unused x.state && not x.schedule_linked && not x.delay_linked && ltb x.effective_priority 8

number_tasks-blank : (t : ℕ) → is_blank (number_tasks (λ _. zero_task) t) ≡ true
unfolding number_tasks
number_tasks-blank t =
    for_each_keeps (λ (tasks : ℕ → Task). (u : ℕ) → is_blank (tasks u) ≡ true) (indices max_tasks)
      number_task (λ i tasks p u. ground (arith, p u, p i)) {s = λ _. zero_task} (λ u. refl) t

-- os_Init establishes the invariant, whatever the static storage held.
pub init-Boot : (k : Kernel) → Boot (init k)
unfolding init
init-Boot k = record {
  inv = record {
    linked = record {
      ready_counted = λ t p. ground (arith, number_tasks-blank t);
      wait_counted = λ t w. ground (arith, number_tasks-blank t);
      delay_counted = λ t d. ground (arith, number_tasks-blank t);
      wait_sorted = λ w. tt;
      delay_sorted = λ d. tt;
      priority_bound = λ t. ground (arith, number_tasks-blank t);
      bitmap_bound = omega arith;
      bitmap_exact = λ p h. has_bit-zero p h;
    };
    settled = λ t. ground (arith, number_tasks-blank t);
  };
  fresh = λ t h. ground (arith, number_tasks-blank t);
  quiet = λ t. ground (arith, number_tasks-blank t);
}

new_task-facts :
    (memory : ℕ → ℕ) (spec : TaskSpec) (x : Task) (runs : Bool)
    → is_unused x.state ≡ true
    → fits x runs ≡ true
    → fits_arriving (new_task memory spec x) runs ≡ true
unfolding new_task
new_task-facts memory spec x runs u f = ground arith

create-Arriving :
    (k : Kernel) (spec : TaskSpec)
    → Boot k
    → spec.priority < priority_count
    → Arriving (modify k k.task_count (new_task k.memory spec)) k.task_count
create-Arriving k spec b h =
    let t = k.task_count in
    let x = k.tasks t in
    let blank = b.fresh t (omega arith) in
    record {
      linked = modify-Linked k t (new_task k.memory spec) b.inv.linked (
          unfold new_task in
          record {
            same_ready = λ p. ground (arith, b.inv.settled t);
            same_wait = λ w. ground (arith, b.inv.settled t);
            same_delay = λ d. ground (arith, b.inv.settled t);
            same_rank = λ w l. absurd (ground (arith, b.inv.settled t));
            same_wake = λ d l. absurd (ground (arith, b.inv.settled t));
            bound = h;
          });
      settled = λ u o. ground (arith, b.inv.settled u);
      arrives = ground (arith, new_task-facts k.memory spec x (runs k t) blank (b.inv.settled t));
    }

-- os_ReadyEnqueue changes no state.
pub ready_enqueue-state :
    (k : Kernel) (t u : ℕ) → ((ready_enqueue k t).tasks u).state ≡ (k.tasks u).state
unfolding ready_enqueue
ready_enqueue-state k t u = ground arith

new_task-ready :
    (memory : ℕ → ℕ) (spec : TaskSpec) (x : Task) → is_ready (new_task memory spec x).state ≡ true
unfolding new_task
new_task-ready memory spec x = refl

pub created-Boot :
    (k : Kernel) (spec : TaskSpec)
    → Boot k
    → spec.priority < priority_count
    → Boot (record (ready_enqueue (modify k k.task_count (new_task k.memory spec)) k.task_count) {
      task_count = k.task_count + 1;
    })
created-Boot k spec b h =
    let k' = modify k k.task_count (new_task k.memory spec) in
    let v = ready_enqueue-Inv k' k.task_count (create-Arriving k spec b h) in
    record {
      inv = record { linked = v.linked; settled = v.settled };
      fresh = λ t l. ground (arith, ready_enqueue-state k' k.task_count t, b.fresh t);
      quiet = λ t. ground (
        arith,
        ready_enqueue-state k' k.task_count t,
        b.quiet t,
        new_task-ready k.memory spec (k.tasks k.task_count),
      );
    }

pub create_status-priority :
    (k : Kernel) (spec : TaskSpec) (allow : Bool)
    → is_ok (create_status k spec allow) ≡ true
    → spec.priority < priority_count
unfolding create_status
create_status-priority k spec allow e = ground arith

abbrev BootAfter : Kernel × Status × Option ℕ → Type 0
BootAfter r = Boot r.0

-- os_TaskCreateInternal keeps what holds before the start.
pub task_create_internal-Boot :
    (k : Kernel) (spec : TaskSpec) (allow : Bool)
    → Boot k
    → Boot (task_create_internal k spec allow).0
unfolding task_create_internal
task_create_internal-Boot k spec allow b =
    if_both BootAfter (is_ok (create_status k spec allow))
      (λ e. created-Boot k spec b (create_status-priority k spec allow e)) (λ _. b)

pub task_create-Boot : (k : Kernel) (spec : TaskSpec) → Boot k → Boot (task_create k spec).0
unfolding task_create
task_create-Boot k spec b =
    let b' = task_create_internal-Boot k spec false b in
    record {
      inv = record { linked = b'.inv.linked; settled = b'.inv.settled };
      fresh = b'.fresh;
      quiet = b'.quiet;
    }

ensure_idle-Boot :
    (addresses : IdleAddresses) (k : Kernel) (o : Option ℕ)
    → Boot k
    → Boot (ensure_idle addresses k o).0
unfolding ensure_idle
ensure_idle-Boot addresses k none b =
    let b' = task_create_internal-Boot k (idle_spec addresses) true b in
    record {
      inv = record { linked = b'.inv.linked; settled = b'.inv.settled };
      fresh = b'.fresh;
      quiet = b'.quiet;
    }
ensure_idle-Boot addresses k (some t) b = b

pub ensure_idle_task-Boot :
    (addresses : IdleAddresses) (k : Kernel) → Boot k → Boot (ensure_idle_task addresses k).0
unfolding ensure_idle_task
ensure_idle_task-Boot addresses k b = ensure_idle-Boot addresses k k.idle_task b

-- Emptying a wait queue before the start: no task waits anywhere.
pub clear_waiters-Boot :
    (k : Kernel) (w : WaitList)
    → Boot k
    → Boot (record k { waiters = update_waiters k.waiters w [] })
clear_waiters-Boot k w b = record {
  inv = record {
    linked = record {
      ready_counted = b.inv.linked.ready_counted;
      wait_counted = λ t x. ground (arith, b.inv.linked.wait_counted t x, b.quiet t);
      delay_counted = b.inv.linked.delay_counted;
      wait_sorted = λ x.
          if_both (Sorted (ByRank k.tasks)) (same_wait_list x w) (λ _. tt)
            (λ _. b.inv.linked.wait_sorted x);
      delay_sorted = b.inv.linked.delay_sorted;
      priority_bound = b.inv.linked.priority_bound;
      bitmap_bound = b.inv.linked.bitmap_bound;
      bitmap_exact = b.inv.linked.bitmap_exact;
    };
    settled = b.inv.settled;
  };
  fresh = b.fresh;
  quiet = b.quiet;
}

quiet-Parked : (k : Kernel) → Boot k → Parked k
quiet-Parked k b = record {
  linked = b.inv.linked;
  settled = λ t. ground (arith, b.inv.settled t, b.quiet t);
}

start_first-Inv :
    (k : Kernel) (p t : ℕ) (ts : List ℕ)
    → Boot k
    → ready_highest_priority k ≡ some p
    → k.ready_lists p ≡ t ∷ ts
    → InvAfter (start_first (ready_pop k p).0 (some t))
unfolding start_first
start_first-Inv k p t ts b e f =
    let c =
      ready_pop-Chosen k p t ts f (highest-nonempty k p b.inv.linked e).0 (quiet-Parked k b) in
    commit_some-Inv (record (ready_pop k p).0 { started = true }) none t start
      (record {
        linked = c.linked;
        settled = c.settled;
        unlinked = c.unlinked;
        free = c.free;
        is_ready = c.is_ready;
      })

sched_start_pop-Inv :
    (k : Kernel) (p : ℕ) (xs : List ℕ)
    → Boot k
    → ready_highest_priority k ≡ some p
    → k.ready_lists p ≡ xs
    → InvAfter (start_first (ready_pop k p).0 (head? xs))
sched_start_pop-Inv k p [] b e f = absurd (ground (arith, highest-nonempty k p b.inv.linked e))
sched_start_pop-Inv k p (t ∷ ts) b e f = start_first-Inv k p t ts b e f

abbrev start_with : Kernel × Option ℕ → Kernel × Option ℕ
start_with r = start_first r.0 r.1

-- os_SchedStart makes the first task run, or finds none.
pub sched_start-Inv : (k : Kernel) → Boot k → InvAfter (sched_start k)
unfolding sched_start
sched_start-Inv k b =
    if_both InvAfter (not k.initialized || k.started) (λ _. b.inv)
      (λ _. elim (Option-cases (ready_highest_priority k)) [
        | inl e ↦
            subst (λ r. InvAfter (start_with r)) (sym (ready_pop_highest-none k e))
              (unfold start_first in b.inv)
        | inr (p, e) ↦
            subst (λ r. InvAfter (start_with r)) (sym (ready_pop_highest-some k p e))
              (unfold ready_pop in sched_start_pop-Inv k p (k.ready_lists p) b e refl)
      ])
