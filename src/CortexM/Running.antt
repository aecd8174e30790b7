-- ===== src/CortexM/Running.antt =====
-- Each step of the machine leaves its kernel in order and started.
use mini_rtos.Base.{
  ℕ, ◌-◌, ◌≡◌, refl, Bool, true, false, ◌||◌, not, Option, none, some, arith, ◌==◌, if_both,
  if◌then◌else◌, same_handle, sym, ap, ◌∙◌,
}
use mini_rtos.Kernel.{Kernel, Status, ok, bad_state, is_running}
use mini_rtos.Invariant.{Inv, modify-Linked}
use mini_rtos.Ready.{commit_switch, ready_pop_highest}
use mini_rtos.Sched.{sched_start, start_first}
use mini_rtos.Time.{time_tick}
use mini_rtos.Time.Invariant.{time_tick-Inv}
use mini_rtos.Port.{Request, serve}
use mini_rtos.Port.Invariant.{serve-Inv}
use mini_rtos.TaskPool.Boot.{Boot, sched_start-Inv}
use mini_rtos.Run.Invariant.{semaphore_give_from_isr-Inv}
use mini_rtos.Statics.{Fixed, Identity, Same-Fixed}
use mini_rtos.Statics.Ticks.{time_tick-Same}
use mini_rtos.Statics.Requests.{serve-Advance, semaphore_give_from_isr-Advance}
use mini_rtos.CortexM.{
  Machine, machine_serve, machine_request_by, machine_task_request, systick_handler, give_interrupt,
  resume_at, machine_enter_critical, machine_exit_critical, machine_pend_switch, set_sp,
  pendsv_handler, machine_start_scheduler, machine_start_first,
}
use mini_rtos.CortexM.Switch.{left, pendsv_handler-resume, resume-same}

Fixed-started : {k k' : Kernel} → Fixed k k' → k'.started ≡ k.started
Fixed-started r = ap (λ (i : Identity). i.started) (r.same 0)

-- A kernel that is in order and started.
pub record Running (k : Kernel) : Type 0 where
  pub valid : Inv k
  pub started : k.started ≡ true

pub exit_critical-kernel : (m : Machine) → (machine_exit_critical m).kernel ≡ m.kernel
unfolding machine_exit_critical
exit_critical-kernel m =
    if_both (λ (n : Machine). n.kernel ≡ m.kernel) (m.critical_nesting == 0) (λ _. refl) (λ _. refl)

pub serve-kernel :
    (m : Machine) (t : ℕ) (request : Request)
    → (machine_serve m t request).kernel ≡ serve m.kernel t request
unfolding machine_serve machine_enter_critical machine_pend_switch
serve-kernel m t request =
    let served = record (machine_enter_critical m) { kernel = serve m.kernel t request } in
    let ended =
      if is_running (served.kernel.tasks t).state then served else machine_pend_switch served in
    exit_critical-kernel ended
    ∙ if_both (λ (n : Machine). n.kernel ≡ serve m.kernel t request)
        (is_running (served.kernel.tasks t).state) (λ _. refl) (λ _. refl)

request_by-Running :
    (m : Machine) (current : Option ℕ) (request : Request)
    → Running m.kernel
    → Running (machine_request_by m current request).0.kernel
unfolding machine_request_by
request_by-Running m none request v = v
request_by-Running m (some t) request v =
    if_both (λ (r : Machine × Option Status). Running r.0.kernel)
      (is_running (m.kernel.tasks t).state)
      (λ _. rw (serve-kernel m t request) (record {
        valid = serve-Inv m.kernel t request v.valid;
        started = Fixed-started (serve-Advance m.kernel t request).fixed ∙ v.started;
      }))
      (λ _. v)

pub request-Running :
    (m : Machine) (request : Request)
    → Running m.kernel
    → Running (machine_task_request m request).0.kernel
unfolding machine_task_request
request-Running m request v = request_by-Running m m.kernel.current request v

pub systick-kernel : (m : Machine) → (systick_handler m).kernel ≡ (time_tick m.kernel).0
unfolding systick_handler machine_pend_switch
systick-kernel m =
    let k = (time_tick m.kernel).0 in
    if_both (λ (n : Machine). n.kernel ≡ k) (same_handle (time_tick m.kernel).1 m.kernel.current)
      {x = record m { kernel = k }} {y = record m { kernel = k; pendsv = true }} (λ _. refl)
      (λ _. refl)

pub tick-Running : (k : Kernel) → Running k → Running (time_tick k).0
tick-Running k v = record {
  valid = time_tick-Inv k v.valid;
  started = Fixed-started (Same-Fixed (time_tick-Same k)) ∙ v.started;
}

pub give-Running :
    (m : Machine) (handle : Option ℕ) → Running m.kernel → Running (give_interrupt m handle).kernel
unfolding give_interrupt
give-Running m handle v =
    let k = record m.kernel { switch_pending = false } in
    let valid : Inv k = record { linked = v.valid.linked; settled = v.valid.settled } in
    record {
      valid = semaphore_give_from_isr-Inv k handle valid;
      started = Fixed-started (semaphore_give_from_isr-Advance k handle).fixed ∙ v.started;
    }

set_sp-Running : (k : Kernel) (owner : Option ℕ) (sp : ℕ) → Running k → Running (set_sp k owner sp)
unfolding set_sp
set_sp-Running k none sp v = v
set_sp-Running k (some t) sp v = record {
  valid = record {
    linked =
        modify-Linked k t (λ x. record x { sp = sp }) v.valid.linked
          (record {
            same_ready = λ p. refl;
            same_wait = λ w. refl;
            same_delay = λ d. refl;
            same_rank = λ w h. refl;
            same_wake = λ d h. refl;
            bound = v.valid.linked.priority_bound t;
          });
    settled = λ u. ground (arith, v.valid.settled u);
  };
  started = v.started;
}

pub switch-Running :
    (m m' : Machine) → pendsv_handler m ≡ some m' → Running m.kernel → Running m'.kernel
switch-Running m m' e v =
    let (same, words) =
      resume-same (left m) m' (resume_at (left m).kernel (left m).kernel.current)
        (sym (pendsv_handler-resume m) ∙ e) in
    rw same (set_sp-Running m.kernel m.psp_owner (m.psp - 32) v)

-- The start of the scheduler leaves it started where it returns a task.
start_first-started :
    (k : Kernel) (next : Option ℕ) (t : ℕ)
    → (start_first k next).1 ≡ some t
    → (start_first k next).0.started ≡ true
unfolding start_first commit_switch
start_first-started k none t e = absurd (ground arith)
start_first-started k (some u) t e = refl

sched_start-started :
    (k : Kernel) (t : ℕ)
    → (not k.initialized || k.started) ≡ false
    → (sched_start k).1 ≡ some t
    → (sched_start k).0.started ≡ true
unfolding sched_start
sched_start-started k t g =
    if_both (λ (r : Kernel × Option ℕ). r.1 ≡ some t → r.0.started ≡ true)
      (not k.initialized || k.started) (λ y. absurd (ground arith))
      (λ _. start_first-started (ready_pop_highest k).0 (ready_pop_highest k).1 t)

start_at-kernel :
    (clock lowest : ℕ) (m m₁ : Machine) (first at : Option ℕ)
    → machine_start_first clock lowest m first at ≡ (m₁, ok)
    → (m₁.kernel ≡ m.kernel) × (m₁.words ≡ m.words)
unfolding machine_start_first
start_at-kernel clock lowest m m₁ first none e = absurd (ground arith)
start_at-kernel clock lowest m m₁ first (some sp) e = (ground arith, ground arith)

start_first-some :
    (clock lowest : ℕ) (m m₁ : Machine) (k : Kernel) (first : Option ℕ)
    → machine_start_first clock lowest m first (resume_at k first) ≡ (m₁, ok)
    → (t : ℕ) × (first ≡ some t)
unfolding machine_start_first resume_at
start_first-some clock lowest m m₁ k none e = absurd (ground arith)
start_first-some clock lowest m m₁ k (some t) e = (t, refl)

pub start-Running :
    (clock lowest : ℕ) (m m₁ : Machine)
    → Boot m.kernel
    → machine_start_scheduler clock lowest m ≡ (m₁, ok)
    → Running m₁.kernel × (m₁.kernel ≡ (sched_start m.kernel).0) × (m₁.words ≡ m.words)
unfolding machine_start_scheduler
start-Running clock lowest m m₁ p e =
    let k = (sched_start m.kernel).0 in
    let first = (sched_start m.kernel).1 in
    let at = resume_at k first in
    let kept : Machine = record m { kernel = k } in
    let (fresh, e₁) =
      accepted (not m.kernel.initialized || m.kernel.started) m
        (machine_start_first clock lowest kept first at) m₁ e in
    let (t, some_task) = start_first-some clock lowest kept m₁ k first e₁ in
    let (same, words) = start_at-kernel clock lowest kept m₁ first at e₁ in
    (
      rw same (record {
        valid = sched_start-Inv m.kernel p;
        started = sched_start-started m.kernel t fresh some_task;
      }),
      same,
      words,
    )
  where
    accepted :
        (b : Bool) (n : Machine) (r : Machine × Status) (m₁ : Machine)
        → (if b then (n, bad_state) else r) ≡ (m₁, ok)
        → (b ≡ false) × (r ≡ (m₁, ok))
    accepted true n r m₁ e = absurd (ground arith)
    accepted false n r m₁ e = (refl, e)
