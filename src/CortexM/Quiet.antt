-- ===== src/CortexM/Quiet.antt =====
-- Requests, ticks and gives load no other context and write to no stack.
use mini_rtos.Base.{
  ℕ, ◌≡◌, refl, true, false, ◌||◌, not, Option, none, some, arith, ◌==◌, if_both, if◌then◌else◌,
  ◌∙◌, same_handle,
}
use mini_rtos.Kernel.{Kernel, Status, is_running}
use mini_rtos.Ready.{ready_pop_highest, commit_switch}
use mini_rtos.Sched.{sched_start, start_first}
use mini_rtos.Time.{time_tick}
use mini_rtos.Port.{Request, serve}
use mini_rtos.Statics.{Same-Fixed}
use mini_rtos.Statics.Scheduling.{ready_pop_highest-Same}
use mini_rtos.Statics.Ticks.{time_tick-Same}
use mini_rtos.Statics.Requests.{serve-Advance, semaphore_give_from_isr-Advance}
use mini_rtos.CortexM.{
  Machine, machine_serve, machine_request_by, machine_task_request, systick_handler, give_interrupt,
  machine_enter_critical, machine_exit_critical, machine_pend_switch,
}
use mini_rtos.CortexM.Contexts.{SameStacks, Fixed-SameStacks, Aside}
use mini_rtos.CortexM.Running.{serve-kernel}

-- The processor's side of a step aside
record Untouched (m m' : Machine) : Type 0 where
  pub psp_owner : m'.psp_owner ≡ m.psp_owner
  pub psp : m'.psp ≡ m.psp
  pub words : m'.words ≡ m.words

exit_critical-Untouched : (m : Machine) → Untouched m (machine_exit_critical m)
unfolding machine_exit_critical
exit_critical-Untouched m =
    if_both (Untouched m) (m.critical_nesting == 0)
      (λ _. record { psp_owner = refl; psp = refl; words = refl })
      (λ _. record { psp_owner = refl; psp = refl; words = refl })

serve-Untouched :
    (m : Machine) (t : ℕ) (request : Request) → Untouched m (machine_serve m t request)
unfolding machine_serve machine_enter_critical machine_pend_switch
serve-Untouched m t request =
    let served = record (machine_enter_critical m) { kernel = serve m.kernel t request } in
    let b = is_running (served.kernel.tasks t).state in
    let ended = if b then served else machine_pend_switch served in
    let at_end : Untouched m ended =
      if_both (Untouched m) b (λ _. record { psp_owner = refl; psp = refl; words = refl })
        (λ _. record { psp_owner = refl; psp = refl; words = refl }) in
    let left = exit_critical-Untouched ended in
    record {
      psp_owner = left.psp_owner ∙ at_end.psp_owner;
      psp = left.psp ∙ at_end.psp;
      words = left.words ∙ at_end.words;
    }

same-Aside : (m : Machine) → Aside m m
same-Aside m = record {
  stacks = record { same = λ t. refl };
  psp_owner = refl;
  psp = refl;
  words = refl;
}

request_by-Aside :
    (m : Machine) (current : Option ℕ) (request : Request)
    → Aside m (machine_request_by m current request).0
unfolding machine_request_by
request_by-Aside m none request = same-Aside m
request_by-Aside m (some t) request =
    if_both (λ (r : Machine × Option Status). Aside m r.0) (is_running (m.kernel.tasks t).state)
      (λ _.
        let s = serve-Untouched m t request in
        record {
          stacks =
              rw (serve-kernel m t request)
                (Fixed-SameStacks (serve-Advance m.kernel t request).fixed);
          psp_owner = s.psp_owner;
          psp = s.psp;
          words = s.words;
        })
      (λ _. same-Aside m)

pub request-Aside : (m : Machine) (request : Request) → Aside m (machine_task_request m request).0
unfolding machine_task_request
request-Aside m request = request_by-Aside m m.kernel.current request

pub tick-Aside : (m : Machine) → Aside m (systick_handler m)
unfolding systick_handler machine_pend_switch
tick-Aside m =
    let k = (time_tick m.kernel).0 in
    let stacks = Fixed-SameStacks (Same-Fixed (time_tick-Same m.kernel)) in
    if_both (Aside m) (same_handle (time_tick m.kernel).1 m.kernel.current)
      {x = record m { kernel = k }} {y = record m { kernel = k; pendsv = true }}
      (λ _. record { stacks = stacks; psp_owner = refl; psp = refl; words = refl })
      (λ _. record { stacks = stacks; psp_owner = refl; psp = refl; words = refl })

pub give-Aside : (m : Machine) (handle : Option ℕ) → Aside m (give_interrupt m handle)
unfolding give_interrupt
give-Aside m handle =
    let k = record m.kernel { switch_pending = false } in
    let f = Fixed-SameStacks (semaphore_give_from_isr-Advance k handle).fixed in
    record { stacks = record { same = f.same }; psp_owner = refl; psp = refl; words = refl }

start_first-SameStacks : (k : Kernel) (next : Option ℕ) → SameStacks k (start_first k next).0
unfolding start_first commit_switch
start_first-SameStacks k none = record { same = λ t. refl }
start_first-SameStacks k (some u) = record { same = λ t. ground arith }

pub sched_start-SameStacks : (k : Kernel) → SameStacks k (sched_start k).0
unfolding sched_start
sched_start-SameStacks k =
    let popped = ready_pop_highest k in
    let f = Fixed-SameStacks (Same-Fixed (ready_pop_highest-Same k)) in
    let g = start_first-SameStacks popped.0 popped.1 in
    if_both (λ (r : Kernel × Option ℕ). SameStacks k r.0) (not k.initialized || k.started)
      (λ _. record { same = λ t. refl }) (λ _. record { same = λ t. g.same t ∙ f.same t })
