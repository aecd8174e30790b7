-- ===== src/Sched/Arrival.antt =====
-- A task that has become READY joins its queue.
use mini_rtos.Base.{ℕ, ◌≡◌, Bool, true, false, ◌==◌, ◌&&◌, not, arith}
use mini_rtos.Kernel.{Task, Kernel, is_ready}
use mini_rtos.Invariant.{Linked, Inv, fits, runs, no_object}
use mini_rtos.Ready.{ready_enqueue}
use mini_rtos.Ready.Links.{ready_enqueue-Linked}

abbrev pub fits_arriving : Task → Bool → Bool
fits_arriving x runs =
    is_ready x.state && not x.schedule_linked && not x.delay_linked && not runs && no_object x

-- The invariant while `t` is READY and not yet in its queue.
pub record Arriving (k : Kernel) (t : ℕ) : Type 0 where
  pub linked : Linked k
  pub settled : (u : ℕ) → (u == t) ≡ false → fits (k.tasks u) (runs k u) ≡ true
  pub arrives : fits_arriving (k.tasks t) (runs k t) ≡ true

-- os_ReadyEnqueue then restores the invariant.
pub ready_enqueue-Inv : (k : Kernel) (t : ℕ) → Arriving k t → Inv (ready_enqueue k t)
ready_enqueue-Inv k t v = record {
  linked = ready_enqueue-Linked k t v.linked;
  settled = λ u.
      unfold ready_enqueue in ground (arith, v.settled u, v.arrives, v.linked.priority_bound t);
}
