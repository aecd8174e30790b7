-- ===== src/Invariant.antt =====
-- The structural invariant of the kernel: each list holds exactly the tasks whose TCBs say so, once
-- each, and the ready bitmap names the priorities with a nonempty queue.
use mini_rtos.Base.{
  ℕ, ◌<◌, ◌≤◌, ◌≡◌, refl, Bool, true, false, ◌&&◌, ◌||◌, not, Option, none, some, List, ◌==◌,
  if◌then◌else◌, same_handle, is_none, is_empty, count, arith,
}
use mini_rtos.Base.Bits.{has_bit}
use mini_rtos.Base.Sorted.{Sorted, Sorted-frame}
use mini_rtos.Kernel.{
  Task, TaskState, WaitKind, Kernel, WaitList, unused, ready, running, blocked_delay,
  blocked_object, terminated, is_no_wait, kind_code, is_ready, is_blocked_object, same_wait_list,
  priority_count, modify,
}

abbrev pub waits_in : Option WaitList → WaitList → Bool
waits_in none w = false
waits_in (some v) w = same_wait_list v w

-- Whether a TCB says that its schedule node is in the ready queue of priority `p`, ...
abbrev pub in_ready : Task → ℕ → Bool
in_ready x p = x.schedule_linked && is_ready x.state && x.effective_priority == p

-- ... in the wait queue `w`, ...
abbrev pub in_wait : Task → WaitList → Bool
in_wait x w = x.schedule_linked && is_blocked_object x.state && waits_in x.wait_list w

-- ... or its delay node in the delay list `d`.
abbrev pub in_delay : Task → ℕ → Bool
in_delay x d = x.delay_linked && same_handle x.delay_list (some d)

abbrev pub once : Bool → ℕ
once b = if b then 1 else 0

-- `u` may stand before `v` in a wait queue, or in a delay list.
abbrev pub ByRank : (ℕ → Task) → ℕ → ℕ → Type 0
ByRank tasks u v = (tasks v).effective_priority ≤ (tasks u).effective_priority

abbrev pub ByWake : (ℕ → Task) → ℕ → ℕ → Type 0
ByWake tasks u v = (tasks u).wake_tick ≤ (tasks v).wake_tick

pub record Links (tasks : ℕ → Task) (ready_lists : ℕ → List ℕ) (waiters : WaitList → List ℕ)
    (delayed_lists : ℕ → List ℕ) (ready_bitmap : ℕ) : Type 0 where
  pub ready_counted : (t p : ℕ) → count t (ready_lists p) ≡ once (in_ready (tasks t) p)
  pub wait_counted : (t : ℕ) (w : WaitList) → count t (waiters w) ≡ once (in_wait (tasks t) w)
  pub delay_counted : (t d : ℕ) → count t (delayed_lists d) ≡ once (in_delay (tasks t) d)
  pub wait_sorted : (w : WaitList) → Sorted (ByRank tasks) (waiters w)
  pub delay_sorted : (d : ℕ) → Sorted (ByWake tasks) (delayed_lists d)
  pub priority_bound : (t : ℕ) → (tasks t).effective_priority < priority_count
  pub bitmap_bound : ready_bitmap < 256
  pub bitmap_exact :
      (p : ℕ) → p < priority_count → has_bit ready_bitmap p ≡ not (is_empty (ready_lists p))

abbrev pub Linked : Kernel → Type 0
Linked k = Links k.tasks k.ready_lists k.waiters k.delayed_lists k.ready_bitmap

-- Two TCBs that are in the same lists, the new one of a legal priority.
pub record SameLinks (x y : Task) : Type 0 where
  pub same_ready : (p : ℕ) → in_ready y p ≡ in_ready x p
  pub same_wait : (w : WaitList) → in_wait y w ≡ in_wait x w
  pub same_delay : (d : ℕ) → in_delay y d ≡ in_delay x d
  pub same_rank : (w : WaitList) → in_wait x w ≡ true → y.effective_priority ≡ x.effective_priority
  pub same_wake : (d : ℕ) → in_delay x d ≡ true → y.wake_tick ≡ x.wake_tick
  pub bound : y.effective_priority < priority_count

module _ {tasks : ℕ → Task} {ready_lists : ℕ → List ℕ} {waiters : WaitList → List ℕ}
    {delayed_lists : ℕ → List ℕ} {ready_bitmap : ℕ}
    (v : Links tasks ready_lists waiters delayed_lists ready_bitmap) (tasks' : ℕ → Task) where
  -- Wait queues stay sorted when their members keep their effective priorities, ...
  pub rerank :
      (waiters' : WaitList → List ℕ)
      → ((w : WaitList) → waiters' w ≡ waiters w)
      → ((u : ℕ) (w : WaitList)
          → in_wait (tasks u) w ≡ true
          → (tasks' u).effective_priority ≡ (tasks u).effective_priority)
      → (w : WaitList) → Sorted (ByRank tasks') (waiters' w)
  rerank waiters' same rank w = rw (same w) (
      Sorted-frame (ByRank tasks) (ByRank tasks') (waiters w)
        (λ x y p q h. ground (arith, v.wait_counted x w, v.wait_counted y w, rank x w, rank y w))
        (v.wait_sorted w))

  -- ... and delay lists when their members keep their wake ticks.
  pub rewake :
      (delayed' : ℕ → List ℕ)
      → ((d : ℕ) → delayed' d ≡ delayed_lists d)
      → ((u d : ℕ) → in_delay (tasks u) d ≡ true → (tasks' u).wake_tick ≡ (tasks u).wake_tick)
      → (d : ℕ) → Sorted (ByWake tasks') (delayed' d)
  rewake delayed' same wakes d = rw (same d) (
      Sorted-frame (ByWake tasks) (ByWake tasks') (delayed_lists d)
        (λ x y p q h.
          ground (arith, v.delay_counted x d, v.delay_counted y d, wakes x d, wakes y d))
        (v.delay_sorted d))

-- A write to a TCB that leaves its memberships alone keeps the invariant.
pub modify-Linked :
    (k : Kernel) (t : ℕ) (f : Task → Task)
    → Linked k
    → SameLinks (k.tasks t) (f (k.tasks t))
    → Linked (modify k t f)
modify-Linked k t f v s = record {
  ready_counted = λ u p. ground (arith, v.ready_counted u p, s.same_ready p);
  wait_counted = λ u w. ground (arith, v.wait_counted u w, s.same_wait w);
  delay_counted = λ u d. ground (arith, v.delay_counted u d, s.same_delay d);
  wait_sorted =
      rerank v (modify k t f).tasks k.waiters (λ w. refl) (λ u w h. ground (arith, s.same_rank w));
  delay_sorted =
      rewake v (modify k t f).tasks k.delayed_lists (λ d. refl)
        (λ u d h. ground (arith, s.same_wake d));
  priority_bound = λ u. ground (arith, v.priority_bound u, s.bound);
  bitmap_bound = v.bitmap_bound;
  bitmap_exact = v.bitmap_exact;
}

-- The wait fields of a task that waits for no object.
abbrev pub no_object : Task → Bool
no_object x = is_no_wait x.wait_kind && is_none x.wait_list

-- A delay node that is linked names its list.
abbrev pub delay_named : Task → Bool
delay_named x = not x.delay_linked || not (is_none x.delay_list)

abbrev pub wait_named : WaitKind → Option WaitList → Bool
wait_named kind none = false
wait_named kind (some w) = not (is_no_wait kind) && kind_code w.kind == kind_code kind

-- What the state of a task says of its nodes and of its wait fields; `runs` is whether it is the
-- current task.
abbrev pub fits_state : TaskState → Task → Bool → Bool
fits_state unused x runs = not x.schedule_linked && not x.delay_linked && not runs
fits_state ready x runs = x.schedule_linked && not x.delay_linked && not runs && no_object x
fits_state running x runs = not x.schedule_linked && not x.delay_linked && runs && no_object x
fits_state blocked_delay x runs =
    not x.schedule_linked && x.delay_linked && not runs && delay_named x && no_object x
fits_state blocked_object x runs =
    x.schedule_linked && not runs && delay_named x && wait_named x.wait_kind x.wait_list
fits_state terminated x runs = not x.schedule_linked && not x.delay_linked && not runs

abbrev pub fits : Task → Bool → Bool
fits x runs = fits_state x.state x runs

abbrev pub runs : Kernel → ℕ → Bool
runs k t = same_handle k.current (some t)

-- The invariant between two operations.
pub record Inv (k : Kernel) : Type 0 where
  pub linked : Linked k
  pub settled : (t : ℕ) → fits (k.tasks t) (runs k t) ≡ true

-- While the scheduler picks the next task: every task is settled and none runs.
pub record Parked (k : Kernel) : Type 0 where
  pub linked : Linked k
  pub settled : (t : ℕ) → fits (k.tasks t) false ≡ true

-- A task taken from its wait queue and not yet made ready.
abbrev pub fits_popped : Task → Bool → Bool
fits_popped x runs =
    is_blocked_object x.state
    && not x.schedule_linked
    && not runs
    && delay_named x
    && wait_named x.wait_kind x.wait_list

-- The invariant while `t` is such a task.
pub record Waking (k : Kernel) (t : ℕ) : Type 0 where
  pub linked : Linked k
  pub settled : (u : ℕ) → (u == t) ≡ false → fits (k.tasks u) (runs k u) ≡ true
  pub popped : fits_popped (k.tasks t) (runs k t) ≡ true

-- The invariant of the kernel that an operation returns beside its result.
abbrev pub InvAfter {ℓ} : {A : Type ℓ} → Kernel × A → Type 0
InvAfter r = Inv r.0
