-- ===== src/Ready.antt =====
-- The ready queues and the switch of kernel/src/os_sched.c. A task that no caller passes as NULL is
-- a plain index.
pub mod Links
use mini_rtos.Base.{
  ℕ, zero, suc, ◌+◌, Bool, true, false, ◌||◌, not, Option, none, some, List, [], ◌∷◌, ltb, leb,
  if◌then◌else◌, same_handle, update, is_empty, tail, head?, push_back, remove,
}
use mini_rtos.Base.Bits.{has_bit, set_bit, clear_bit}
use mini_rtos.Kernel.{
  SwitchReason, TaskState, Task, Kernel, ready, running, is_ready, modify, u32, priority_count,
  time_slice_ticks,
}

-- The part of os_CommitSwitch that starts the chosen task.
unfoldable pub run_next : Kernel → Option ℕ → Kernel
run_next k none = k
run_next k (some t) =
    modify k t λ x. record x { state = running; slice_remaining = time_slice_ticks }

-- os_CommitSwitch
unfoldable pub commit_switch : Kernel → Option ℕ → Option ℕ → SwitchReason → Kernel × Option ℕ
unfolding run_next
commit_switch k previous next reason =
    let chosen = record (run_next k next) { current = next } in
    let switched = record chosen {
      last_from = previous;
      last_to = next;
      last_reason = reason;
      switch_count = u32 (chosen.switch_count + 1);
    } in
    (if same_handle previous next then chosen else switched, next)

-- os_ReadyEnqueue
unfoldable pub ready_enqueue : Kernel → ℕ → Kernel
ready_enqueue k t =
    let x = k.tasks t in
    let priority = x.effective_priority in
    if not (is_ready x.state) || leb priority_count priority || x.schedule_linked
    then k
    else record k {
      ready_lists = update k.ready_lists priority (push_back (k.ready_lists priority) t);
      tasks = update k.tasks t (record x { schedule_linked = true });
      ready_bitmap = set_bit k.ready_bitmap priority;
    }

-- os_ReadyRemove
unfoldable pub ready_remove : Kernel → ℕ → Kernel × Bool
ready_remove k t =
    let x = k.tasks t in
    let priority = x.effective_priority in
    let rest = remove (k.ready_lists priority) t in
    if not x.schedule_linked || leb priority_count priority then (k, false) else (
      record k {
        ready_lists = update k.ready_lists priority rest;
        tasks = update k.tasks t (record x { schedule_linked = false });
        ready_bitmap = if is_empty rest then clear_bit k.ready_bitmap priority else k.ready_bitmap;
      },
      true,
    )

-- The scan of os_ReadyHighestPriority from priority `n - 1` down; `none` stands for -1.
unfoldable pub highest_below : ℕ → ℕ → Option ℕ
highest_below bitmap zero = none
highest_below bitmap (suc n) = if has_bit bitmap n then some n else highest_below bitmap n

-- os_ReadyHighestPriority
unfoldable pub ready_highest_priority : Kernel → Option ℕ
unfolding highest_below
ready_highest_priority k = highest_below k.ready_bitmap priority_count

-- os_ListPopFront unlinks the schedule node of the head that it takes.
unfoldable pub unlink_head : Kernel → List ℕ → Kernel
unlink_head k [] = k
unlink_head k (t ∷ ts) = modify k t λ x. record x { schedule_linked = false }

-- The part of os_ReadyPopHighest behind the test for an empty bitmap.
unfoldable pub ready_pop : Kernel → ℕ → Kernel × Option ℕ
unfolding unlink_head
ready_pop k priority =
    let xs = k.ready_lists priority in
    (
      record (unlink_head k xs) {
        ready_lists = update k.ready_lists priority (tail xs);
        ready_bitmap =
            if is_empty (tail xs) then clear_bit k.ready_bitmap priority else k.ready_bitmap;
      },
      head? xs,
    )

-- os_ReadyPopHighest
unfoldable pub ready_pop_highest : Kernel → Kernel × Option ℕ
ready_pop_highest k = elim (ready_highest_priority k) [
  | none ↦ (k, none)
  | some priority ↦ ready_pop k priority
]
