-- ===== src/NodeList.antt =====
-- kernel/src/os_list.c: intrusive doubly linked lists. Nodes are addressed by numbers, `none` is
-- NULL, and all nodes together are the store that an operation takes and returns beside the list
-- head. A failed assertion is `none`.
pub mod Chain
pub mod Insert
pub mod Remove
use mini_rtos.Base.{
  ℕ, zero, suc, ◌+◌, ◌-◌, Bool, true, false, ◌||◌, not, Option, none, some, ltb, ◌==◌,
  if◌then◌else◌, same_handle, is_none, update,
}
use mini_rtos.Kernel.{max_tasks}

-- os_list_node_t
pub record Node : Type 0 where
  pub previous : Option ℕ
  pub next : Option ℕ
  pub owner : Option ℕ
  pub linked : Bool

-- os_list_t
pub record ListHead : Type 0 where
  pub head : Option ℕ
  pub tail : Option ℕ
  pub size : ℕ

abbrev pub Nodes : Type 0
Nodes = ℕ → Node

-- assert(test), in front of the rest of a function
abbrev pub asserting {ℓ} : {A : Type ℓ} → Bool → Option A → Option A
asserting test rest = if test then rest else none

-- p->next = q, for a pointer that may be NULL
unfoldable pub set_next : Nodes → Option ℕ → Option ℕ → Nodes
set_next nodes none q = nodes
set_next nodes (some p) q = update nodes p (record (nodes p) { next = q })

-- p->previous = q, for a pointer that may be NULL
unfoldable pub set_previous : Nodes → Option ℕ → Option ℕ → Nodes
set_previous nodes none q = nodes
set_previous nodes (some p) q = update nodes p (record (nodes p) { previous = q })

-- os_ListInit
unfoldable pub list_init : ListHead
list_init = record { head = none; tail = none; size = 0 }

-- os_ListPushBack
unfoldable pub list_push_back : Nodes → ListHead → ℕ → Option (Nodes × ListHead)
unfolding set_next
list_push_back nodes l node =
    let placed = update nodes node (record (nodes node) { previous = l.tail; next = none }) in
    let reached = set_next placed l.tail (some node) in
    asserting (not (nodes node).linked) (
      some (
        update reached node (record (reached node) { linked = true }),
        record {
          head = if is_none l.tail then some node else l.head;
          tail = some node;
          size = l.size + 1;
        },
      ))

-- os_ListInsertBefore
unfoldable pub list_insert_before : Nodes → ListHead → ℕ → ℕ → Option (Nodes × ListHead)
unfolding set_next set_previous
list_insert_before nodes l position node =
    let before = (nodes position).previous in
    let placed =
      update nodes node (record (nodes node) { previous = before; next = some position }) in
    let reached = set_previous (set_next placed before (some node)) (some position) (some node) in
    asserting (nodes position).linked (
      asserting (not (nodes node).linked) (
        asserting (not (is_none before) || same_handle l.head (some position)) (
          some (
            update reached node (record (reached node) { linked = true }),
            record l { head = if is_none before then some node else l.head; size = l.size + 1 },
          ))))

-- os_ListPopFront, with the head at hand
unfoldable pub pop_node : Nodes → ListHead → Option ℕ → (Nodes × ListHead) × Option ℕ
unfolding set_previous
pop_node nodes l none = ((nodes, l), none)
pop_node nodes l (some node) =
    let next = (nodes node).next in
    let cut = set_previous nodes next none in
    (
      (
        update cut node (record (cut node) { previous = none; next = none; linked = false }),
        record { head = next; tail = if is_none next then none else l.tail; size = l.size - 1 },
      ),
      some node,
    )

-- os_ListPopFront
unfoldable pub list_pop_front : Nodes → ListHead → (Nodes × ListHead) × Option ℕ
unfolding pop_node
list_pop_front nodes l = pop_node nodes l l.head

-- os_ListRemove
unfoldable pub list_remove : Nodes → ListHead → ℕ → Option (Nodes × ListHead)
list_remove nodes l node =
    let before = (nodes node).previous in
    let passed = set_next nodes before (nodes node).next in
    let next = (passed node).next in
    let bridged = set_previous passed next (passed node).previous in
    asserting (nodes node).linked (
      asserting (ltb 0 l.size) (
        asserting (not (is_none before) || same_handle l.head (some node)) (
          asserting (not (is_none next) || same_handle l.tail (some node)) (
            some (
              update bridged node
                  (record (bridged node) { previous = none; next = none; linked = false }),
              record {
                head = if is_none before then (nodes node).next else l.head;
                tail = if is_none next then (passed node).previous else l.tail;
                size = l.size - 1;
              },
            )))))

-- The loop of os_ListContains, with the rounds left
unfoldable pub contains_from : ℕ → Nodes → Option ℕ → ℕ → Bool
contains_from zero nodes current node = false
contains_from (suc n) nodes none node = false
contains_from (suc n) nodes (some c) node =
    let rest = contains_from n nodes (nodes c).next node in if c == node then true else rest

-- os_ListContains of a list and a node, either NULL
unfoldable pub list_contains : Nodes → Option ListHead → Option ℕ → Bool
unfolding contains_from
list_contains nodes none handle = false
list_contains nodes (some l) none = false
list_contains nodes (some l) (some node) = contains_from (max_tasks + 1) nodes l.head node
