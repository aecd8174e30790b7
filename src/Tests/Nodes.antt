-- ===== src/Tests/Nodes.antt =====
-- The theorems on linked lists at a list of two nodes.
use mini_rtos.Base.{
  ◌≡◌, refl, true, false, none, some, [], ◌∷◌, ◌==◌, arith, if◌then◌else◌, push_back, insert_before,
  remove, contains,
}
use mini_rtos.NodeList.{
  Nodes, ListHead, list_push_back, list_insert_before, list_remove, list_pop_front, list_contains,
}
use mini_rtos.NodeList.Chain.{IsList, Succeeds}
use mini_rtos.NodeList.Insert.{Relinked, list_push_back-Relinked, list_insert_before-Relinked}
use mini_rtos.NodeList.Remove.{
  Removed, list_remove-Removed, list_pop_front-Removed, list_contains-contains,
}

-- Nodes 3 and 5 are linked, all others are free.
abbrev two_nodes : Nodes
two_nodes y =
    if y == 3
    then record { previous = none; next = some 5; owner = some 0; linked = true }
    else if y == 5
    then record { previous = some 3; next = none; owner = some 1; linked = true }
    else record { previous = none; next = none; owner = none; linked = false }

abbrev two_head : ListHead
two_head = record { head = some 3; tail = some 5; size = 2 }

two_head-IsList : IsList two_nodes two_head (3 ∷ 5 ∷ [])
two_head-IsList = record {
  chain = (refl, refl, refl, (refl, refl, refl, (refl, refl)));
  size = refl;
  distinct = λ y. ground arith;
}

list_push_back-Relinked_example :
    Succeeds
      (Relinked two_nodes 7 (3 ∷ 5 ∷ []) (push_back (3 ∷ 5 ∷ []) 7))
      (list_push_back two_nodes two_head 7)
list_push_back-Relinked_example =
    list_push_back-Relinked two_nodes two_head (3 ∷ 5 ∷ []) 7 two_head-IsList refl refl

list_insert_before-Relinked_example :
    Succeeds
      (Relinked two_nodes 7 (3 ∷ 5 ∷ []) (insert_before (3 ∷ 5 ∷ []) 5 7))
      (list_insert_before two_nodes two_head 5 7)
list_insert_before-Relinked_example =
    list_insert_before-Relinked two_nodes two_head (3 ∷ 5 ∷ []) 5 7 two_head-IsList refl refl
      (omega arith)

list_remove-Removed_example :
    Succeeds
      (Removed two_nodes 5 (3 ∷ 5 ∷ []) (remove (3 ∷ 5 ∷ []) 5))
      (list_remove two_nodes two_head 5)
list_remove-Removed_example =
    list_remove-Removed two_nodes two_head (3 ∷ 5 ∷ []) 5 two_head-IsList (omega arith)

list_pop_front-Removed_example :
    Removed two_nodes 3 (3 ∷ 5 ∷ []) (5 ∷ []) (list_pop_front two_nodes two_head).0
    × ((list_pop_front two_nodes two_head).1 ≡ some 3)
list_pop_front-Removed_example =
    list_pop_front-Removed two_nodes two_head 3 (5 ∷ []) two_head-IsList

list_contains-contains_example :
    list_contains two_nodes (some two_head) (some 5) ≡ contains (3 ∷ 5 ∷ []) 5
list_contains-contains_example =
    list_contains-contains two_nodes two_head (3 ∷ 5 ∷ []) 5 two_head-IsList (omega arith)
