-- ===== src/LinkedList/Tests.antt =====
-- The theorems on lib/kernel/list.c at a heap that holds a list of two elements.
use cs162proj.Prelude.{◌≡◌, refl, [], ◌∷◌, List, some, ◌==◌, ltb, if◌then◌else◌, arith}
use cs162proj.LinkedList.{Heap}
use cs162proj.LinkedList.Chains.{IsList, nodes}
use cs162proj.LinkedList.Cut.{Keeps}
use cs162proj.LinkedList.Order.{list_insert_ordered, IsOrdered, list_insert_ordered_lem}
use cs162proj.LinkedList.Refine.{
  ListOp, push_front, push_back, pop_front, pop_back_op, size, on_heap, run, history_refines,
}

-- The list at 100, with its tail at 108, holds the elements at 200 and 300.
abbrev two_elements : Heap
two_elements = record {
  prev = λ x. if x == 200 then 100 else if x == 300 then 200 else if x == 108 then 300 else 0;
  next = λ x. if x == 100 then 200 else if x == 200 then 300 else if x == 300 then 108 else 0;
}

two_elements-IsList : IsList two_elements 100 (200 ∷ 300 ∷ [])
two_elements-IsList = omega arith

abbrev history : List ListOp
history = push_back 400 ∷ pop_front ∷ size ∷ push_front 200 ∷ pop_back_op ∷ []

history_refines_example :
    (h' : Heap) × (run (on_heap 10 100) history two_elements
      ≡ some (h', 0 ∷ 200 ∷ 2 ∷ 0 ∷ 400 ∷ []))
    × IsList h' 100 (200 ∷ 300 ∷ [])
history_refines_example =
    history_refines history 10 100 two_elements (200 ∷ 300 ∷ []) (200 ∷ 300 ∷ [])
      (0 ∷ 200 ∷ 2 ∷ 0 ∷ 400 ∷ []) two_elements-IsList (omega arith) refl

list_insert_ordered_lem_example :
    (h' : Heap) × (list_insert_ordered ltb 10 100 250 two_elements ≡ some h')
    × IsList h' 100 (200 ∷ 250 ∷ 300 ∷ [])
    × IsOrdered ltb (200 ∷ 250 ∷ 300 ∷ [])
    × Keeps two_elements h' (nodes 100 (200 ∷ 250 ∷ 300 ∷ []))
list_insert_ordered_lem_example =
    list_insert_ordered_lem ltb (λ a b h. ground arith) two_elements 100 250 (200 ∷ 300 ∷ []) 10
      two_elements-IsList (omega arith) (omega arith) (refl, tt) (omega arith)
