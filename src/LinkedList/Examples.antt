-- ===== src/LinkedList/Examples.antt =====
-- A list of numbers in three nodes.
use eltex_summer.Base.{ℕ, ◌≡◌, refl, true, none, some, compare, [], ◌∷◌, arith, ◌==◌, if◌then◌else◌}
use eltex_summer.Heap.{null, node, Heap, ends}
use eltex_summer.Heap.Chain.{Cells, Gives, IsList}
use eltex_summer.LinkedList.{is_zero, insert_to_linked_list, delete_from_linked_list, remove_front}
use eltex_summer.LinkedList.Sequence.{insert, delete, Sorted, Placed, Flips, insert-Sorted}
use eltex_summer.LinkedList.Insertion.{Holds, insert_to_linked_list-Holds}
use eltex_summer.LinkedList.Deletion.{Takes, removals-Takes}

abbrev cells : Cells ℕ
cells = (10, 2) ∷ (30, 4) ∷ (20, 7) ∷ []

abbrev store : Heap ℕ
store a =
    if a == 10
    then some (node 2 30 null)
    else if a == 30
    then some (node 4 20 10)
    else if a == 20
    then some (node 7 null 30)
    else none

store-IsList : IsList store (ends 10 20) cells
store-IsList = record {
  chain = (refl, refl, refl, (refl, refl, refl, (refl, refl, refl, tt)));
  at_head = refl;
  at_tail = refl;
}

insert_to_linked_list-Holds_example :
    Gives
      (Holds (insert compare (2 ∷ 4 ∷ 7 ∷ []) 5))
      (insert_to_linked_list compare 3 40 store (ends 10 20) 5)
insert_to_linked_list-Holds_example =
    insert_to_linked_list-Holds compare 3 40 5 cells store (ends 10 20) store-IsList refl refl
      (omega arith)

removals-Takes_example :
    Takes store
      (ends 10 20)
      cells
      (delete (λ v. is_zero (compare v 4)) (2 ∷ 4 ∷ 7 ∷ []))
      (delete_from_linked_list compare 4 store (ends 10 20) 4)
    × Takes store
        (ends 10 20)
        cells
        (delete (λ v. true) (2 ∷ 4 ∷ 7 ∷ []))
        (remove_front store (ends 10 20))
removals-Takes_example =
    removals-Takes compare 4 4 cells store (ends 10 20) store-IsList (omega arith)

compare-Flips : Flips compare
compare-Flips a b e = ground arith

insert-Sorted_example :
    Sorted compare (insert compare (2 ∷ 4 ∷ 7 ∷ []) 5)
    × Placed compare 5 (2 ∷ 4 ∷ 7 ∷ []) (insert compare (2 ∷ 4 ∷ 7 ∷ []) 5)
insert-Sorted_example = insert-Sorted compare compare-Flips 5 (2 ∷ 4 ∷ 7 ∷ []) (refl, (refl, tt))

five_in_place : insert compare (2 ∷ 4 ∷ 7 ∷ []) 5 ≡ 2 ∷ 4 ∷ 5 ∷ 7 ∷ []
unfolding insert
five_in_place = refl
