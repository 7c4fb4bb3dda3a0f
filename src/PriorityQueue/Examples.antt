-- ===== src/PriorityQueue/Examples.antt =====
-- The queue of module2/task3/4.2 with a few elements.
use eltex_summer.Base.{ℕ, ◌≡◌, refl, none, some, [], ◌∷◌, ◌++◌, arith, ltb, ◌==◌, if◌then◌else◌}
use eltex_summer.Base.Int.{pos}
use eltex_summer.PriorityQueue.{
  QueueElement, PriorityQueue, enqueue, dequeue_where, dequeue_with_priority,
  dequeue_with_min_priority,
}
use eltex_summer.Heap.{null, node, ends, free_all}
use eltex_summer.Heap.Chain.{Cells, Gives, IsList}
use eltex_summer.Heap.Frees.{Freed, free_all-Freed}
use eltex_summer.PriorityQueue
use eltex_summer.PriorityQueue.Nodes
use eltex_summer.PriorityQueue.Nodes.{Store}
use eltex_summer.PriorityQueue.Dequeues.{Refines, dequeues-Refines}
use eltex_summer.PriorityQueue.Insertion.{Holds, enqueue-Refines}
use eltex_summer.PriorityQueue.Order.{Rising, of_priority, enqueue-of_priority}

abbrev of : ℕ → ℕ → QueueElement
of p v = record { priority = p; value = pos v }

abbrev three : PriorityQueue
three = of 5 1 ∷ of 7 2 ∷ of 7 3 ∷ []

three-Rising : Rising 0 three
unfolding Rising
three-Rising = (omega arith, (omega arith, (omega arith, tt)))

enqueue-of_priority_example :
    (of_priority 7 (enqueue three (pos 4) 7).1 ≡ (
      if ltb 255 7
      then of_priority 7 three
      else (if 7 == 7
          then of_priority 7 three ++ record { priority = 7; value = pos 4 } ∷ []
          else of_priority 7 three)))
    × Rising 0 (enqueue three (pos 4) 7).1
enqueue-of_priority_example = enqueue-of_priority three (pos 4) 7 7 three-Rising

-- The only element cannot be taken by its priority.
only_element : dequeue_with_min_priority (of 9 1 ∷ []) 4 ≡ none
unfolding dequeue_with_min_priority dequeue_where
only_element = refl

-- The queue of `min_priority_priority_check1`: the element of priority 15 is taken first, where the test
-- has 333, of priority 10.
taken_of_test :
    dequeue_with_min_priority (of 10 333 ∷ of 11 555 ∷ of 15 444 ∷ of 100 222 ∷ of 110 111 ∷ []) 15
    ≡ some (some (of 15 444), of 10 333 ∷ of 11 555 ∷ of 100 222 ∷ of 110 111 ∷ [])
unfolding dequeue_with_min_priority dequeue_where
taken_of_test = refl

-- The three elements in nodes at 10, 30 and 20.
abbrev cells : Cells QueueElement
cells = (10, of 5 1) ∷ (30, of 7 2) ∷ (20, of 7 3) ∷ []

abbrev store : Store
store a =
    if a == 10
    then some (node (of 5 1) 30 null)
    else if a == 30
    then some (node (of 7 2) 20 10)
    else if a == 20
    then some (node (of 7 3) null 30)
    else none

store-IsList : IsList store (ends 10 20) cells
store-IsList = record {
  chain = (refl, refl, refl, (refl, refl, refl, (refl, refl, refl, tt)));
  at_head = refl;
  at_tail = refl;
}

dequeues-Refines_example :
    Refines (Nodes.dequeue store (ends 10 20)) (some (PriorityQueue.dequeue three))
    × Refines
        (Nodes.dequeue_with_priority 4 store (ends 10 20) 7)
        (PriorityQueue.dequeue_with_priority three 7)
    × Refines
        (Nodes.dequeue_with_min_priority 4 store (ends 10 20) 7)
        (PriorityQueue.dequeue_with_min_priority three 7)
dequeues-Refines_example = dequeues-Refines 4 7 cells store (ends 10 20) store-IsList (omega arith)

enqueue-Refines_example :
    Gives
      (Holds (PriorityQueue.enqueue three (pos 4) 6))
      (Nodes.enqueue 4 40 store (ends 10 20) (pos 4) 6)
enqueue-Refines_example =
    enqueue-Refines 4 40 6 (pos 4) cells store (ends 10 20) store-IsList refl refl (omega arith)

free_all-Freed_example : Gives (Freed cells store) (free_all 4 store 10)
free_all-Freed_example = free_all-Freed 4 store null cells store-IsList.chain (omega arith)
