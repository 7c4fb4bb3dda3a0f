-- ===== src/PriorityQueue.antt =====
-- The priority queue of module2/task3/4.2/src/pqueue.c. A queue is the list of its elements from `head`
-- on; `tail` and the `prev` links of the code follow from the order, and Nodes has them.
-- `malloc` is taken to succeed. `none` is a NULL pointer that is followed.
pub mod Nodes
mod Order
mod Removal
mod Dequeues
mod Places
mod Insertion
mod Examples
use eltex_summer.Base.{
  ℕ, Bool, true, false, Option, none, some, List, [], ◌∷◌, ltb, leb, ◌==◌, if◌then◌else◌,
}
use eltex_summer.Base.Int.{ℤ}

pub record QueueElement : Type 0 where
  pub priority : ℕ
  pub value : ℤ

abbrev pub PriorityQueue : Type 0
PriorityQueue = List QueueElement

unfoldable pub create_queue : PriorityQueue
create_queue = []

-- The walk over the elements of a priority that is at most the new one's, and the insertion behind them.
unfoldable pub insert_behind : QueueElement → PriorityQueue → PriorityQueue
insert_behind x [] = x ∷ []
insert_behind x (e ∷ es) =
    let rest = insert_behind x es in if leb e.priority x.priority then e ∷ rest else x ∷ e ∷ es

unfoldable pub enqueue : PriorityQueue → ℤ → ℕ → Bool × PriorityQueue
unfolding insert_behind
enqueue queue value priority =
    if ltb 255 priority
    then (false, queue)
    else (true, insert_behind (record { priority = priority; value = value }) queue)

unfoldable pub dequeue : PriorityQueue → Option QueueElement × PriorityQueue
dequeue [] = (none, [])
dequeue (e ∷ es) = (some e, es)

-- The first element behind the head that passes the test is taken out.
unfoldable pub take_first :
    (QueueElement → Bool) → PriorityQueue → Option (QueueElement × PriorityQueue)
take_first test [] = none
take_first test (e ∷ es) =
    let rest = take_first test es in
    if test e then some (e, es) else elim rest [ none ↦ none | some (f, fs) ↦ some (f, e ∷ fs) ]

abbrev pub behind :
    QueueElement
    → PriorityQueue
    → Option (QueueElement × PriorityQueue)
    → Option QueueElement × PriorityQueue
behind e es none = (none, e ∷ es)
behind e es (some (f, fs)) = (some f, e ∷ fs)

-- The two functions below differ in the test. Where the head is taken, its successor's `prev` is set,
-- also if it has none.
unfoldable pub dequeue_where :
    (QueueElement → Bool) → PriorityQueue → Option (Option QueueElement × PriorityQueue)
unfolding take_first
dequeue_where test [] = some (none, [])
dequeue_where test (e ∷ []) = if test e then none else some (none, e ∷ [])
dequeue_where test (e ∷ f ∷ es) =
    if test e then some (some e, f ∷ es) else some (behind e (f ∷ es) (take_first test (f ∷ es)))

unfoldable pub dequeue_with_priority :
    PriorityQueue → ℕ → Option (Option QueueElement × PriorityQueue)
unfolding dequeue_where
dequeue_with_priority queue priority = dequeue_where (λ e. e.priority == priority) queue

unfoldable pub dequeue_with_min_priority :
    PriorityQueue → ℕ → Option (Option QueueElement × PriorityQueue)
unfolding dequeue_where
dequeue_with_min_priority queue min_priority =
    dequeue_where (λ e. leb min_priority e.priority) queue
