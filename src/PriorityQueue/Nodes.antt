-- ===== src/PriorityQueue/Nodes.antt =====
-- The functions of module2/task3/4.2/src/pqueue.c on the nodes of a heap. A queue is its two pointers. The
-- loops run on fuel, and `fresh` is what `malloc` returns.
use eltex_summer.Base.{
  ℕ, Bool, true, false, not, Option, some, ltb, leb, ◌==◌, if◌then◌else◌, ◌>>=◌,
}
use eltex_summer.Base.Int.{ℤ}
use eltex_summer.Heap.{
  Ptr, null, node, Heap, Ends, ends, write, load, set_next, set_prev, walk, free_all,
}
use eltex_summer.PriorityQueue.{QueueElement}

abbrev pub Store : Type 0
Store = Heap QueueElement

abbrev pub create_queue : Ends
create_queue = ends null null

-- The nodes are given back; `free(queue)` ends the queue itself.
unfoldable pub delete_queue : ℕ → Store → Ends → Option (Bool × Store)
delete_queue fuel h queue = do g ← free_all fuel h queue.head; some (true, g)

-- The three places of a new element: at the end, in front, or before the element at `curr`.
unfoldable pub link_last : Store → Ends → Ptr → Option (Bool × Ends × Store)
link_last h queue new = do
  h1 ← set_next h queue.tail new
  h2 ← set_prev h1 new queue.tail
  some (true, record queue { tail = new }, h2)

unfoldable pub link_first : Store → Ends → Ptr → Option (Bool × Ends × Store)
link_first h queue new = do
  h1 ← set_prev h queue.head new
  h2 ← set_next h1 new queue.head
  some (true, record queue { head = new }, h2)

unfoldable pub link_before : Store → Ends → Ptr → Ptr → Option (Bool × Ends × Store)
link_before h queue new curr = do
  h1 ← set_next h new curr
  c ← load h1 curr
  h2 ← set_prev h1 new c.prev
  d ← load h2 curr
  h3 ← set_next h2 d.prev new
  h4 ← set_prev h3 curr new
  some (true, queue, h4)

unfoldable pub enqueue : ℕ → Ptr → Store → Ends → ℤ → ℕ → Option (Bool × Ends × Store)
enqueue fuel fresh h queue value priority = if ltb 255 priority then some (false, queue, h) else do
  let h0 = write h fresh (some (node (record { priority = priority; value = value }) null null))
  if queue.head == null then some (true, ends fresh fresh, h0) else do
    curr ← walk fuel h0 (λ e. leb e.priority priority) queue.head
    if curr == null
        then link_last h0 queue fresh
        else if curr == queue.head
        then link_first h0 queue fresh
        else link_before h0 queue fresh curr

-- The pointer to the element, or NULL.
unfoldable pub dequeue : Store → Ends → Option (Ptr × Ends × Store)
dequeue h queue = if queue.head == null then some (null, queue, h) else do
  n ← load h queue.head
  if n.next == null
      then some (queue.head, ends null null, h)
      else do h1 ← set_prev h n.next null; some (queue.head, record queue { head = n.next }, h1)

-- What both searches do with the element at `current`.
unfoldable pub unlink : Store → Ends → Ptr → Option (Ptr × Ends × Store)
unlink h queue current = do
  n ← load h current
  if n.prev == null
      then (do h1 ← set_prev h n.next null; some (current, record queue { head = n.next }, h1))
      else if n.next == null
      then (do h1 ← set_next h n.prev null; some (current, record queue { tail = n.prev }, h1))
      else do
        h1 ← set_next h n.prev n.next
        m ← load h1 current
        h2 ← set_prev h1 m.next m.prev
        some (current, queue, h2)

unfoldable pub dequeue_where :
    ℕ → (QueueElement → Bool) → Store → Ends → Option (Ptr × Ends × Store)
dequeue_where fuel test h queue = if queue.head == null then some (null, queue, h) else do
  current ← walk fuel h (λ e. not (test e)) queue.head
  if current == null then some (null, queue, h) else unlink h queue current

unfoldable pub dequeue_with_priority : ℕ → Store → Ends → ℕ → Option (Ptr × Ends × Store)
dequeue_with_priority fuel h queue priority =
    dequeue_where fuel (λ e. e.priority == priority) h queue

unfoldable pub dequeue_with_min_priority : ℕ → Store → Ends → ℕ → Option (Ptr × Ends × Store)
dequeue_with_min_priority fuel h queue min_priority =
    dequeue_where fuel (λ e. leb min_priority e.priority) h queue
