-- ===== src/LinkedList.antt =====
-- The doubly linked list of module2/task3/4.1/src/list/list.c on the nodes of a heap. A list is its two
-- pointers; a value stands in its node, where the code has a pointer to a contact that no other node has.
-- `fresh` is what `malloc` returns. A comparator is read by the sign of what it returns.
pub mod Sequence
pub mod Places
pub mod Insertion
pub mod Skips
pub mod Deletion
pub mod Lookup
mod Examples
use eltex_summer.Base.{
  ℕ, zero, suc, Bool, true, false, not, Option, none, some, Ordering, lt, eq, gt, ◌==◌, ◌&&◌,
  if◌then◌else◌, ◌>>=◌,
}
use eltex_summer.Heap.{
  Ptr, null, node, Heap, Ends, ends, write, load, set_next, set_prev, free, walk, free_all,
}

-- `c >= 0`, `c <= 0` and `c == 0`.
abbrev pub at_least : Ordering → Bool
at_least lt = false
at_least eq = true
at_least gt = true

abbrev pub at_most : Ordering → Bool
at_most lt = true
at_most eq = true
at_most gt = false

abbrev pub is_zero : Ordering → Bool
is_zero lt = false
is_zero eq = true
is_zero gt = false

abbrev pub create_linked_list : Ends
create_linked_list = ends null null

module _ {V : Type 0} where
  unfoldable pub create_node : Ptr → Heap V → V → Heap V
  create_node fresh h data_ = write h fresh (some (node data_ null null))

  -- `while (p->next != NULL && keep(p->next->value)) p = p->next;`
  unfoldable pub walk_next : ℕ → Heap V → (V → Bool) → Ptr → Option Ptr
  walk_next zero h keep p = none
  walk_next (suc f) h keep p = do
    n ← load h p
    if n.next == null then some p else do
      m ← load h n.next
      let rest = walk_next f h keep n.next
      if keep m.value then rest else some p

  -- The three places of a new node: in front, at the end, and behind the node at `tmp`.
  unfoldable pub insert_front : Heap V → Ends → Ptr → Option (Bool × Ends × Heap V)
  insert_front h list new = do
    h1 ← set_next h new list.head
    h2 ← if list.head == null then some h1 else set_prev h1 list.head new
    some (true, record list { head = new }, h2)

  unfoldable pub insert_end : Heap V → Ends → Ptr → Option (Bool × Ends × Heap V)
  insert_end h list new = do
    h1 ← set_prev h new list.tail
    n ← load h1 new
    h2 ← set_next h1 n.prev new
    h3 ← set_next h2 new null
    some (true, record list { tail = new }, h3)

  unfoldable pub insert_after : Heap V → Ends → Ptr → Ptr → Option (Bool × Ends × Heap V)
  insert_after h list new tmp = do
    t ← load h tmp
    h1 ← set_next h new t.next
    h2 ← set_prev h1 new tmp
    u ← load h2 tmp
    h3 ← set_prev h2 u.next new
    h4 ← set_next h3 tmp new
    some (true, list, h4)

  unfoldable pub insert_to_linked_list :
      (V → V → Ordering) → ℕ → Ptr → Heap V → Ends → V → Option (Bool × Ends × Heap V)
  unfolding create_node
  insert_to_linked_list compare fuel fresh h list data_ = do
    let h0 = create_node fresh h data_
    if list.head == null then some (true, ends fresh fresh, h0) else do
      first ← load h0 list.head
      if at_least (compare first.value data_) then insert_front h0 list fresh else do
        last ← load h0 list.tail
        if at_most (compare last.value data_) then insert_end h0 list fresh else do
          tmp ← walk_next fuel h0 (λ v. at_most (compare v data_)) list.head
          insert_after h0 list fresh tmp

  -- The two steps of delete_node: to the next node from before it, and to the previous one from behind it.
  unfoldable pub skip_from_prev : Heap V → Ends → Ptr → Option (Ends × Heap V)
  skip_from_prev h list p = do
    n ← load h p
    if n.prev == null
        then some (record list { head = n.next }, h)
        else do g ← set_next h n.prev n.next; some (list, g)

  unfoldable pub skip_from_next : Heap V → Ends → Ptr → Option (Ends × Heap V)
  skip_from_next h list p = do
    n ← load h p
    if n.next == null
        then some (record list { tail = n.prev }, h)
        else do g ← set_prev h n.next n.prev; some (list, g)

  unfoldable pub delete_node : Heap V → Ends → Ptr → Option (Ends × Heap V)
  delete_node h list p = if p == null then some (list, h) else do
    r ← skip_from_prev h list p
    s ← skip_from_next r.1 r.0 p
    g ← free s.1 p
    some (s.0, g)

  -- The links of the neighbours of the node at `tmp`, as the search below sets them.
  unfoldable pub unlink_found : Heap V → Ends → Ptr → Option (Ends × Heap V)
  unlink_found h list tmp = do
    n ← load h tmp
    if not (n.prev == null) && not (n.next == null)
        then (do
          h1 ← set_next h n.prev n.next
          m ← load h1 tmp
          h2 ← set_prev h1 m.next m.prev
          some (list, h2))
        else if (n.prev == null) && not (n.next == null)
        then (do h1 ← set_prev h n.next null; some (record list { head = n.next }, h1))
        else if (n.next == null) && not (n.prev == null)
        then (do h1 ← set_next h n.prev null; some (record list { tail = n.prev }, h1))
        else some (ends null null, h)

  unfoldable pub remove_front : Heap V → Ends → Option (Bool × Ends × Heap V)
  remove_front h list =
      if list.head == null
      then some (false, list, h)
      else do r ← delete_node h list list.head; some (true, r.0, r.1)

  -- The nodes are given back, each with its contact; `free(*list)` ends the list itself.
  unfoldable pub delete_linked_list : ℕ → Heap V → Ends → Option (Bool × Heap V)
  delete_linked_list fuel h list = do g ← free_all fuel h list.head; some (true, g)

module _ {V D : Type 0} where
  unfoldable pub delete_from_linked_list :
      (V → D → Ordering) → ℕ → Heap V → Ends → D → Option (Bool × Ends × Heap V)
  unfolding unlink_found
  delete_from_linked_list compare fuel h list data_ = do
    tmp ← walk fuel h (λ v. not (is_zero (compare v data_))) list.head
    if tmp == null
        then some (false, list, h)
        else do r ← unlink_found h list tmp; g ← free r.1 tmp; some (true, r.0, g)

  -- The node whose contact is found, or NULL.
  unfoldable pub find_node : (V → D → Ordering) → ℕ → Heap V → Ptr → D → Option Ptr
  find_node compare fuel h head data_ =
      if head == null then some null else walk fuel h (λ v. not (is_zero (compare v data_))) head
