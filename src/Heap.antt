-- ===== src/Heap.antt =====
-- Doubly linked nodes at addresses, as the queue of module2/task3/4.2 and the list of module2/task3/4.1
-- have them, and the reads and writes of their code. `none` is a step through NULL or through an address
-- that holds no node, or a loop that runs out of fuel.
pub mod Chain
pub mod Split
pub mod Walk
pub mod Frees
use eltex_summer.Base.{ℕ, zero, suc, Bool, Option, none, some, ◌==◌, if◌then◌else◌, ◌>>=◌}

abbrev pub Ptr : Type 0
Ptr = ℕ

abbrev pub null : Ptr
null = 0

pub record Node (V : Type 0) : Type 0 where
  pub value : V
  pub next : Ptr
  pub prev : Ptr

abbrev pub node : {V : Type 0} → V → Ptr → Ptr → Node V
node v n p = record { value = v; next = n; prev = p }

abbrev pub Heap : Type 0 → Type 0
Heap V = Ptr → Option (Node V)

-- `head` and `tail`.
pub record Ends : Type 0 where
  pub head : Ptr
  pub tail : Ptr

abbrev pub ends : Ptr → Ptr → Ends
ends h t = record { head = h; tail = t }

module _ {V : Type 0} where
  unfoldable pub write : Heap V → Ptr → Option (Node V) → Heap V
  write h p c a = if a == p then c else h a

  -- `*p`
  unfoldable pub load : Heap V → Ptr → Option (Node V)
  load h p = if p == null then none else h p

  -- `p->next = q` and `p->prev = q`
  unfoldable pub set_next : Heap V → Ptr → Ptr → Option (Heap V)
  set_next h p q = do n ← load h p; some (write h p (some (record n { next = q })))

  unfoldable pub set_prev : Heap V → Ptr → Ptr → Option (Heap V)
  set_prev h p q = do n ← load h p; some (write h p (some (record n { prev = q })))

  -- A change of what stands in the node.
  unfoldable pub set_value : Heap V → Ptr → (V → V) → Option (Heap V)
  set_value h p f = do n ← load h p; some (write h p (some (record n { value = f n.value })))

  -- `free(p)`
  unfoldable pub free : Heap V → Ptr → Option (Heap V)
  free h p = do n ← load h p; some (write h p none)

  -- `while (p != NULL && keep(p->value)) p = p->next;`
  unfoldable pub walk : ℕ → Heap V → (V → Bool) → Ptr → Option Ptr
  walk zero h keep p = none
  walk (suc f) h keep p =
      if p == null
      then some null
      else do n ← load h p; let rest = walk f h keep n.next; if keep n.value then rest else some p

  -- `while (p) { next = p->next; free(p); p = next; }`
  unfoldable pub free_all : ℕ → Heap V → Ptr → Option (Heap V)
  free_all zero h p = none
  free_all (suc f) h p =
      if p == null then some h else do n ← load h p; g ← free h p; free_all f g n.next
