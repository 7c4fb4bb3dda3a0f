-- ===== src/ListContacts.antt =====
-- The contact book of module2/task3/4.1/src/contacts.c: contacts in a doubly linked list, in the order of
-- their first names. The source's Contact is the shared one, and stands in its node; that a deletion gives
-- back the node but not the contact is not seen here. The list pointer is not NULL.
pub mod Book
pub mod Refinement
pub mod Ids
mod Examples
use eltex_summer.Base.{
  ℕ, suc, ◌+◌, ◌-◌, ◌%◌, ◌^◌, Bool, true, false, Option, none, some, Ordering, ◌==◌, if◌then◌else◌,
  ◌>>=◌,
}
use eltex_summer.Base.Int.{ℤ, pos, negsuc}
use eltex_summer.Text.{Text}
use eltex_summer.Heap.{Ptr, null, Heap, Ends, load, set_value}
use eltex_summer.LinkedList.{
  create_linked_list, insert_to_linked_list, delete_from_linked_list, find_node, delete_linked_list,
}
use eltex_summer.Contact.{
  Contact, Fields, Changes, Rests, new_contact, update_fields, contact_compare_by_name,
  contact_compare_with_id, contact_compare_by_name_str,
}

abbrev pub Store : Type 0
Store = Heap Contact

-- `contacts` is the list's two pointers; the counters are `size_t`, of 64 bits.
pub record ContactList : Type 0 where
  pub contacts : Ends
  pub size : ℕ
  pub next_id : ℕ

unfoldable pub create_list : ContactList
create_list = record { contacts = create_linked_list; size = 0; next_id = 0 }

-- `fresh` is the node that `create_node` gets.
unfoldable pub add_contact :
    ℕ → Rests → Ptr → Store → ContactList → Fields → Option (Bool × ContactList × Store)
add_contact fuel m fresh h s fields = do
  let c = new_contact m s.next_id fields
  let next = (s.next_id + 1) % 2 ^ 64
  r ← insert_to_linked_list contact_compare_by_name fuel fresh h s.contacts c
  if r.0
      then some (true, record { contacts = r.1; size = (s.size + 1) % 2 ^ 64; next_id = next }, r.2)
      else some (false, record s { contacts = r.1; next_id = next }, r.2)

unfoldable pub delete_contact : ℕ → Store → ContactList → ℕ → Option (Bool × ContactList × Store)
delete_contact fuel h s id = if s.size == 0 then some (false, s, h) else do
  r ← delete_from_linked_list contact_compare_with_id fuel h s.contacts id
  if r.0
      then some (true, record s { contacts = r.1; size = s.size - 1 }, r.2)
      else some (false, record s { contacts = r.1 }, r.2)

unfoldable pub update_contact :
    ℕ → Store → ContactList → ℕ → Changes → Option (Bool × ContactList × Store)
update_contact fuel h s id u = do
  p ← find_node contact_compare_with_id fuel h s.contacts.head id
  if p == null
      then some (false, s, h)
      else do g ← set_value h p (update_fields u); some (true, s, g)

-- The id, or -1, and what `*contact_to_find` is set to. The last name is not read.
unfoldable pub find_contact_by_name : ℕ → Store → ContactList → Text → Text → Option (ℤ × Ptr)
find_contact_by_name fuel h s first_name last_name = do
  p ← find_node contact_compare_by_name_str fuel h s.contacts.head first_name
  if p == null then some (negsuc 0, p) else do n ← load h p; some (pos n.value.id, p)

unfoldable pub free_list : ℕ → Store → ContactList → Option Store
free_list fuel h s = do r ← delete_linked_list fuel h s.contacts; some r.1
