-- ===== src/ContactTree.antt =====
-- The contact book of module2/task3/4.3/src/contacts.c: contacts in an AvlTree, by id.
pub mod Books
pub mod Deletes
pub mod Lookups
mod Examples
use eltex_summer.Base.{
  ℕ, ◌+◌, ◌-◌, ◌%◌, ◌^◌, Bool, true, false, Option, none, some, Ordering, lt, eq, gt, ◌==◌, List,
  ◌∷◌, [], ◌++◌, if◌then◌else◌, ◌>>=◌,
}
use eltex_summer.Text.{Text}
use eltex_summer.Base.Int.{ℤ, pos, negsuc, eqb_ℤ}
use eltex_summer.AvlTree
use eltex_summer.AvlTree.{
  AvlTree, null, node, insert_node, search_node, dfs, delete_node, balance_check, fix_height,
  make_balance,
}
use eltex_summer.Contact.{
  Contact, Fields, Changes, Rests, new_contact, update_fields, contact_compare_by_id,
  contact_compare_with_id, contact_compare_by_name_str,
}

-- The pointer `list->contacts`: a tree, or memory that has been given back.
pub data Root : Type 0 where
  root : AvlTree Contact → Root
  dangling : Root

-- `ContactList`; its counters are `size_t`, of 64 bits.
pub record ContactList : Type 0 where
  pub contacts : Root
  pub size : ℕ
  pub next_id : ℕ

-- A use of the tree through the pointer.
abbrev pub deref : Root → Option (AvlTree Contact)
deref (root t) = some t
deref dangling = none

-- `contacts` keeps what the memory held.
unfoldable pub create_list : Root → ContactList
create_list held = record { contacts = held; size = 0; next_id = 0 }

unfoldable pub add_contact : Rests → ContactList → Fields → Option (Bool × ContactList)
unfolding new_contact insert_node contact_compare_by_id
add_contact m s f = do
  let c = new_contact m s.next_id f
  t ← deref s.contacts
  t' ← insert_node contact_compare_by_id t c
  some (
    true,
    record { contacts = root t'; size = (s.size + 1) % 2 ^ 64; next_id = (s.next_id + 1) % 2 ^ 64 },
  )

abbrev pub left_of : AvlTree Contact → AvlTree Contact
left_of null = null
left_of (node v h l r) = l

abbrev pub right_of : AvlTree Contact → AvlTree Contact
right_of null = null
right_of (node v h l r) = r

-- What a pointer to the node `p` reads after `make_balance(p)`: after a left rotation that node is
-- the left child of the result, after a right rotation the right child.
unfoldable pub node_after_balance : AvlTree Contact → Option (AvlTree Contact)
unfolding fix_height balance_check make_balance
node_after_balance p = do
  q ← fix_height p
  b ← balance_check q
  t ← make_balance p
  if eqb_ℤ (pos b) (pos 2)
      then some (left_of t)
      else (if eqb_ℤ (pos b) (negsuc 1) then some (right_of t) else some t)

-- What a pointer to the root reads after `delete_node(root, id, contact_compare_with_id)`.
unfoldable pub root_after_delete : AvlTree Contact → ℕ → Option Root
unfolding node_after_balance delete_node contact_compare_with_id
root_after_delete null k = some (root null)
root_after_delete (node v h l r) k = elim (contact_compare_with_id v k) [
  | lt ↦ delete_node contact_compare_with_id l k >>= λ l'.
      node_after_balance (node v h l' r) >>= λ t. some (root t)
  | gt ↦ delete_node contact_compare_with_id r k >>= λ r'.
      node_after_balance (node v h l r') >>= λ t. some (root t)
  | eq ↦ delete_node contact_compare_with_id (node v h l r) k >>= λ t. some dangling
]

-- The new root that `delete_node` returns is not stored: `contacts` goes on pointing at the old one.
unfoldable pub delete_contact : ContactList → ℕ → Option (Bool × ContactList)
unfolding root_after_delete
delete_contact s id = if s.size == 0 then some (false, s) else do
  t ← deref s.contacts
  after ← root_after_delete t id
  let left = s.size - 1
  some (true, record s { contacts = if left == 0 then root null else after; size = left })

-- A change of the value through the pointer that `search_node` returned.
unfoldable pub update_found : (Contact → Contact) → AvlTree Contact → ℕ → Option (AvlTree Contact)
unfolding contact_compare_with_id
update_found f null k = none
update_found f (node v h l r) k = elim (contact_compare_with_id v k) [
  | eq ↦ some (node (f v) h l r)
  | lt ↦ update_found f l k >>= λ l'. some (node v h l' r)
  | gt ↦ update_found f r k >>= λ r'. some (node v h l r')
]

-- `search_node(...)->value` is read before any test, so an absent id is a fault.
unfoldable pub update_contact : ContactList → ℕ → Changes → Option (Bool × ContactList)
unfolding update_found update_fields
update_contact s id u = do
  t ← deref s.contacts
  t' ← update_found (update_fields u) t id
  some (true, record s { contacts = root t' })

abbrev pub value_of : AvlTree Contact → Option Contact
value_of null = none
value_of (node v h l r) = some v

-- The id, or -1, and the contact that `*contact_to_find` is set to. The last name is not read.
unfoldable pub find_contact_by_name : ContactList → Text → Text → Option (ℤ × Option Contact)
unfolding dfs contact_compare_by_name_str
find_contact_by_name s first_name last_name = do
  t ← deref s.contacts
  let c = value_of (dfs contact_compare_by_name_str t first_name)
  some (elim c [ some v ↦ pos v.id | none ↦ negsuc 0 ], c)
