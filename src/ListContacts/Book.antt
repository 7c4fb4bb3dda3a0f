-- ===== src/ListContacts/Book.antt =====
-- The book without its nodes: the contacts in order, and the next id, a `size_t` of 64 bits.
use eltex_summer.Base.{ℕ, ◌+◌, ◌%◌, ◌^◌, Bool, true, false, Option, none, some, List, []}
use eltex_summer.Base.Int.{ℤ, pos, negsuc}
use eltex_summer.Text.{Text}
use eltex_summer.Heap.{Ptr}
use eltex_summer.LinkedList.{is_zero}
use eltex_summer.LinkedList.Sequence.{insert, delete, find, change_first}
use eltex_summer.Contact.{
  Contact, Fields, Changes, Rests, new_contact, update_fields, contact_compare_by_name,
  contact_compare_with_id, contact_compare_by_name_str,
}

pub record Book : Type 0 where
  pub contacts : List Contact
  pub next_id : ℕ

abbrev pub empty : Book
empty = record { contacts = []; next_id = 0 }

abbrev pub with_id : ℕ → Contact → Bool
with_id id c = is_zero (contact_compare_with_id c id)

abbrev pub with_name : Text → Contact → Bool
with_name name c = is_zero (contact_compare_by_name_str c name)

-- The calls that change a book. An add has the address of its new node.
pub data Call : Type 0 where
  add : Rests → Ptr → Fields → Call
  delete_id : ℕ → Call
  update : ℕ → Changes → Call

abbrev pub without : Book → Option (List Contact) → Bool × Book
without b none = (false, b)
without b (some cs) = (true, record b { contacts = cs })

abbrev pub is_some : {A : Type 0} → Option A → Bool
is_some none = false
is_some (some a) = true

unfoldable pub answer : Book → Call → Bool × Book
answer b (add m n f) = (
  true,
  record {
    contacts = insert contact_compare_by_name b.contacts (new_contact m b.next_id f);
    next_id = (b.next_id + 1) % 2 ^ 64;
  },
)
answer b (delete_id id) = without b (delete (with_id id) b.contacts)
answer b (update id u) = (
  is_some (find (with_id id) b.contacts),
  record b { contacts = change_first (with_id id) (update_fields u) b.contacts },
)

abbrev pub found_id : Option Contact → ℤ
found_id none = negsuc 0
found_id (some c) = pos c.id

-- The answer to a search by name.
unfoldable pub named : Book → Text → ℤ
named b name = found_id (find (with_name name) b.contacts)
