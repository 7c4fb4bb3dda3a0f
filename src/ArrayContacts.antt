-- ===== src/ArrayContacts.antt =====
-- The contact book of module2/task1/2.1/src/contacts.c: contacts in an array that grows. `capacity`,
-- the number of contacts, is the length of the list; `size` is the room that is allocated. `size` and
-- `next_id` are `size_t`, of 64 bits. `malloc` and `realloc` are taken to succeed, with room for as many
-- contacts as `size` says. The source's Contact is the shared one.
mod Ids
mod Examples
use eltex_summer.Base.{
  ℕ, zero, suc, ◌+◌, ◌-◌, ◌*◌, ◌%◌, ◌^◌, Bool, true, false, Option, none, some, List, [], ◌∷◌, ◌++◌,
  ltb, leb, ◌==◌, ◌&&◌, ◌||◌, if◌then◌else◌, length, ◌>>=◌,
}
use eltex_summer.Base.Int.{ℤ, pos, negsuc}
use eltex_summer.Text.{Text, text_eq}
use eltex_summer.Contact.{Contact, Fields, Changes, Rests, new_contact, update_fields}

pub record ContactList : Type 0 where
  pub contacts : List Contact
  pub size : ℕ
  pub next_id : ℕ

-- The first contact with the id is moved over by those behind it.
unfoldable pub remove_first : ℕ → List Contact → Option (List Contact)
remove_first id [] = none
remove_first id (c ∷ cs) =
    let rest = remove_first id cs in
    if c.id == id then some cs else elim rest [ none ↦ none | some cs' ↦ some (c ∷ cs') ]

abbrev pub deleted : ContactList → Option (List Contact) → Bool × ContactList
deleted s none = (false, s)
deleted s (some cs) = (true, record s { contacts = cs })

unfoldable pub delete_contact : ContactList → ℕ → Bool × ContactList
unfolding remove_first
delete_contact s id =
    if (s.size == 0) || (length s.contacts == 0)
    then (false, s)
    else deleted s (remove_first id s.contacts)

-- `NULL` is `none`.
unfoldable pub create_list : ℕ → Option ContactList
create_list size =
    if size == 0 then none else some (record { contacts = []; size = size; next_id = 0 })

-- With size 0 the contact goes into a new list, which the caller does not see.
unfoldable pub add_contact : Rests → ContactList → Fields → Bool × ContactList
unfolding new_contact
add_contact m s f = if s.size == 0 then (true, s) else (
  true,
  record {
    contacts = s.contacts ++ new_contact m s.next_id f ∷ [];
    size = if leb s.size (length s.contacts) then s.size * 2 % 2 ^ 64 else s.size;
    next_id = (s.next_id + 1) % 2 ^ 64;
  },
)

-- The first contact with the id is changed; `none` where there is none, and the code goes on with a
-- pointer that was never set.
unfoldable pub update_first : (Contact → Contact) → ℕ → List Contact → Option (List Contact)
update_first f id [] = none
update_first f id (c ∷ cs) =
    let rest = update_first f id cs in
    if c.id == id then some (f c ∷ cs) else elim rest [ none ↦ none | some cs' ↦ some (c ∷ cs') ]

abbrev pub updated : ContactList → Option (List Contact) → Option (Bool × ContactList)
updated s none = none
updated s (some cs) = some (true, record s { contacts = cs })

unfoldable pub update_contact : ContactList → ℕ → Changes → Option (Bool × ContactList)
unfolding update_first update_fields
update_contact s id u =
    if leb (length s.contacts) id
    then some (false, s)
    else updated s (update_first (update_fields u) id s.contacts)

-- The loop goes on behind a match, so the last one counts.
unfoldable pub last_named : Text → Text → List Contact → Option Contact → Option Contact
unfolding text_eq
last_named first last [] found = found
last_named first last (c ∷ cs) found =
    last_named first last cs
      (if text_eq c.first_name first && text_eq c.last_name last then some c else found)

abbrev pub found_id : Option Contact → ℤ
found_id none = negsuc 0
found_id (some c) = pos c.id

-- The id, or -1, and the contact that `*contact_to_find` is set to.
unfoldable pub find_contact_by_name : ContactList → Text → Text → ℤ × Option Contact
unfolding last_named
find_contact_by_name s first last = let c = last_named first last s.contacts none in (found_id c, c)
