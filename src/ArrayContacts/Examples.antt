-- ===== src/ArrayContacts/Examples.antt =====
-- The array of module2/task1/2.1 on a book of three contacts.
use eltex_summer.Base.{length, ◌≤◌, ℕ, ◌≡◌, refl, true, false, none, some, [], ◌∷◌, arith}
use eltex_summer.Contact.{Contact, Fields, Changes, Rests}
use eltex_summer.Text.{Text}
use eltex_summer.ArrayContacts.{
  ContactList, add_contact, delete_contact, update_contact, remove_first,
}
use eltex_summer.ArrayContacts.Ids.{IsBook, Ascending, add_contact-IsBook}

abbrev named : ℕ → Text → Contact
named i name = record {
  id = i;
  first_name = name;
  last_name = [];
  company = [];
  phones = none;
  phone_count = 0;
  emails = none;
  email_count = 0;
  social_links = none;
  social_link_count = 0;
}

abbrev book : ContactList
book = record {
  contacts = named 0 (b'A' ∷ []) ∷ named 1 (b'B' ∷ []) ∷ named 2 (b'C' ∷ []) ∷ [];
  size = 4;
  next_id = 3;
}

abbrev shorter : ContactList
shorter = record {
  contacts = named 1 (b'B' ∷ []) ∷ named 2 (b'C' ∷ []) ∷ [];
  size = 4;
  next_id = 3;
}

book-IsBook : IsBook book
unfolding Ascending
book-IsBook =
    (omega arith, omega arith, (omega arith, omega arith, (omega arith, omega arith, omega arith)))

abbrev no_rest : Rests
no_rest = record { first_rest = []; last_rest = []; company_rest = [] }

abbrev dora : Fields
dora = record {
  first_name = b'D' ∷ [];
  last_name = [];
  company = [];
  phones = none;
  emails = none;
  links = none;
  phone_count = 0;
  email_count = 0;
  link_count = 0;
}

add_contact-IsBook_example :
    IsBook (add_contact no_rest book dora).1
    × IsBook (delete_contact book 1).1
    × (book.size ≤ (add_contact no_rest book dora).1.size)
    × (length (add_contact no_rest book dora).1.contacts ≤ (add_contact no_rest book dora).1.size)
add_contact-IsBook_example =
    add_contact-IsBook no_rest dora book 1 book-IsBook (omega arith) (omega arith) (omega arith)
      (omega arith)

abbrev no_change : Changes
no_change = record {
  first_name = none;
  last_name = none;
  company = none;
  phones = none;
  emails = none;
  links = none;
  phone_count = 0;
  email_count = 0;
  link_count = 0;
}

-- Once the first of three contacts is deleted, the one with id 2 cannot be updated.
deleted_first : delete_contact book 0 ≡ (true, shorter)
unfolding delete_contact remove_first
deleted_first = refl

update_refused : update_contact shorter 2 no_change ≡ some (false, shorter)
unfolding update_contact
update_refused = refl
