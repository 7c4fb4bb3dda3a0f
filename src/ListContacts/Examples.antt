-- ===== src/ListContacts/Examples.antt =====
-- A book of two contacts.
use eltex_summer.Base.{
  ℕ, ◌≡◌, refl, sym, subst, none, some, List, [], ◌∷◌, map, arith, ◌==◌, if◌then◌else◌,
}
use eltex_summer.Text.{Text, strncpy, strcmp}
use eltex_summer.Heap.{null, node, ends}
use eltex_summer.Heap.Chain.{Gives}
use eltex_summer.Contact.{
  Contact, Fields, Rests, Changes, update_fields, new_contact, contact_compare_with_id,
  contact_compare_by_name,
}
use eltex_summer.LinkedList.Sequence.{change_first, insert}
use eltex_summer.ListContacts.{Store, ContactList, delete_contact}
use eltex_summer.ListContacts.Book.{Book, Call, add, update, answer, empty}
use eltex_summer.ListContacts.Refinement.{Represents}
use eltex_summer.ListContacts.Ids.{IsNumbered, Deletes, history, history-Removes}

abbrev contact : ℕ → Text → Contact
contact i name = record {
  id = i;
  first_name = name;
  last_name = [];
  company = [];
  phones = none;
  phone_count = 0;
  emails = none;
  email_count = 0;
  social_links = none;
  social_link_count = 0;
}

abbrev fields : Text → Fields
fields name = record {
  first_name = name;
  last_name = [];
  company = [];
  phones = none;
  emails = none;
  links = none;
  phone_count = 0;
  email_count = 0;
  link_count = 0;
}

abbrev clean : Rests
clean = record { first_rest = []; last_rest = []; company_rest = [] }

abbrev book : Book
book = record { contacts = contact 1 (65 ∷ []) ∷ contact 0 (67 ∷ []) ∷ []; next_id = 2 }

abbrev list : ContactList
list = record { contacts = ends 10 20; size = 2; next_id = 2 }

abbrev store : Store
store a =
    if a == 10
    then some (node (contact 1 (65 ∷ [])) 20 null)
    else if a == 20
    then some (node (contact 0 (67 ∷ [])) null 10)
    else none

store-Represents : Represents store list book
store-Represents = record {
  cells = (10, contact 1 (65 ∷ [])) ∷ (20, contact 0 (67 ∷ [])) ∷ [];
  list = record {
    chain = (refl, refl, refl, (refl, refl, refl, tt));
    at_head = refl;
    at_tail = refl;
  };
  holds = refl;
  counts = refl;
  ids = refl;
}

abbrev two_adds : List Call
two_adds = add clean 20 (fields (67 ∷ [])) ∷ add clean 10 (fields (65 ∷ [])) ∷ []

history-book : history two_adds empty ≡ book
unfolding history answer insert new_contact contact_compare_by_name strcmp strncpy
history-book = refl

two_adds-Represents : Represents store list (history two_adds empty)
two_adds-Represents =
    subst (λ (b : Book). Represents store list b) (sym history-book) store-Represents

history-Removes_example :
    IsNumbered (history two_adds empty)
    × Gives (Deletes 1 (history two_adds empty)) (delete_contact 3 store list 1)
history-Removes_example = history-Removes two_adds 1 store list (omega arith) two_adds-Represents

-- A changed first name stays where it is: 90 stands before 67.
abbrev renamed : Changes
renamed = record {
  first_name = some (90 ∷ []);
  last_name = none;
  company = none;
  phones = none;
  emails = none;
  links = none;
  phone_count = 0;
  email_count = 0;
  link_count = 0;
}

update-out_of_order :
    map (λ c. c.first_name) (answer book (update 1 renamed)).1.contacts ≡ (90 ∷ []) ∷ (67 ∷ []) ∷ []
unfolding answer change_first update_fields contact_compare_with_id strncpy
update-out_of_order = refl
