-- ===== src/ContactTree/Examples.antt =====
-- The theorems about the contact book at small books.
use eltex_summer.Base.{ℕ, ◌≡◌, refl, true, none, some, List, [], ◌∷◌, arith, replicate, ◌>>=◌}
use eltex_summer.Text.{Text}
use eltex_summer.Contact.{Contact, Fields, Rests, Changes}
use eltex_summer.ContactTree.{add_contact, delete_contact}
use eltex_summer.ContactTree.Books.{add_all, book, no_contacts, numbered, add_all_fault}
use eltex_summer.ContactTree.Deletes.{delete_contact-book}

abbrev contact : ℕ → Text → Contact
contact i name = record {
  id = i;
  first_name = name;
  last_name = [];
  company = [];
  phones = none;
  phone_count = 0;
  emails = none;
  email_count = 0;
  social_links = none;
  social_link_count = 0;
}

abbrev clean : Rests
clean = record { first_rest = []; last_rest = []; company_rest = [] }

abbrev ann : Fields
ann = record {
  first_name = 65 ∷ [];
  last_name = [];
  company = [];
  phones = none;
  emails = none;
  links = none;
  phone_count = 0;
  email_count = 0;
  link_count = 0;
}

abbrev to_bob : Changes
to_bob = record {
  first_name = some (66 ∷ []);
  last_name = none;
  company = none;
  phones = none;
  emails = none;
  links = none;
  phone_count = 0;
  email_count = 0;
  link_count = 0;
}

abbrev two_adds : List (Rests × Fields)
two_adds = (clean, ann) ∷ (clean, ann) ∷ []

add_all_fault_example :
    (add_all (replicate 254 (clean, ann)) no_contacts
      ≡ some (book (numbered 0 (replicate 254 (clean, ann))) 254 254))
    × ((add_all (replicate 254 (clean, ann)) no_contacts >>= λ s. add_contact clean s ann) ≡ none)
add_all_fault_example = add_all_fault (replicate 254 (clean, ann)) clean ann refl

-- No contact has the id 7, and the count falls from 2 to 1 all the same.
delete_contact-book_example :
    delete_contact (book (contact 0 [] ∷ contact 1 [] ∷ []) 2 2) 7
    ≡ some (true, book (contact 0 [] ∷ contact 1 [] ∷ []) 1 2)
delete_contact-book_example =
    delete_contact-book (contact 0 []) (contact 1 [] ∷ []) 2 2 7 (omega arith) (omega arith)
      (omega arith)
