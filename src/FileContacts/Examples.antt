-- ===== src/FileContacts/Examples.antt =====
-- The book of module3/03 with two contacts.
use eltex_summer.Base.{
  ◌≡◌, refl, none, some, List, [], ◌∷◌, ◌++◌, arith, length, ◌==◌, if◌then◌else◌,
}
use eltex_summer.Text.{Text, strcmp, text_eq}
use eltex_summer.FileContacts.{Contact, delete_contact, run, new_contact, max_contact_size}
use eltex_summer.FileContacts.Runs.{run-whole, whole}

abbrev named : Text → Contact
named s = record {
  firstname = s;
  surname = [];
  workplace = [];
  phone_number = [];
  email = [];
  socials_link = [];
  messenger_page_link = [];
}

abbrev two : List Contact
two = named (b'A' ∷ []) ∷ named (b'B' ∷ []) ∷ []

delete_one : delete_contact (b'A' ∷ []) [] two ≡ named (b'B' ∷ []) ∷ []
unfolding delete_contact text_eq strcmp
delete_one = refl

run-whole_example : run (named []) (named (b'C' ∷ [])) (whole two) ≡ (
    if length two == max_contact_size
    then none
    else some (whole (two ++ new_contact (named []) (named (b'C' ∷ [])) ∷ [])))
run-whole_example = run-whole (named []) (named (b'C' ∷ [])) two (omega arith)
