-- ===== src/FileContacts.antt =====
-- The contact book that is kept in a file, module3/03/src/contacts.c. The array holds at most
-- `max_contact_size` contacts; `none` is an access behind it.
mod Runs
mod Examples
use eltex_summer.Base.{
  ℕ, zero, suc, ◌+◌, ◌-◌, Bool, true, false, Option, none, some, List, [], ◌∷◌, ◌++◌, ltb, leb,
  ◌==◌, ◌&&◌, if◌then◌else◌, length, take, ◌>>=◌,
}
use eltex_summer.Base.Int.{ℤ, pos, negsuc}
use eltex_summer.Text.{Text, text_eq, strncpy, strncpy_open}

abbrev pub max_contact_size : ℕ
max_contact_size = 100

pub record Contact : Type 0 where
  pub firstname : Text
  pub surname : Text
  pub workplace : Text
  pub phone_number : Text
  pub email : Text
  pub socials_link : Text
  pub messenger_page_link : Text

-- A contact in memory is given by its texts: an element of the array up to `size`.
abbrev pub ContactList : Type 0
ContactList = List Contact

abbrev pub is_named : Text → Text → Contact → Bool
is_named firstname surname c = text_eq c.firstname firstname && text_eq c.surname surname

unfoldable pub delete_contact : Text → Text → ContactList → ContactList
unfolding text_eq
delete_contact firstname surname [] = []
delete_contact firstname surname (c ∷ cs) =
    let rest = delete_contact firstname surname cs in
    if is_named firstname surname c then cs else c ∷ rest

-- The arguments of an update, where NULL leaves a field alone.
pub record Update : Type 0 where
  pub new_workplace : Option Text
  pub new_phone_number : Option Text
  pub new_email : Option Text
  pub new_socials_link : Option Text
  pub new_messenger_page_link : Option Text

-- A field of `n + 1` bytes.
abbrev pub renewed : ℕ → Text → Option Text → Text
renewed n old none = old
renewed n old (some s) = strncpy n s

unfoldable pub update_contact : Update → Contact → Contact
unfolding strncpy
update_contact u c = record c {
  workplace = renewed 49 c.workplace u.new_workplace;
  phone_number = renewed 19 c.phone_number u.new_phone_number;
  email = renewed 49 c.email u.new_email;
  socials_link = renewed 99 c.socials_link u.new_socials_link;
  messenger_page_link = renewed 99 c.messenger_page_link u.new_messenger_page_link;
}

unfoldable pub update_contact_list : Text → Text → Update → ContactList → ContactList
unfolding update_contact text_eq
update_contact_list firstname surname u [] = []
update_contact_list firstname surname u (c ∷ cs) =
    let rest = update_contact_list firstname surname u cs in
    if is_named firstname surname c then update_contact u c ∷ cs else c ∷ rest

-- What the stack holds behind the bytes that `strncpy` writes into each field of the new contact.
abbrev pub Rests : Type 0
Rests = Contact

unfoldable pub new_contact : Rests → Contact → Contact
unfolding strncpy_open
new_contact m f = record {
  firstname = strncpy_open 49 m.firstname f.firstname;
  surname = strncpy_open 49 m.surname f.surname;
  workplace = strncpy_open 49 m.workplace f.workplace;
  phone_number = strncpy_open 19 m.phone_number f.phone_number;
  email = strncpy_open 49 m.email f.email;
  socials_link = strncpy_open 99 m.socials_link f.socials_link;
  messenger_page_link = strncpy_open 99 m.messenger_page_link f.messenger_page_link;
}

-- The arguments are those of a contact. A full list, of 100, is not refused.
unfoldable pub add_contact : Rests → Contact → ContactList → Option ContactList
unfolding new_contact
add_contact m f list =
    if ltb max_contact_size (length list)
    then some list
    else if length list == max_contact_size
    then none
    else some (list ++ new_contact m f ∷ [])

-- The file "list.bin": whole contacts, and whether the beginning of one more follows.
pub record File : Type 0 where
  pub records : List Contact
  pub partial : Bool

-- `written` is the number of writes that succeed.
unfoldable pub write_to_file : Bool → ℕ → ContactList → File → ℤ × File
write_to_file opened written list f =
    if opened
    then (pos 1, record { records = take written list; partial = false })
    else (negsuc 0, f)

-- The loop of reads: each contact is stored behind the last one.
unfoldable pub read_records : List Contact → Bool → ContactList → Option ContactList
read_records [] partial list =
    if partial && leb max_contact_size (length list) then none else some list
read_records (c ∷ cs) partial list =
    let rest = read_records cs partial (list ++ c ∷ []) in
    if leb max_contact_size (length list) then none else rest

-- The file is made where it is missing; a failed `open` or `close` gives -1.
unfoldable pub read_from_file : Bool → Bool → File → ContactList → Option (ℤ × ContactList)
unfolding read_records
read_from_file opened closed f list =
    if opened
    then (read_records f.records f.partial list >>= λ l.
        some (if closed then pos 1 else negsuc 0, l))
    else some (negsuc 0, list)

-- A run of `main`, on a system where files open, close and can be written: the contact is added to those
-- in the file.
unfoldable pub run : Rests → Contact → File → Option File
unfolding read_from_file add_contact write_to_file
run m f file = read_from_file true true file [] >>= λ (r, list).
    add_contact m f list >>= λ list'. some (write_to_file true (length list') list' file).1
