-- ===== src/Contact.antt =====
-- The `Contact` of the contact books of module 2 (contacts.h of tasks 2.1, 4.1, 4.3 and 6.1-6.2 have
-- the same record), its comparators, and the parts that `add_contact` and `update_contact` share.
-- A pointer to an array of phones, emails or links is NULL, `none`, or the texts that it holds. The
-- memory that `update_contact` gives back by `free` is not tracked.
use eltex_summer.Base.{
  ℕ, ◌-◌, Ordering, compare, Option, none, some, List, map, take, length, ltb, ◌==◌, if◌then◌else◌,
}
use eltex_summer.Text.{Text, strcmp, strncpy, strncpy_open}

abbrev pub max_string_size : ℕ
max_string_size = 128

pub record Contact : Type 0 where
  pub id : ℕ
  pub first_name : Text
  pub last_name : Text
  pub company : Text
  pub phones : Option (List Text)
  pub phone_count : ℕ
  pub emails : Option (List Text)
  pub email_count : ℕ
  pub social_links : Option (List Text)
  pub social_link_count : ℕ

unfoldable pub contact_compare_by_id : Contact → Contact → Ordering
contact_compare_by_id a b = compare a.id b.id

unfoldable pub contact_compare_with_id : Contact → ℕ → Ordering
contact_compare_with_id c id = compare c.id id

unfoldable pub contact_compare_by_name : Contact → Contact → Ordering
contact_compare_by_name a b = strcmp a.first_name b.first_name

unfoldable pub contact_compare_by_name_str : Contact → Text → Ordering
contact_compare_by_name_str c str = strcmp c.first_name str

-- The arguments of `add_contact`.
pub record Fields : Type 0 where
  pub first_name : Text
  pub last_name : Text
  pub company : Text
  pub phones : Option (List Text)
  pub emails : Option (List Text)
  pub links : Option (List Text)
  pub phone_count : ℕ
  pub email_count : ℕ
  pub link_count : ℕ

-- What fresh memory holds behind the 127 bytes that `strncpy` writes into each name.
pub record Rests : Type 0 where
  pub first_rest : Text
  pub last_rest : Text
  pub company_rest : Text

-- The new contact of `add_contact`; its names get no terminator.
unfoldable pub new_contact : Rests → ℕ → Fields → Contact
unfolding strncpy_open
new_contact m i f = record {
  id = i;
  first_name = strncpy_open (max_string_size - 1) m.first_rest f.first_name;
  last_name = strncpy_open (max_string_size - 1) m.last_rest f.last_name;
  company = strncpy_open (max_string_size - 1) m.company_rest f.company;
  phones = f.phones;
  phone_count = f.phone_count;
  emails = f.emails;
  email_count = f.email_count;
  social_links = f.links;
  social_link_count = f.link_count;
}

-- The arguments of `update_contact`, where NULL leaves a field alone.
pub record Changes : Type 0 where
  pub first_name : Option Text
  pub last_name : Option Text
  pub company : Option Text
  pub phones : Option (List Text)
  pub emails : Option (List Text)
  pub links : Option (List Text)
  pub phone_count : ℕ
  pub email_count : ℕ
  pub link_count : ℕ

abbrev copied : Text → Option Text → Text
copied old none = old
copied old (some s) = strncpy (max_string_size - 1) s

abbrev replaced : Option (List Text) → Option (List Text) → Option (List Text)
replaced old none = old
replaced old (some a) = some a

abbrev recounted : Option (List Text) → ℕ → ℕ → ℕ
recounted none old new = old
recounted (some a) old new = new

-- The field updates of `update_contact`.
unfoldable pub update_fields : Changes → Contact → Contact
unfolding strncpy
update_fields u c = record {
  id = c.id;
  first_name = copied c.first_name u.first_name;
  last_name = copied c.last_name u.last_name;
  company = copied c.company u.company;
  phones = replaced c.phones u.phones;
  phone_count = recounted u.phones c.phone_count u.phone_count;
  emails = replaced c.emails u.emails;
  email_count = recounted u.emails c.email_count u.email_count;
  social_links = replaced c.social_links u.links;
  social_link_count = recounted u.links c.social_link_count u.link_count;
}

-- The copies of the first numbers of an array; the outer `none` is a read behind it, the inner one NULL.
unfoldable pub copy_phone_numbers : Option (List Text) → ℕ → Option (Option (List Text))
copy_phone_numbers none count = some none
copy_phone_numbers (some numbers) count =
    if count == 0
    then some none
    else if ltb (length numbers) count
    then none
    else some (some (map (λ n. strncpy (max_string_size - 1) n) (take count numbers)))
