-- ===== src/FileContacts/Runs.antt =====
-- Reading back the file of module3/03, and running the program again and again.
use eltex_summer.Base.{
  ◌+◌, ◌≤◌, ◌<◌, ◌≡◌, refl, sym, ap, true, false, none, some, List, [], ◌∷◌, ◌++◌, arith, leb, ltb,
  ◌==◌, if◌then◌else◌, length, take, length-append, Bool-cases, inl, inr,
}
use eltex_summer.Base.Int.{pos}
use eltex_summer.FileContacts.{
  Contact, ContactList, Rests, File, max_contact_size, new_contact, add_contact, write_to_file,
  read_records, read_from_file, run,
}

append_assoc :
    (xs : List Contact) (c : Contact) (ys : List Contact) → (xs ++ c ∷ []) ++ ys ≡ xs ++ c ∷ ys
append_assoc [] c ys = refl
append_assoc (x ∷ xs) c ys = ap (◌∷◌ x) (append_assoc xs c ys)

append_nil : (xs : List Contact) → xs ++ [] ≡ xs
append_nil [] = refl
append_nil (x ∷ xs) = ap (◌∷◌ x) (append_nil xs)

take-length : (xs : List Contact) → take (length xs) xs ≡ xs
take-length [] = refl
take-length (x ∷ xs) = ap (◌∷◌ x) (take-length xs)

read_records-append :
    (cs list : List Contact)
    → length list + length cs ≤ max_contact_size
    → read_records cs false list ≡ some (list ++ cs)
unfolding read_records
read_records-append [] list h = ap some (sym (append_nil list))
read_records-append (c ∷ cs) list h =
    let e : leb max_contact_size (length list) ≡ false = ground arith in
    let l = length-append list (c ∷ []) in
    rw (e, read_records-append cs (list ++ c ∷ []) (omega (arith, l)))
      (ap some (append_assoc list c cs))

-- A list of at most 100 contacts that is written without an error is read back into an empty list.
pub read_from_file-write_to_file :
    (list : ContactList) (f : File)
    → length list ≤ max_contact_size
    → read_from_file true true (write_to_file true (length list) list f).1 [] ≡ some (pos 1, list)
unfolding read_from_file write_to_file
read_from_file-write_to_file list f h =
    rw (take-length list, read_records-append list [] (omega arith)) refl

abbrev pub whole : List Contact → File
whole cs = record { records = cs; partial = false }

add_contact-append :
    (m : Rests) (a : Contact) (cs : List Contact)
    → length cs < max_contact_size
    → add_contact m a cs ≡ some (cs ++ new_contact m a ∷ [])
unfolding add_contact
add_contact-append m a cs h =
    let e : ltb max_contact_size (length cs) ≡ false = ground arith in
    let q : (length cs == max_contact_size) ≡ false = ground arith in rw (e, q) refl

add_contact-full :
    (m : Rests) (a : Contact) (cs : List Contact)
    → (length cs == max_contact_size) ≡ true
    → add_contact m a cs ≡ none
unfolding add_contact
add_contact-full m a cs h =
    let e : ltb max_contact_size (length cs) ≡ false = ground arith in rw (e, h) refl

-- A run with fewer than 100 contacts in the file adds one at the end of it; with 100 it writes behind the
-- array.
pub run-whole :
    (m : Rests) (a : Contact) (cs : List Contact)
    → length cs ≤ max_contact_size
    → run m a (whole cs)
      ≡ (if length cs == max_contact_size then none else some (whole (cs ++ new_contact m a ∷ [])))
unfolding run read_from_file write_to_file
run-whole m a cs h =
    let r = read_records-append cs [] (omega arith) in
    elim (Bool-cases (length cs == max_contact_size)) [
      | inl e ↦ rw (e, r, add_contact-full m a cs e) refl
      | inr e ↦
          let added = cs ++ new_contact m a ∷ [] in
          rw (e, r, add_contact-append m a cs (ground arith), take-length added) refl
    ]
