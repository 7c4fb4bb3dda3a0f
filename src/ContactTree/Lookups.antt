-- ===== src/ContactTree/Lookups.antt =====
-- `update_contact` and `find_contact_by_name` of the contact book.
use eltex_summer.Base.{
  ℕ, ◌≡◌, refl, ◌≢◌, Bool, true, Option, none, some, eq, gt, compare, ◌==◌, if◌then◌else◌, arith,
  inl, inr, >>=-eq-some, ap, sym, ◌⊎◌,
}
use mathlib.Core.Option
use mathlib.Core.Option.{some-injective}
use mathlib.Core.Path.{subst}
use eltex_summer.Base.Int.{ℤ, pos, negsuc}
use eltex_summer.Text.{Text, strcmp, eq_of_strcmp}
use eltex_summer.AvlTree.{AvlTree, null, node, search_node, dfs, or_else}
use eltex_summer.AvlTree.Steps.{Ordering-cases}
use eltex_summer.Contact.{
  Contact, Changes, update_fields, contact_compare_with_id, contact_compare_by_name_str,
}
use eltex_summer.ContactTree.{
  ContactList, root, dangling, update_found, update_contact, value_of, find_contact_by_name,
}

module _ (f : Contact → Contact) (keeps_id : (c : Contact) → (f c).id ≡ c.id) where
  -- What a search by any id finds after the change of the contact with id `k`.
  search-update_found :
      (t : AvlTree Contact) (k j : ℕ) {t' : AvlTree Contact}
      → update_found f t k ≡ some t'
      → value_of (search_node contact_compare_with_id t' j) ≡ (
          let c = value_of (search_node contact_compare_with_id t j) in
          if j == k then Option.map f c else c)
  unfolding update_found search_node contact_compare_with_id
  search-update_found null k j e = absurd (cc)
  search-update_found (node v h l r) k j e = elim (Ordering-cases (compare v.id k)) [
    | inl c ↦
        let (l', a, b) = >>=-eq-some (update_found f l k) _ (rw (c, update_found) at e) in
        rw (← some-injective _ _ b) (ground (arith, search-update_found l k j a))
    | inr (inl c) ↦
        let b = some-injective _ _ (rw (c, update_found) at e) in
        rw (← b) (ground (arith, keeps_id v))
    | inr (inr c) ↦
        let (r', a, b) = >>=-eq-some (update_found f r k) _ (rw (c, update_found) at e) in
        rw (← some-injective _ _ b) (ground (arith, search-update_found r k j a))
  ]

abbrev pub rooted : AvlTree Contact → ℕ → ℕ → ContactList
rooted t n next = record { contacts = root t; size = n; next_id = next }

-- The contact that a search by id finds in the book.
abbrev pub contact_with : ContactList → ℕ → Option Contact
contact_with s j = elim s.contacts [
  | root t ↦ value_of (search_node contact_compare_with_id t j)
  | dangling ↦ none
]

update_fields-id : (u : Changes) (c : Contact) → (update_fields u c).id ≡ c.id
unfolding update_fields
update_fields-id u c = refl

-- An update that returns reports success; a search by the updated id then finds the changed
-- contact, and a search by any other id what it found before.
pub update_contact-contact_with :
    (t : AvlTree Contact) (n next k : ℕ) (u : Changes) {b : Bool} {s' : ContactList}
    → update_contact (rooted t n next) k u ≡ some (b, s')
    → (b ≡ true)
      × ((j : ℕ)
          → contact_with s' j ≡ (
              let c = contact_with (rooted t n next) j in
              if j == k then Option.map (update_fields u) c else c))
unfolding update_contact
update_contact-contact_with t n next k u e =
    let (t', a, q) = >>=-eq-some (update_found (update_fields u) t k) _ e in
    let p = some-injective _ _ q in
    (
      ap (λ r. r.0) (sym p),
      λ j.
          subst
            (λ (r : Bool × ContactList). contact_with r.1 j ≡ (
              let c = contact_with (rooted t n next) j in
              if j == k then Option.map (update_fields u) c else c))
            p (search-update_found (update_fields u) (update_fields-id u) t k j a),
    )

update_found-absent :
    (f : Contact → Contact) (t : AvlTree Contact) (k : ℕ)
    → value_of (search_node contact_compare_with_id t k) ≡ none
    → update_found f t k ≡ none
unfolding update_found search_node contact_compare_with_id
update_found-absent f null k e = refl
update_found-absent f (node v h l r) k e =
    ground (arith, update_found-absent f l k, update_found-absent f r k)

-- An update of an id that the search does not find reads through NULL.
pub update_contact-absent :
    (t : AvlTree Contact) (n next k : ℕ) (u : Changes)
    → contact_with (rooted t n next) k ≡ none
    → update_contact (rooted t n next) k u ≡ none
unfolding update_contact
update_contact-absent t n next k u e = rw (update_found-absent (update_fields u) t k e)

search-name :
    (t : AvlTree Contact) (str : Text) (c : Contact)
    → value_of (search_node contact_compare_by_name_str t str) ≡ some c
    → strcmp c.first_name str ≡ eq
unfolding search_node contact_compare_by_name_str
search-name null str c e = absurd (cc)
search-name (node v h l r) str c e = ground (arith, search-name l str c, search-name r str c)

value_of-or_else :
    (s t : AvlTree Contact) {c : Contact}
    → value_of (or_else s t) ≡ some c
    → (value_of s ≡ some c) ⊎ (value_of t ≡ some c)
value_of-or_else null t e = inr e
value_of-or_else (node v h l r) t e = inl e

by_name : (c : Contact) (str : Text) → contact_compare_by_name_str c str ≡ strcmp c.first_name str
unfolding contact_compare_by_name_str
by_name c str = refl

either :
    (l r : AvlTree Contact) (str : Text) (c : Contact)
    → value_of (
        or_else
          (search_node contact_compare_by_name_str l str)
          (search_node contact_compare_by_name_str r str))
      ≡ some c
    → strcmp c.first_name str ≡ eq
either l r str c e = elim (value_of-or_else (search_node contact_compare_by_name_str l str) _ e) [
  | inl q ↦ search-name l str c q
  | inr q ↦ search-name r str c q
]

dfs-name :
    (t : AvlTree Contact) (str : Text) (c : Contact)
    → value_of (dfs contact_compare_by_name_str t str) ≡ some c
    → strcmp c.first_name str ≡ eq
unfolding dfs
dfs-name null str c e = absurd (cc)
dfs-name (node v h l r) str c e = elim (Ordering-cases (strcmp v.first_name str)) [
  | inl o ↦ either l r str c (rw (by_name v str, o, dfs) at e)
  | inr (inl o) ↦
      let q = some-injective _ _ (rw (by_name v str, o, dfs) at e) in
      subst (λ (x : Contact). strcmp x.first_name str ≡ eq) q o
  | inr (inr o) ↦ either l r str c (rw (by_name v str, o, dfs) at e)
]

-- A contact that the search by first name returns has that first name, and the number returned is
-- its id.
pub find_contact_by_name_sound :
    (t : AvlTree Contact) (n next : ℕ) (first_name last_name : Text) {i : ℤ} {c : Contact}
    → find_contact_by_name (rooted t n next) first_name last_name ≡ some (i, some c)
    → (c.first_name ≡ first_name) × (i ≡ pos c.id)
unfolding find_contact_by_name
find_contact_by_name_sound t n next first_name last_name {c} e =
    (eq_of_strcmp c.first_name first_name (dfs-name t first_name c (ground arith)), ground arith)

-- The search by first name goes by the order of the names in a tree ordered by id: where the root's
-- name differs and its left child's name is greater, it reports -1, whatever stands further left.
pub find_contact_by_name_misses :
    (v w : Contact) (h k n next : ℕ) (l : AvlTree Contact) (first_name last_name : Text)
    → strcmp v.first_name first_name ≢ eq
    → strcmp w.first_name first_name ≡ gt
    → find_contact_by_name (rooted (node v h (node w k l null) null) n next) first_name last_name
      ≡ some (negsuc 0, none)
unfolding find_contact_by_name search_node
find_contact_by_name_misses v w h k n next l first_name last_name ne g = ground arith
