-- ===== src/ContactTree/Deletes.antt =====
-- `delete_contact` on the books that adds build.
use eltex_summer.Base.{
  ℕ, ◌-◌, ◌≤◌, ◌<◌, ◌≡◌, refl, true, false, some, compare, ◌==◌, List, ◌∷◌, [], if◌then◌else◌,
  arith, length, inl, inr, ap, ◌∙◌,
}
use eltex_summer.AvlTree.{AvlTree, null, node, delete_node, replace_node}
use eltex_summer.AvlTree.Shape.{leans_right, pos-eq-two, pos-ne-minus_two}
use eltex_summer.AvlTree.Steps.{Ordering-cases, delete_node-lt, delete_node-gt, delete_node-eq}
use eltex_summer.AvlTree.Spine.{spine, make_balance-spine, height-spine, grown-spine}
use eltex_summer.Contact.{Contact, contact_compare_with_id}
use eltex_summer.ContactTree.{root, dangling, delete_contact, root_after_delete, node_after_balance}
use eltex_summer.ContactTree.Books.{book}

-- The list less the first contact with the id.
abbrev pub remove_id : ℕ → List Contact → List Contact
remove_id k [] = []
remove_id k (v ∷ vs) = if v.id == k then vs else v ∷ remove_id k vs

abbrev pub IdsAbove : ℕ → List Contact → Type 0
IdsAbove n [] = Unit
IdsAbove n (v ∷ vs) = (n < v.id) × IdsAbove n vs

-- The ids ascend, as those that adds hand out do.
abbrev pub IsAscending : List Contact → Type 0
IsAscending [] = Unit
IsAscending (v ∷ vs) = IdsAbove v.id vs × IsAscending vs

remove_id-absent : (k n : ℕ) (vs : List Contact) → k ≤ n → IdsAbove n vs → remove_id k vs ≡ vs
remove_id-absent k n [] h a = refl
remove_id-absent k n (v ∷ vs) h a =
    let e : (v.id == k) ≡ false = ground arith in rw (e, remove_id-absent k n vs h a.1)

length-remove_id : (k : ℕ) (vs : List Contact) → length (remove_id k vs) ≤ length vs
length-remove_id k [] = omega arith
length-remove_id k (v ∷ vs) = ground (arith, length-remove_id k vs)

delete_null : (k : ℕ) → delete_node contact_compare_with_id null k ≡ some null
unfolding delete_node
delete_null k = refl

replace_null : (l : AvlTree Contact) → replace_node l null ≡ some l
unfolding replace_node
replace_null l = refl

by_id : (v : Contact) (k : ℕ) → contact_compare_with_id v k ≡ compare v.id k
unfolding contact_compare_with_id
by_id v k = refl

-- In a left spine of fewer than 255 contacts with ascending ids `delete_node` removes the contact
-- with the id, if there is one, and leaves a spine of the others.
pub delete_node-spine :
    (vs : List Contact) (k : ℕ)
    → IsAscending vs
    → length vs < 255
    → delete_node contact_compare_with_id (spine vs) k ≡ some (spine (remove_id k vs))
delete_node-spine [] k a b = delete_null k
delete_node-spine (v ∷ vs) k a b = elim (Ordering-cases (compare v.id k)) [
  | inl c ↦
      let e : (v.id == k) ≡ false = ground arith in
      rw (delete_node-lt contact_compare_with_id v _ (spine vs) null k (by_id v k ∙ c), e)
        (rw (delete_node-spine vs k a.1 (omega arith))
          (make_balance-spine v _ (remove_id k vs) (omega (arith, length-remove_id k vs))))
  | inr (inl c) ↦
      let e : (v.id == k) ≡ true = ground arith in
      rw (delete_node-eq contact_compare_with_id v _ (spine vs) null k (by_id v k ∙ c), e)
        (replace_null (spine vs))
  | inr (inr c) ↦
      let e : (v.id == k) ≡ false = ground arith in
      rw (delete_node-gt contact_compare_with_id v _ (spine vs) null k (by_id v k ∙ c), e)
        (rw (delete_null, remove_id-absent k v.id vs (ground arith) a.0)
          (make_balance-spine v _ vs (omega arith)))
]

node_after_balance-spine :
    (v : Contact) (h : ℕ) (vs : List Contact)
    → length vs < 254
    → node_after_balance (node v h (spine vs) null) ≡ some (spine (v ∷ vs))
unfolding node_after_balance
node_after_balance-spine v h vs b =
    let e : leans_right (spine vs) null ≡ false = rw height-spine (ground arith) in
    simp (pos-eq-two, pos-ne-minus_two, e)
      (ap (λ (k : ℕ). some (node v k (spine vs) null))
        (rw height-spine (grown-spine (length vs) (omega arith))))

root_after_delete-spine :
    (v : Contact) (vs : List Contact) (k : ℕ)
    → IsAscending (v ∷ vs)
    → length vs < 254
    → root_after_delete (spine (v ∷ vs)) k
      ≡ some (if v.id == k then dangling else root (spine (v ∷ remove_id k vs)))
unfolding root_after_delete
root_after_delete-spine v vs k a b = elim (Ordering-cases (compare v.id k)) [
  | inl c ↦
      let e : (v.id == k) ≡ false = ground arith in
      rw (by_id v k, c, root_after_delete, e)
        (rw (delete_node-spine vs k a.1 (omega arith)) (
          rw (
            node_after_balance-spine v (length (v ∷ vs)) (remove_id k vs)
              (omega (arith, length-remove_id k vs)))))
  | inr (inl c) ↦
      let e : (v.id == k) ≡ true = ground arith in
      rw (by_id v k, c, root_after_delete, e)
        (rw (
          delete_node-eq contact_compare_with_id v (length (v ∷ vs)) (spine vs) null k
            (by_id v k ∙ c)))
  | inr (inr c) ↦
      let e : (v.id == k) ≡ false = ground arith in
      rw (by_id v k, c, root_after_delete, e)
        (rw (remove_id-absent k v.id vs (ground arith) a.0)
          (rw (node_after_balance-spine v (length (v ∷ vs)) vs b)))
]

-- A delete from a book lowers the count by one and reports success, also where no contact has the
-- id; then the contacts left are the others, none at a count of 0. But a delete of the oldest contact, where others
-- are counted, leaves the book with a dangling pointer.
pub delete_contact-book :
    (v : Contact) (vs : List Contact) (n next k : ℕ)
    → IsAscending (v ∷ vs)
    → length vs < 254
    → 0 < n
    → delete_contact (book (v ∷ vs) n next) k
      ≡ some (
        true,
        record {
          contacts =
              if n == 1
              then root null
              else (if v.id == k then dangling else root (spine (v ∷ remove_id k vs)));
          size = n - 1;
          next_id = next;
        },
      )
unfolding delete_contact
delete_contact-book v vs n next k a b pos =
    let z : (n == 0) ≡ false = ground arith in
    let o : ((n - 1) == 0) ≡ (n == 1) = ground arith in
    rw (z, root_after_delete-spine v vs k a b, o)
