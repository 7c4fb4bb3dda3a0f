-- ===== src/ContactTree/Books.antt =====
-- The contact books that a run of adds and deletes builds: a left spine, oldest contact at the root.
use eltex_summer.Base.{
  ℕ, suc, ◌+◌, ◌%◌, ◌^◌, ◌≤◌, ◌<◌, ◌≡◌, refl, true, Option, none, some, List, ◌∷◌, [], ◌++◌, ◌>>=◌,
  arith, length, length-append, ap, ◌∙◌,
}
use eltex_summer.AvlTree.{height}
use eltex_summer.AvlTree.Spine.{
  spine, IsAbove, insert_node-spine, insert_node-spine_fault, height-spine,
}
use native.Mathlib.Nat.{add-zero, zero-add}
use mathlib.Core.List.{append-nil, append_assoc}
use eltex_summer.Contact.{Contact, Fields, Rests, new_contact, contact_compare_by_id}
use eltex_summer.ContactTree.{ContactList, root, add_contact}

-- A loop of adds; the fields and what fresh memory holds are given for each.
unfoldable pub add_all : List (Rests × Fields) → ContactList → Option ContactList
add_all [] s = some s
add_all ((m, f) ∷ fs) s = add_contact m s f >>= λ r. add_all fs r.1

-- The contacts that the adds make, numbered from `n`.
abbrev pub numbered : ℕ → List (Rests × Fields) → List Contact
numbered n [] = []
numbered n ((m, f) ∷ fs) = new_contact m n f ∷ numbered (n + 1) fs

abbrev pub book : List Contact → ℕ → ℕ → ContactList
book vs n next = record { contacts = root (spine vs); size = n; next_id = next }

-- Every id on the list is below the bound.
abbrev pub IdsBelow : ℕ → List Contact → Type 0
IdsBelow n [] = Unit
IdsBelow n (v ∷ vs) = (v.id < n) × IdsBelow n vs

IsAbove-new :
    (m : Rests) (n : ℕ) (f : Fields) (vs : List Contact)
    → IdsBelow n vs
    → IsAbove contact_compare_by_id (new_contact m n f) vs
unfolding new_contact contact_compare_by_id
IsAbove-new m n f [] h = tt
IsAbove-new m n f (v ∷ vs) h = (ground arith, IsAbove-new m n f vs h.1)

IdsBelow-append :
    (m : Rests) (n : ℕ) (f : Fields) (vs : List Contact)
    → IdsBelow n vs
    → IdsBelow (n + 1) (vs ++ new_contact m n f ∷ [])
unfolding new_contact
IdsBelow-append m n f [] h = (omega arith, tt)
IdsBelow-append m n f (v ∷ vs) h = (omega arith, IdsBelow-append m n f vs h.1)

-- One add to a book of fewer than 254 contacts with smaller ids hangs the new contact at the end of
-- the spine and counts it.
pub add_contact-book :
    (m : Rests) (f : Fields) (vs : List Contact) (n : ℕ)
    → IdsBelow n vs
    → length vs < 254
    → length vs ≡ n
    → add_contact m (book vs n n) f
      ≡ some (true, book (vs ++ new_contact m n f ∷ []) (n + 1) (n + 1))
unfolding add_contact
add_contact-book m f vs n h b e =
    let small : (n + 1) % 2 ^ 64 ≡ n + 1 = omega arith in
    rw (
      insert_node-spine contact_compare_by_id vs (new_contact m n f) (IsAbove-new m n f vs h) b,
      small,
    )

length-numbered : (n : ℕ) (fs : List (Rests × Fields)) → length (numbered n fs) ≡ length fs
length-numbered n [] = refl
length-numbered n ((m, f) ∷ fs) = ap suc (length-numbered (n + 1) fs)

-- Adds to a book: the contacts stand in the order of the adds, if there are at most 254 in all.
add_all-book :
    (fs : List (Rests × Fields)) (vs : List Contact) (n : ℕ)
    → IdsBelow n vs
    → length vs ≡ n
    → length vs + length fs ≤ 254
    → add_all fs (book vs n n) ≡ some (book (vs ++ numbered n fs) (n + length fs) (n + length fs))
unfolding add_all
add_all-book [] vs n h e b = rw (append-nil, add-zero)
add_all-book ((m, f) ∷ fs) vs n h e b =
    let w = vs ++ new_contact m n f ∷ [] in
    let l : length w ≡ n + 1 = omega (arith, length-append vs (new_contact m n f ∷ [])) in
    rw (add_contact-book m f vs n h (omega arith) e) (
      add_all-book fs w (n + 1) (IdsBelow-append m n f vs h) l (omega (arith, l))
      ∙ rw (append_assoc vs (new_contact m n f ∷ []) (numbered (n + 1) fs), next) refl)
  where
    next : n + 1 + length fs ≡ n + suc (length fs)
    next = omega arith

-- The empty book.
abbrev pub no_contacts : ContactList
no_contacts = book [] 0 0

-- Up to 254 adds to an empty book succeed and leave one contact each, numbered in the order of the
-- adds, in a tree as high as there are contacts.
pub add_all_fits :
    (fs : List (Rests × Fields))
    → length fs ≤ 254
    → (add_all fs no_contacts ≡ some (book (numbered 0 fs) (length fs) (length fs)))
      × (height (spine (numbered 0 fs)) ≡ length fs)
add_all_fits fs b = (
  add_all-book fs [] 0 tt refl (omega arith) ∙ rw zero-add refl,
  height-spine _ ∙ length-numbered 0 fs,
)

IdsBelow-numbered : (n : ℕ) (fs : List (Rests × Fields)) → IdsBelow (n + length fs) (numbered n fs)
unfolding new_contact
IdsBelow-numbered n [] = tt
IdsBelow-numbered n ((m, f) ∷ fs) =
    let e : n + 1 + length fs ≡ n + suc (length fs) = omega arith in
    (omega arith, rw e at (IdsBelow-numbered (n + 1) fs))

-- The first 254 adds to an empty book succeed and leave one contact each, numbered in the order of the
-- adds; the next add reads through NULL.
pub add_all_fault :
    (fs : List (Rests × Fields)) (m : Rests) (f : Fields)
    → length fs ≡ 254
    → (add_all fs no_contacts ≡ some (book (numbered 0 fs) 254 254))
      × ((add_all fs no_contacts >>= λ s. add_contact m s f) ≡ none)
unfolding add_contact
add_all_fault fs m f e =
    let below : IdsBelow (length fs) (numbered 0 fs) = rw zero-add at (IdsBelow-numbered 0 fs) in
    let fits = (add_all_fits fs (omega arith)).0 in
    (
      fits ∙ ap (λ (n : ℕ). some (book (numbered 0 fs) n n)) e,
      rw fits (
          rw
            (insert_node-spine_fault contact_compare_by_id (numbered 0 fs)
              (new_contact m (length fs) f) (IsAbove-new m (length fs) f (numbered 0 fs) below)
              (length-numbered 0 fs ∙ e))
            refl),
    )
