-- ===== src/ArrayContacts/Ids.antt =====
-- Ids in the array of module2/task1/2.1: they ascend, and name one contact each.
use eltex_summer.Base.{
  ℕ, suc, ◌≤◌, ◌<◌, ◌≡◌, refl, sym, ap, subst, ◌+◌, ◌*◌, ◌%◌, ◌^◌, Bool, true, false, none, some,
  List, [], ◌∷◌, ◌++◌, arith, ◌==◌, if◌then◌else◌, length, length-append, Bool-cases, inl, inr,
}
use eltex_summer.Contact.{Contact, Fields, Rests, new_contact}
use eltex_summer.ArrayContacts.{ContactList, remove_first, delete_contact, add_contact}

-- Ids ascend from a bound, and stay below another.
unfoldable pub Ascending : ℕ → ℕ → List Contact → Type 0
Ascending b e [] = b ≤ e
Ascending b e (c ∷ cs) = (b ≤ c.id) × (c.id < e) × Ascending (suc c.id) e cs

abbrev pub IsBook : ContactList → Type 0
IsBook s = Ascending 0 s.next_id s.contacts

unfoldable pub has_id : ℕ → List Contact → Bool
has_id id [] = false
has_id id (c ∷ cs) = if c.id == id then true else has_id id cs

-- All contacts but those with the id.
unfoldable pub without : ℕ → List Contact → List Contact
without id [] = []
without id (c ∷ cs) = if c.id == id then without id cs else c ∷ without id cs

without-above : (id b e : ℕ) (cs : List Contact) → id < b → Ascending b e cs → without id cs ≡ cs
unfolding without Ascending
without-above id b e [] h a = refl
without-above id b e (c ∷ cs) h (p, q, a) =
    let n : (c.id == id) ≡ false = ground arith in
    rw n (ap (◌∷◌ c) (without-above id (suc c.id) e cs (omega arith) a))

remove_first-without :
    (id b e : ℕ) (cs : List Contact)
    → Ascending b e cs
    → remove_first id cs ≡ (if has_id id cs then some (without id cs) else none)
unfolding remove_first has_id without Ascending
remove_first-without id b e [] a = refl
remove_first-without id b e (c ∷ cs) (p, q, a) = elim (Bool-cases (c.id == id)) [
  | inl h ↦ rw h (ap some (sym (without-above id (suc c.id) e cs (ground arith) a)))
  | inr h ↦ elim (Bool-cases (has_id id cs)) [
    | inl k ↦ rw (h, remove_first-without id (suc c.id) e cs a, k) refl
    | inr k ↦ rw (h, remove_first-without id (suc c.id) e cs a, k) refl
  ]
]

without-absent : (id : ℕ) (cs : List Contact) → has_id id cs ≡ false → without id cs ≡ cs
unfolding has_id without
without-absent id [] h = refl
without-absent id (c ∷ cs) h = elim (Bool-cases (c.id == id)) [
  | inl e ↦ absurd (ground (arith, h))
  | inr e ↦ rw e (ap (◌∷◌ c) (without-absent id cs (ground (arith, h))))
]

has_id-empty : (id : ℕ) (cs : List Contact) → (length cs == 0) ≡ true → has_id id cs ≡ false
unfolding has_id
has_id-empty id [] h = refl
has_id-empty id (c ∷ cs) h = absurd (ground (arith, h))

-- In a book with ascending ids and some room, a delete reports whether a contact has the id, and leaves
-- exactly the contacts with other ids; nothing else changes.
pub delete_contact-without :
    (s : ContactList) (id : ℕ)
    → IsBook s
    → 0 < s.size
    → delete_contact s id ≡ (has_id id s.contacts, record s { contacts = without id s.contacts })
unfolding delete_contact
delete_contact-without s id a h =
    let z : (s.size == 0) ≡ false = ground arith in
    elim (Bool-cases (length s.contacts == 0)) [
      | inl e ↦
          let n = has_id-empty id s.contacts e in rw (z, e, n, without-absent id s.contacts n) refl
      | inr e ↦
          let r = remove_first-without id 0 s.next_id s.contacts a in
          elim (Bool-cases (has_id id s.contacts)) [
            | inl y ↦ rw (z, e, r, y) refl
            | inr n ↦ rw (z, e, r, n, without-absent id s.contacts n) refl
          ]
    ]

Ascending-append :
    (b e : ℕ) (cs : List Contact) (c : Contact)
    → Ascending b e cs
    → c.id ≡ e
    → Ascending b (suc e) (cs ++ c ∷ [])
unfolding Ascending
Ascending-append b e [] c a h = (omega arith, omega arith, omega arith)
Ascending-append b e (d ∷ cs) c (p, q, a) h =
    (p, omega arith, Ascending-append (suc d.id) e cs c a h)

Ascending-lower : (b b' e : ℕ) (cs : List Contact) → b' ≤ b → Ascending b e cs → Ascending b' e cs
unfolding Ascending
Ascending-lower b b' e [] h a = omega arith
Ascending-lower b b' e (c ∷ cs) h (p, q, a) = (omega arith, q, a)

Ascending-without :
    (id b e : ℕ) (cs : List Contact) → Ascending b e cs → Ascending b e (without id cs)
unfolding Ascending without
Ascending-without id b e [] a = a
Ascending-without id b e (c ∷ cs) (p, q, a) = elim (Bool-cases (c.id == id)) [
  | inl h ↦ rw h (Ascending-without id b e cs (Ascending-lower (suc c.id) b e cs (omega arith) a))
  | inr h ↦ rw h (p, q, Ascending-without id (suc c.id) e cs a)
]

-- In a book with some room, whose contacts fit it, and whose ids ascend and are below the next one, where
-- neither one more than the next id nor twice the room reaches 2 ^ 64, adding a contact and deleting one
-- keep the ids ascending and below the next one; and the contacts still fit the room after an add, which
-- does not make it less.
pub add_contact-IsBook :
    (m : Rests) (f : Fields) (s : ContactList) (id : ℕ)
    → IsBook s
    → 0 < s.size
    → length s.contacts ≤ s.size
    → s.size * 2 < 2 ^ 64
    → s.next_id + 1 < 2 ^ 64
    → IsBook (add_contact m s f).1
      × IsBook (delete_contact s id).1
      × (s.size ≤ (add_contact m s f).1.size)
      × (length (add_contact m s f).1.contacts ≤ (add_contact m s f).1.size)
unfolding add_contact new_contact
add_contact-IsBook m f s id a h fits d w =
    let z : (s.size == 0) ≡ false = ground arith in
    let n : suc s.next_id ≡ (s.next_id + 1) % 2 ^ 64 = omega arith in
    let t : s.size * 2 % 2 ^ 64 ≡ s.size * 2 = omega arith in
    (
      rw z (
          subst (λ (k : ℕ). Ascending 0 k (s.contacts ++ new_contact m s.next_id f ∷ [])) n
            (Ascending-append 0 s.next_id s.contacts (new_contact m s.next_id f) a refl)),
      rw (delete_contact-without s id a h) (Ascending-without id 0 s.next_id s.contacts a),
      rw (z, t) (ground arith),
      rw (z, t)
          (let l = length-append s.contacts (new_contact m s.next_id f ∷ []) in ground (arith, l)),
    )
