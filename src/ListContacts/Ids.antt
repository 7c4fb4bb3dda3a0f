-- ===== src/ListContacts/Ids.antt =====
-- The ids of a book, whatever was done to it before.
use eltex_summer.Base.{
  ℕ, suc, ◌+◌, ◌%◌, ◌^◌, ◌<◌, length, subst, ◌≤◌, ◌≡◌, refl, sym, ap, ◌∙◌, Bool, false, none, some,
  Option-cases, Bool-cases, List, [], ◌∷◌, ◌++◌, ◌==◌, ltb, arith, if◌then◌else◌, inl, inr,
}
use eltex_summer.LinkedList.Sequence.{
  insert, delete, change_first, insert-Placed, delete-cases, delete-here, delete-there, put_back,
}
use eltex_summer.Heap.Chain.{some-ne-none, Gives, mono}
use eltex_summer.Contact.{
  Contact, Changes, new_contact, update_fields, contact_compare_by_name, contact_compare_with_id,
}
use eltex_summer.ListContacts.{Store, ContactList, delete_contact}
use eltex_summer.ListContacts.Refinement.{Represents, Answers, delete-Answers}
use eltex_summer.ListContacts.Book.{Book, Call, add, delete_id, update, answer, with_id, empty}

unfoldable pub history : List Call → Book → Book
history [] b = b
history (c ∷ cs) b = history cs (answer b c).1

-- How many contacts have the id.
unfoldable pub count : ℕ → List Contact → ℕ
count k [] = 0
count k (c ∷ cs) = (if c.id == k then 1 else 0) + count k cs

with_id_eq : (k : ℕ) (c : Contact) → with_id k c ≡ (c.id == k)
unfolding contact_compare_with_id
with_id_eq k c = ground arith

count-append : (k : ℕ) (us ws : List Contact) → count k (us ++ ws) ≡ count k us + count k ws
unfolding count
count-append k [] ws = omega arith
count-append k (u ∷ us) ws = let ih = count-append k us ws in omega (arith, ih)

count-insert :
    (k : ℕ) (c : Contact) (cs : List Contact)
    → count k (insert contact_compare_by_name cs c) ≡ (if c.id == k then 1 else 0) + count k cs
unfolding count
count-insert k c cs =
    let (us, ws, e, f) = insert-Placed contact_compare_by_name c cs in
    let a = count-append k us ws in
    let b = count-append k us (c ∷ ws) in omega (arith, a, b, ap (count k) e, ap (count k) f)

count-change_first :
    (k id : ℕ) (u : Changes) (cs : List Contact)
    → count k (change_first (with_id id) (update_fields u) cs) ≡ count k cs
unfolding count change_first update_fields
count-change_first k id u [] = refl
count-change_first k id u (c ∷ cs) = elim (Bool-cases (with_id id c)) [
  | inl e ↦ rw e refl
  | inr e ↦ rw e (let ih = count-change_first k id u cs in omega (arith, ih))
]

-- A deletion takes one contact with the id, and no other.
count-delete :
    (k id : ℕ) (cs ds : List Contact)
    → delete (with_id id) cs ≡ some ds
    → count k cs ≡ (if k == id then 1 else 0) + count k ds
unfolding count delete
count-delete k id [] ds e = absurd (some-ne-none ds (sym e))
count-delete k id (c ∷ cs) ds e = elim (delete-cases (with_id id) c cs ds e) [
  | inl (t, q) ↦ rw q (let w = sym (with_id_eq id c) ∙ t in ground (arith, w))
  | inr (t, (zs, z, q)) ↦ rw q (let ih = count-delete k id cs zs z in omega (arith, ih))
]

count-deleted_none : (id : ℕ) (cs : List Contact) → delete (with_id id) cs ≡ none → count id cs ≡ 0
unfolding count delete
count-deleted_none id [] e = refl
count-deleted_none id (c ∷ cs) e = elim (Bool-cases (with_id id c)) [
  | inl t ↦ absurd (some-ne-none cs (sym (delete-here (with_id id) c cs t) ∙ e))
  | inr t ↦
      let q = sym (delete-there (with_id id) c cs t) ∙ e in
      elim (Option-cases (delete (with_id id) cs)) [
        | inl n ↦
            let ih = count-deleted_none id cs n in
            let w = sym (with_id_eq id c) ∙ t in ground (arith, ih, w)
        | inr (zs, z) ↦ absurd (some-ne-none (c ∷ zs) (sym (ap (put_back c) z) ∙ q))
      ]
]

-- No id is given twice, and those that are given are below the next.
abbrev pub IsNumbered : Book → Type 0
IsNumbered b = (k : ℕ) → count k b.contacts ≤ (if ltb k b.next_id then 1 else 0)

below_next :
    (n k c : ℕ)
    → c ≤ (if ltb k n then 1 else 0)
    → (if n == k then 1 else 0) + c ≤ (if ltb k (n + 1) then 1 else 0)
below_next n k c h = ground arith

answer-IsNumbered :
    (b : Book) (c : Call) → b.next_id + 1 < 2 ^ 64 → IsNumbered b → IsNumbered (answer b c).1
unfolding answer new_contact
answer-IsNumbered b (add m n f) h w k =
    let e = count-insert k (new_contact m b.next_id f) b.contacts in
    let z : (b.next_id + 1) % 2 ^ 64 ≡ b.next_id + 1 = omega arith in
    let i = w k in rw (e, z) (below_next b.next_id k (count k b.contacts) i)
answer-IsNumbered b (delete_id id) h w k = elim (Option-cases (delete (with_id id) b.contacts)) [
  | inl e ↦ rw e (w k)
  | inr (ds, e) ↦
      let q = count-delete k id b.contacts ds e in let i = w k in rw e (omega (arith, q, i))
]
answer-IsNumbered b (update id u) h w k = rw (count-change_first k id u b.contacts) (w k)

-- A call moves the next id on by one at most.
answer-next_id : (b : Book) (c : Call) → (answer b c).1.next_id ≤ b.next_id + 1
unfolding answer
answer-next_id b (add m n f) = omega arith
answer-next_id b (delete_id id) = elim (Option-cases (delete (with_id id) b.contacts)) [
  | inl e ↦ rw e (omega arith)
  | inr (ds, e) ↦ rw e (omega arith)
]
answer-next_id b (update id u) = omega arith

history-IsNumbered :
    (cs : List Call) (b : Book)
    → b.next_id + length cs < 2 ^ 64
    → IsNumbered b
    → IsNumbered (history cs b)
unfolding history
history-IsNumbered [] b h w = w
history-IsNumbered (c ∷ cs) b h w =
    let n = answer-next_id b c in
    history-IsNumbered cs (answer b c).1 (omega (arith, n)) (answer-IsNumbered b c (omega arith) w)

-- The contacts of each id before and after a deletion.
abbrev pub Removes : ℕ → Book → Bool × Book → Type 0
Removes id b (ok, b') =
    (count id b.contacts ≡ (if ok then 1 else 0))
    × (count id b'.contacts ≡ 0)
    × ((k : ℕ) → (k == id) ≡ false → count k b'.contacts ≡ count k b.contacts)

one_below :
    (n k c d : ℕ)
    → c ≤ (if ltb k n then 1 else 0)
    → c ≡ (if k == k then 1 else 0) + d
    → (c ≡ 1) × (d ≡ 0)
one_below n k c d h e = ground arith

answer-Removes : (b : Book) (id : ℕ) → IsNumbered b → Removes id b (answer b (delete_id id))
unfolding answer
answer-Removes b id w = elim (Option-cases (delete (with_id id) b.contacts)) [
  | inl e ↦ let z = count-deleted_none id b.contacts e in rw e (z, z, λ k n. refl)
  | inr (ds, e) ↦
      let (one, rest) =
        one_below b.next_id id (count id b.contacts) (count id ds) (w id)
          (count-delete id id b.contacts ds e) in
      rw e (one, rest, λ k n. let q = count-delete k id b.contacts ds e in ground (arith, q))
]

-- What is left after a deletion on the nodes: they hold a book in which that id is gone.
abbrev pub Deletes : ℕ → Book → Bool × ContactList × Store → Type 0
Deletes id b (ok, s, h) = (b' : Book) × Represents h s b' × Removes id b (ok, b')

answer-Deletes :
    (b : Book) (id : ℕ) (d : Bool × Book) (r : Bool × ContactList × Store)
    → Removes id b d
    → Answers d r
    → Deletes id b r
answer-Deletes b id (ok, b') (ok', s, h) w (e, r) =
    (b', r, subst (λ (o : Bool). Removes id b (o, b')) (sym e) w)

-- After fewer than 2 ^ 64 calls of add, delete and update on an empty book, no two contacts have an id in
-- common and every id is below the next. On nodes that hold such a book, a deletion ends without following
-- NULL, answers true exactly where a contact has the id, and leaves nodes that hold a book without that
-- id, in which no other id has lost or gained a contact.
pub history-Removes :
    (cs : List Call) (id : ℕ) (h : Store) (s : ContactList)
    → length cs < 2 ^ 64
    → Represents h s (history cs empty)
    → IsNumbered (history cs empty)
      × Gives (Deletes id (history cs empty)) (delete_contact (suc s.size) h s id)
unfolding count
history-Removes cs id h s l r =
    let b = history cs empty in
    let w = history-IsNumbered cs empty (omega arith) (λ k. omega arith) in
    (
      w,
      mono (delete-Answers h s b r id)
          (λ a. answer-Deletes b id (answer b (delete_id id)) a (answer-Removes b id w)),
    )
