-- ===== src/ListContacts/Refinement.antt =====
-- The book on its nodes does what the book without them does.
use eltex_summer.Base.{
  ℕ, suc, ◌+◌, ◌^◌, ◌<◌, ◌≡◌, refl, ap, Bool, false, Option, none, some, Option-cases, Bool-cases,
  List, ◌==◌, arith, length, inl, inr,
}
use eltex_summer.Text.{Text}
use eltex_summer.Heap.{null}
use eltex_summer.Heap.Chain.{Cells, Gives, gives, bind, values, IsList, length-values}
use eltex_summer.LinkedList.{delete_from_linked_list}
use eltex_summer.LinkedList.Sequence.{delete, length-delete}
use eltex_summer.LinkedList.Deletion.{delete_from_linked_list-Takes}
use eltex_summer.Contact.{Contact, contact_compare_with_id}
use eltex_summer.ListContacts.{Store, ContactList, add_contact, delete_contact, update_contact}
use eltex_summer.ListContacts.Book.{Book, Call, add, delete_id, update, answer, with_id}

-- Nodes that hold the book.
pub record Represents (h : Store) (s : ContactList) (b : Book) : Type 0 where
  pub cells : Cells Contact
  pub list : IsList h s.contacts cells
  pub holds : values cells ≡ b.contacts
  pub counts : s.size ≡ length b.contacts
  pub ids : s.next_id ≡ b.next_id

-- A call on the nodes; the loops have one step more than contacts.
unfoldable pub step : Store → ContactList → Call → Option (Bool × ContactList × Store)
step h s (add m n f) = add_contact (suc s.size) m n h s f
step h s (delete_id id) = delete_contact (suc s.size) h s id
step h s (update id u) = update_contact (suc s.size) h s id u

-- `malloc` gives an address where nothing is, and the counters do not wrap.
abbrev pub Fits : Store → ContactList → Call → Type 0
Fits h s (add m n f) =
    ((n == null) ≡ false) × (h n ≡ none) × (s.size + 1 < 2 ^ 64) × (s.next_id + 1 < 2 ^ 64)
Fits h s (delete_id id) = Unit
Fits h s (update id u) = Unit

abbrev pub Answers : Bool × Book → Bool × ContactList × Store → Type 0
Answers (ok, b) (r, s, g) = (r ≡ ok) × Represents g s b

module _ (h : Store) (s : ContactList) (b : Book) (r : Represents h s b) where
  enough : length r.cells < suc s.size
  enough =
      omega (arith, r.counts, length-values r.cells, ap (λ (xs : List Contact). length xs) r.holds)

  pub delete-Answers :
      (id : ℕ) → Gives (Answers (answer b (delete_id id))) (delete_contact (suc s.size) h s id)
  unfolding delete_contact answer
  delete-Answers id =
      let t = rw r.holds at (
        delete_from_linked_list-Takes contact_compare_with_id (suc s.size) id r.cells h s.contacts
          r.list enough) in
      elim (Option-cases (delete (with_id id) b.contacts)) [
        | inl e ↦
            let q : delete_from_linked_list contact_compare_with_id (suc s.size) h s.contacts id
                ≡ some (false, s.contacts, h) =
              rw e at t in
            rw e (elim (Bool-cases (s.size == 0)) [
              | inl z ↦ rw z (gives (refl, r))
              | inr z ↦
                  rw (z, q)
                    (gives (
                      refl,
                      record {
                        cells = r.cells;
                        list = r.list;
                        holds = r.holds;
                        counts = r.counts;
                        ids = r.ids;
                      },
                    ))
            ])
        | inr (ys, e) ↦
            let n = length-delete (with_id id) b.contacts ys e in
            let z : (s.size == 0) ≡ false = ground (arith, r.counts, n) in
            rw (e, z)
              (bind (rw e at t) (λ (ok, e', g) (o, a, (cells, l, v)). rw o (
                gives (
                  refl,
                  record {
                    cells = cells;
                    list = l;
                    holds = v;
                    counts = omega (arith, r.counts, n);
                    ids = r.ids;
                  },
                ))))
      ]
