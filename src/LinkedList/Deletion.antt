-- ===== src/LinkedList/Deletion.antt =====
-- Taking a node out of the list takes its value out of the sequence.
use eltex_summer.Base.{
  ℕ, ◌<◌, ◌≡◌, refl, ap, ◌∙◌, subst, Bool, true, false, not, Option, none, some, Ordering, List, [],
  ◌∷◌, ◌++◌, arith, ◌==◌, length, inl, inr,
}
use eltex_summer.Heap.{Ptr, null, Heap, Ends, walk}
use eltex_summer.Heap.Chain.{
  Cells, Gives, gives, mono, bind, values, has, IsList, values-append, has-append,
}
use eltex_summer.Heap.Split.{Seam, seam_of_chain, head-not_null}
use eltex_summer.Heap.Walk.{AllKeep, first_failing, walk-null, walk-first_failing}
use eltex_summer.LinkedList.{is_zero, delete_node, delete_from_linked_list, remove_front}
use eltex_summer.LinkedList.Sequence.{delete}
use eltex_summer.LinkedList.Skips.{
  Deleted, free-Deleted, skip_from_next-Skipped, skip_from_prev-Parted, unlink_found-Skipped,
}

module _ {V : Type 0} where
  module _ (n : Ptr) (x : V) where
    module _ (h : Heap V) (list : Ends) (us ws : Cells V)
        (l : IsList h list (us ++ (n, x) ∷ ws)) where
      abbrev s : Seam us ws n
      s = seam_of_chain us ws n x h l.chain

      -- delete_node, and the search once it has found the node, take it out and give it back.
      pub delete_node-Deleted : Gives (Deleted us ws n) (delete_node h list n)
      unfolding delete_node
      delete_node-Deleted = rw s.not_null (
          bind (skip_from_prev-Parted n x h list us ws l) (λ (e, g) (t, q).
            bind
              (skip_from_next-Skipped n x g e us ws s t (ap (λ (e : Ends). e.head) q)
                (ap (λ (e : Ends). e.tail) q ∙ l.at_tail))
              (λ r d. bind (free-Deleted n x us ws r s d) (λ k z. gives z))))

      delete_from_linked_list-Deleted :
          {D : Type 0} (compare : V → D → Ordering) (f : ℕ) (d : D)
          → AllKeep (λ v. not (is_zero (compare v d))) us
          → not (is_zero (compare x d)) ≡ false
          → length (us ++ (n, x) ∷ ws) < f
          → Gives
              (λ (ok, e, g). (ok ≡ true) × Deleted us ws n (e, g))
              (delete_from_linked_list compare f h list d)
      unfolding delete_from_linked_list
      delete_from_linked_list-Deleted compare f d k t m =
          let keep : V → Bool = λ v. not (is_zero (compare v d)) in
          let w : walk f h keep list.head ≡ some n =
            ap (walk f h keep) l.at_head
            ∙ walk-first_failing keep f h null us n x ws l.chain k t m in
          rw (w, s.not_null)
            (bind (unlink_found-Skipped n x h list us ws l)
              (λ r u. bind (free-Deleted n x us ws r s u) (λ g z. gives (refl, z))))

-- The nodes after a deletion: what is left stands in them, and a node of the list is gone. Without a
-- value that passes, false and no change.
abbrev pub Takes :
    {V : Type 0}
    → Heap V
    → Ends
    → Cells V
    → Option (List V)
    → Option (Bool × Ends × Heap V)
    → Type 0
Takes h e xs none r = r ≡ some (false, e, h)
Takes {V} h e xs (some left) r =
    Gives
      (λ (ok, e', g).
        (ok ≡ true)
        × ((n : Ptr) × (has n xs ≡ true) × (g n ≡ none))
        × ((cells : Cells V) × IsList g e' cells × (values cells ≡ left)))
      r

module _ {V : Type 0} where
  has-middle : (us ws : Cells V) (n : Ptr) (x : V) → has n (us ++ (n, x) ∷ ws) ≡ true
  has-middle us ws n x =
      let e : (n == n) ≡ true = ground arith in has-append n us ((n, x) ∷ ws) ∙ rw e (ground arith)

  Deleted-Takes :
      (us ws : Cells V) (n : Ptr) (x : V) (h : Heap V) (e : Ends)
      (r : Option (Bool × Ends × Heap V))
      → Gives (λ (ok, e, g). (ok ≡ true) × Deleted us ws n (e, g)) r
      → Takes h e (us ++ (n, x) ∷ ws) (some (values us ++ values ws)) r
  Deleted-Takes us ws n x h e r d = mono d (λ (ok, e', g) (o, (z, l)).
      (o, (n, has-middle us ws n x, z), (us ++ ws, l, values-append us ws)))

  module _ (test : V → Bool) where
    abbrev fails : V → Bool
    fails v = not (test v)

    delete-none : (xs : Cells V) → AllKeep fails xs → delete test (values xs) ≡ none
    unfolding delete
    delete-none [] k = refl
    delete-none ((a, v) ∷ xs) (k, all) =
        let e : test v ≡ false = ground arith in rw (e, delete-none xs all) refl

    delete-some :
        (us ws : Cells V) (n : Ptr) (x : V)
        → AllKeep fails us
        → test x ≡ true
        → delete test (values (us ++ (n, x) ∷ ws)) ≡ some (values us ++ values ws)
    unfolding delete
    delete-some [] ws n x k t = rw t refl
    delete-some ((a, v) ∷ us) ws n x (k, all) t =
        let e : test v ≡ false = ground arith in rw (e, delete-some us ws n x all t) refl

pub delete_from_linked_list-Takes :
    {V D : Type 0} (compare : V → D → Ordering) (f : ℕ) (d : D) (xs : Cells V) (h : Heap V)
    (e : Ends)
    → IsList h e xs
    → length xs < f
    → Takes h e xs
        (delete (λ v. is_zero (compare v d)) (values xs))
        (delete_from_linked_list compare f h e d)
unfolding delete_from_linked_list
delete_from_linked_list-Takes {V} {D} compare f d xs h e l m =
    let test : V → Bool = λ v. is_zero (compare v d) in
    elim (first_failing (λ v. not (test v)) xs) [
      | inl all ↦
          let w : walk f h (λ v. not (test v)) e.head ≡ some null =
            ap (walk f h (λ v. not (test v))) l.at_head
            ∙ walk-null (λ v. not (test v)) f h null xs l.chain all m in
          rw (delete-none test xs all, w) refl
      | inr (us, n, x, ws, q, k, t) ↦
          let l' = subst (IsList h e) q l in
          rw (q, delete-some test us ws n x k (ground arith))
            (Deleted-Takes us ws n x h e _ (
              delete_from_linked_list-Deleted n x h e us ws l' compare f d k t
                (subst (λ ys. length ys < f) q m)))
    ]

remove_front-Takes :
    {V : Type 0} (xs : Cells V) (h : Heap V) (e : Ends)
    → IsList h e xs
    → Takes h e xs (delete (λ v. true) (values xs)) (remove_front h e)
unfolding remove_front delete
remove_front-Takes [] h e l = let z : (e.head == null) ≡ true = ground arith in rw z refl
remove_front-Takes ((a, v) ∷ xs) h e l =
    let d = delete_node-Deleted a v h e [] xs l in
    let z = head-not_null h e [] a v xs l in
    let q : delete_node h e e.head ≡ delete_node h e a = ap (delete_node h e) l.at_head in
    rw (z, q) (bind d (λ r (g, k). gives (refl, (a, has-middle [] xs a v, g), (xs, k, refl))))

-- On nodes that hold a sequence, with more fuel than nodes, delete_from_linked_list takes out the first value
-- at which the comparator answers 0, and remove_front the first of all: the node is given back, and the
-- others, linked both ways, hold the rest in order. Where there is none they return false and change
-- nothing. They follow no NULL pointer.
pub removals-Takes :
    {V D : Type 0} (compare : V → D → Ordering) (f : ℕ) (d : D) (xs : Cells V) (h : Heap V)
    (e : Ends)
    → IsList h e xs
    → length xs < f
    → Takes h e xs
        (delete (λ v. is_zero (compare v d)) (values xs))
        (delete_from_linked_list compare f h e d)
      × Takes h e xs (delete (λ v. true) (values xs)) (remove_front h e)
removals-Takes compare f d xs h e l m =
    (delete_from_linked_list-Takes compare f d xs h e l m, remove_front-Takes xs h e l)
