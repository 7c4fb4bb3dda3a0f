-- ===== src/LinkedList/Lookup.antt =====
-- find_node on the nodes is the search in the sequence, and a change through what it returns changes that
-- value alone.
use eltex_summer.Base.{
  ℕ, ◌<◌, ◌≡◌, refl, sym, ap, ◌∙◌, subst, Bool, true, false, not, Option, none, some, Ordering, [],
  ◌∷◌, ◌++◌, arith, ◌==◌, length, Bool-cases, inl, inr,
}
use eltex_summer.Heap.{Ptr, null, node, Heap, Ends, load, set_value, walk}
use eltex_summer.Heap.Chain.{
  Cells, Gives, gives, values, first, last, IsList, load-eq, first-append, last-append, frame-write,
  write_self,
}
use eltex_summer.Heap.Split.{seam_of_chain, Parted-of_Chain, Chain-with, head-not_null}
use eltex_summer.Heap.Walk.{AllKeep, first_failing, walk-null, walk-first_failing}
use eltex_summer.LinkedList.{is_zero, find_node}
use eltex_summer.LinkedList.Sequence.{find, change_first}

module _ {V : Type 0} (test : V → Bool) where
  abbrev fails : V → Bool
  fails v = not (test v)

  find-none : (xs : Cells V) → AllKeep fails xs → find test (values xs) ≡ none
  unfolding find
  find-none [] k = refl
  find-none ((a, v) ∷ xs) (k, all) =
      let e : test v ≡ false = ground arith in rw (e, find-none xs all) refl

  find-some :
      (us ws : Cells V) (n : Ptr) (x : V)
      → AllKeep fails us
      → test x ≡ true
      → find test (values (us ++ (n, x) ∷ ws)) ≡ some x
  unfolding find
  find-some [] ws n x k t = rw t refl
  find-some ((a, v) ∷ us) ws n x (k, all) t =
      let e : test v ≡ false = ground arith in rw (e, find-some us ws n x all t) refl

  change_first-some :
      (f : V → V) (us ws : Cells V) (n : Ptr) (x : V)
      → AllKeep fails us
      → test x ≡ true
      → change_first test f (values (us ++ (n, x) ∷ ws)) ≡ values (us ++ (n, f x) ∷ ws)
  unfolding change_first
  change_first-some f [] ws n x k t = rw t refl
  change_first-some f ((a, v) ∷ us) ws n x (k, all) t =
      let e : test v ≡ false = ground arith in rw (e, change_first-some f us ws n x all t) refl

-- Where the search in the nodes ends: at NULL, or at a node with the value that the sequence gives; a change
-- of the value there is the change of the sequence.
pub record Located {V : Type 0} (test : V → Bool) (h : Heap V) (e : Ends) (xs : Cells V) (x : V)
    (p : Ptr) : Type 0 where
  pub not_null : (p == null) ≡ false
  pub loads : (a b : Ptr) × (load h p ≡ some (node x a b))
  pub changes :
      (f : V → V)
      → Gives
          (λ g.
            (cells : Cells V) × IsList g e cells × (values cells ≡ change_first test f (values xs)))
          (set_value h p f)

abbrev pub Finds :
    {V : Type 0} → (V → Bool) → Heap V → Ends → Cells V → Option V → Option Ptr → Type 0
Finds test h e xs none r = r ≡ some null
Finds test h e xs (some x) r = Gives (Located test h e xs x) r

module _ {V : Type 0} (test : V → Bool) (h : Heap V) (e : Ends) (us : Cells V) (n : Ptr) (x : V)
    (ws : Cells V) (l : IsList h e (us ++ (n, x) ∷ ws)) where
  middle-Located :
      AllKeep (fails test) us → test x ≡ true → Located test h e (us ++ (n, x) ∷ ws) x n
  unfolding set_value
  middle-Located k t =
      let s = seam_of_chain us ws n x h l.chain in
      let q = Parted-of_Chain us ws n x h l.chain in
      let r = load-eq h n (node x (first null ws) (last null us)) s.not_null q.here in
      record {
        not_null = s.not_null;
        loads = (first null ws, last null us, r);
        changes = λ f. rw r (
            gives (
              us ++ (n, f x) ∷ ws,
              record {
                chain = Chain-with us ws n (f x) _ s (record {
                  left = frame-write h null n us n _ s.not_left q.left;
                  here = write_self h n _;
                  right = frame-write h n null ws n _ s.not_right q.right;
                });
                at_head = l.at_head ∙ (first-append null us _ ∙ sym (first-append null us _));
                at_tail = l.at_tail ∙ (last-append null us _ ∙ sym (last-append null us _));
              },
              sym (change_first-some test f us ws n x k t),
            ));
      }

-- On nodes that hold a sequence, with more fuel than nodes, find_node returns NULL where the comparator
-- answers 0 at no value, and otherwise the first where it does; a write to it changes that value, and neither
-- the others nor the links.
pub find_node-Finds :
    {V D : Type 0} (compare : V → D → Ordering) (f : ℕ) (d : D) (xs : Cells V) (h : Heap V)
    (e : Ends)
    → IsList h e xs
    → length xs < f
    → Finds
        (λ v. is_zero (compare v d))
        h
        e
        xs
        (find (λ v. is_zero (compare v d)) (values xs))
        (find_node compare f h e.head d)
unfolding find_node
find_node-Finds {V} {D} compare f d xs h e l m =
    let test : V → Bool = λ v. is_zero (compare v d) in
    elim (first_failing (λ v. not (test v)) xs) [
      | inl all ↦
          let w : walk f h (λ v. not (test v)) e.head ≡ some null =
            ap (walk f h (λ v. not (test v))) l.at_head
            ∙ walk-null (λ v. not (test v)) f h null xs l.chain all m in
          rw (find-none test xs all)
            (elim (Bool-cases (e.head == null)) [ inl z ↦ rw z refl | inr z ↦ rw (z, w) refl ])
      | inr (us, n, x, ws, q, k, t) ↦
          let l' = subst (IsList h e) q l in
          let keep : V → Bool = λ v. not (test v) in
          let w : walk f h keep e.head ≡ some n =
            ap (walk f h keep) l'.at_head
            ∙ walk-first_failing keep f h null us n x ws l'.chain k t
                (subst (λ ys. length ys < f) q m) in
          let b : test x ≡ true = ground arith in
          rw (q, find-some test us ws n x k b, head-not_null h e us n x ws l', w)
            (gives (middle-Located test h e us n x ws l' k b))
    ]
