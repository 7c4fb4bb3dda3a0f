-- ===== src/LinkedList/Insertion.antt =====
-- insert_to_linked_list on the nodes is the insertion into the sequence.
use eltex_summer.Base.{
  ℕ, ◌<◌, ◌≤◌, ◌≡◌, refl, sym, ap, ◌∙◌, subst, Bool, true, false, some, Ordering, List, [], ◌∷◌,
  ◌++◌, arith, ◌==◌, length, Bool-cases, inl, inr,
}
use mathlib.Core.List.{append-nil}
use eltex_summer.Heap.{Ptr, null, node, Heap, Ends, ends, load}
use eltex_summer.Heap.Chain.{
  Cells, Gives, gives, mono, values, final, has, first, last, Chain, IsList, ends_of, load-eq,
  values-append, frame-write, write_self,
}
use eltex_summer.Heap.Split.{load-last, first-not_null}
use eltex_summer.Heap.Walk.{AllKeep, first_failing}
use eltex_summer.LinkedList.{
  at_least, at_most, create_node, walk_next, insert_after, insert_to_linked_list,
}
use eltex_summer.LinkedList.Sequence.{put_behind, insert}
use eltex_summer.LinkedList.Places.{
  Inserted, insert_after-Inserted, insert_end-Inserted, insert_front-Inserted,
  walk_next-first_failing,
}

module _ {V : Type 0} where
  final-AllKeep :
      (keep : V → Bool) (v : V) (us : Cells V)
      → keep v ≡ true
      → AllKeep keep us
      → keep (final v (values us)) ≡ true
  final-AllKeep keep v [] e k = e
  final-AllKeep keep v ((b, w) ∷ us) e (f, k) = final-AllKeep keep w us f k

  -- What the call promises: true, and nodes that hold the sequence.
  abbrev pub Holds : List V → Bool × Ends × Heap V → Type 0
  Holds list (ok, e, g) =
      (ok ≡ true) × ((cells : Cells V) × IsList g e cells × (values cells ≡ list))

  Inserted-Holds :
      (us ws : Cells V) (n : Ptr) (x : V) (list : List V) (r : Bool × Ends × Heap V)
      → values us ++ x ∷ values ws ≡ list
      → Inserted us ws n x r
      → Holds list r
  Inserted-Holds us ws n x list (ok, e, g) q (o, l) =
      (o, (us ++ (n, x) ∷ ws, l, values-append us ((n, x) ∷ ws) ∙ q))

at_most-lt : (o : Ordering) → at_least o ≡ false → at_most o ≡ true
at_most-lt o e = ground arith

module _ {V : Type 0} (compare : V → V → Ordering) (x : V) where
  abbrev keep : V → Bool
  keep v = at_most (compare v x)

  put_behind-stops :
      (us ws : Cells V) (b : Ptr) (w : V)
      → AllKeep keep us
      → keep w ≡ false
      → put_behind compare (values (us ++ (b, w) ∷ ws)) x ≡ values us ++ x ∷ values ((b, w) ∷ ws)
  put_behind-stops [] ws b w k t = rw t refl
  put_behind-stops ((a, v) ∷ us) ws b w (k, all) t = rw (k, put_behind-stops us ws b w all t) refl

  module _ (f n : Ptr) (h : Heap V) (nn : (n == null) ≡ false) (a : Ptr) (v : V) (us : Cells V)
      (c : Chain h null null ((a, v) ∷ us)) (o : has n ((a, v) ∷ us) ≡ false) where
    abbrev list : Ends
    list = ends a (last a us)

    abbrev fresh_heap : Heap V
    fresh_heap = create_node n h x

    fresh-Chain : Chain fresh_heap null null ((a, v) ∷ us)
    unfolding create_node
    fresh-Chain = frame-write h null null ((a, v) ∷ us) n (some (node x null null)) o c

    load-head : load fresh_heap a ≡ some (node v (first null us) null)
    load-head =
        let (m, q, j, d) = fresh-Chain in load-eq fresh_heap a (node v (first null us) null) m q

    insert_to_linked_list-front :
        at_least (compare v x) ≡ true
        → Gives
            (Holds (insert compare (v ∷ values us) x))
            (insert_to_linked_list compare f n h list x)
    unfolding insert_to_linked_list insert
    insert_to_linked_list-front k =
        rw (first-not_null h null null a v us c, load-head, k)
          (mono (insert_front-Inserted n x h nn a v us c o)
            (λ r d. Inserted-Holds [] ((a, v) ∷ us) n x (x ∷ v ∷ values us) r refl d))

    module _ (k : at_least (compare v x) ≡ false) where
      insert_to_linked_list-end :
          at_most (compare (final v (values us)) x) ≡ true
          → Gives
              (Holds (insert compare (v ∷ values us) x))
              (insert_to_linked_list compare f n h list x)
      unfolding insert_to_linked_list insert
      insert_to_linked_list-end l =
          let e = sym (append-nil ((a, v) ∷ us)) in
          let (p, q) = load-last fresh_heap null null a v us fresh-Chain in
          rw (first-not_null h null null a v us c, load-head, k, q, l)
            (mono
              (insert_end-Inserted n x h nn a v us (subst (λ ys. Chain h null null ys) e c)
                (subst (λ ys. has n ys ≡ false) e o))
              (λ r d. Inserted-Holds ((a, v) ∷ us) [] n x (v ∷ values us ++ x ∷ []) r refl d))

      insert_to_linked_list-after :
          at_most (compare (final v (values us)) x) ≡ false
          → (vs : Cells V) (b : Ptr) (w : V) (ws : Cells V) → us ≡ vs ++ (b, w) ∷ ws
          → AllKeep keep vs
          → keep w ≡ false
          → length us < f
          → Gives
              (Holds (insert compare (v ∷ values us) x))
              (insert_to_linked_list compare f n h list x)
      unfolding insert_to_linked_list insert
      insert_to_linked_list-after l vs b w ws e all t m =
          let (p, q) = load-last fresh_heap null null a v us fresh-Chain in
          let s : walk_next f fresh_heap keep a ≡ some (last a vs) =
            walk_next-first_failing keep f fresh_heap null a v vs b w ws
              (subst (λ ys. Chain fresh_heap null null ((a, v) ∷ ys)) e fresh-Chain) all t
              (subst (λ ys. length ys < f) e m) in
          let r =
            insert_after-Inserted n x h nn a v vs b w ws
              (subst (λ ys. Chain h null null ((a, v) ∷ ys)) e c)
              (subst (λ ys. has n ((a, v) ∷ ys) ≡ false) e o) in
          let r' =
            subst
              (λ ys.
                Gives (Inserted ((a, v) ∷ vs) ((b, w) ∷ ws) n x)
                  (insert_after fresh_heap (ends a (last a ys)) n (last a vs)))
              (sym e) r in
          rw (first-not_null h null null a v us c, load-head, k, q, l, s)
            (mono r' (λ g d.
              Inserted-Holds ((a, v) ∷ vs) ((b, w) ∷ ws) n x (v ∷ put_behind compare (values us) x)
                g
                (ap (◌∷◌ v) (
                  sym (put_behind-stops vs ws b w all t)
                  ∙ ap (λ ys. put_behind compare (values ys) x) (sym e)))
                d))

      insert_to_linked_list-behind :
          length us < f
          → Gives
              (Holds (insert compare (v ∷ values us) x))
              (insert_to_linked_list compare f n h list x)
      insert_to_linked_list-behind m =
          elim (Bool-cases (at_most (compare (final v (values us)) x))) [
            | inl l ↦ insert_to_linked_list-end l
            | inr l ↦ elim (first_failing keep us) [
              | inl all ↦
                  let e = final-AllKeep keep v us (at_most-lt (compare v x) k) all in
                  absurd (ground (arith, e, l))
              | inr (vs, b, w, ws, e, all, t) ↦ insert_to_linked_list-after l vs b w ws e all t m
            ]
          ]

-- On nodes that hold a sequence, with a fresh node and at least as much fuel as nodes, and whatever the
-- comparator answers, insert_to_linked_list returns true and follows no NULL pointer, and the nodes, linked
-- both ways between `head` and `tail`, hold the sequence with the value put in its place.
pub insert_to_linked_list-Holds :
    {V : Type 0} (compare : V → V → Ordering) (f n : ℕ) (x : V) (xs : Cells V) (h : Heap V)
    (e : Ends)
    → IsList h e xs
    → (n == null) ≡ false
    → has n xs ≡ false
    → length xs ≤ f
    → Gives (Holds (insert compare (values xs) x)) (insert_to_linked_list compare f n h e x)
unfolding insert_to_linked_list insert create_node
insert_to_linked_list-Holds compare f n x [] h e l nn o m = rw (ends_of h e [] l) (
    gives (
      refl,
      (
        (n, x) ∷ [],
        record { chain = (nn, write_self h n _, refl, tt); at_head = refl; at_tail = refl },
        refl,
      ),
    ))
insert_to_linked_list-Holds compare f n x ((a, v) ∷ us) h e l nn o m =
    rw (ends_of h e ((a, v) ∷ us) l) (elim (Bool-cases (at_least (compare v x))) [
      | inl k ↦ insert_to_linked_list-front compare x f n h nn a v us l.chain o k
      | inr k ↦ insert_to_linked_list-behind compare x f n h nn a v us l.chain o k (omega arith)
    ])
