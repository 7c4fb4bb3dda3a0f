-- ===== src/PriorityQueue/Dequeues.antt =====
-- The three ways to take an element out, on the nodes and on the sequence.
use eltex_summer.Base.{
  ℕ, ◌<◌, ◌≡◌, refl, ap, ◌∙◌, Bool, true, false, not, Option, none, some, [], ◌∷◌, ◌++◌, arith, leb,
  ◌==◌, length, inl, inr,
}
use eltex_summer.Heap.{Ptr, null, node, Ends, load, walk}
use eltex_summer.Heap.Chain.{
  Cells, Gives, gives, mono, bind, values, IsList, load-eq, values-append,
}
use eltex_summer.Heap.Split.{
  seam_of_chain, Parted-of_Chain, set_prev-right, first-not_null, head-not_null,
}
use eltex_summer.Heap.Walk.{AllKeep, first_failing, walk-null, walk-first_failing}
use eltex_summer.PriorityQueue.{QueueElement, PriorityQueue, take_first, behind}
use eltex_summer.PriorityQueue
use eltex_summer.PriorityQueue.Nodes
use eltex_summer.PriorityQueue.Nodes.{Store, unlink}
use eltex_summer.PriorityQueue.Removal.{
  Removed, unlink-only, unlink-head, unlink-last, unlink-middle,
}

-- The nodes do what the sequence does: a fault for a fault, NULL for no element, and a pointer to the
-- element that is taken; the nodes that are left hold the sequence that is left.
abbrev pub Refines :
    Option (Ptr × Ends × Store) → Option (Option QueueElement × PriorityQueue) → Type 0
Refines r none = r ≡ none
Refines r (some (none, left)) =
    Gives
      (λ (c, e, g).
        (c ≡ null) × ((cells : Cells QueueElement) × IsList g e cells × (values cells ≡ left)))
      r
Refines r (some (some x, left)) =
    Gives
      (λ (c, e, g).
        ((a b : Ptr) × (load g c ≡ some (node x a b)))
        × ((cells : Cells QueueElement) × IsList g e cells × (values cells ≡ left)))
      r

Refines-Removed :
    (us ws : Cells QueueElement) (n : Ptr) (x : QueueElement) (r : Option (Ptr × Ends × Store))
    → Gives (Removed us ws n x) r
    → Refines r (some (some x, values us ++ values ws))
Refines-Removed us ws n x r g = mono g (λ (c, e, k) d.
    let (a, b, q) = d.element in
    ((a, b, rw d.pointer q), (us ++ ws, d.others, values-append us ws)))

module _ (test : QueueElement → Bool) where
  abbrev keep : QueueElement → Bool
  keep e = not (test e)

  take_first-none : (xs : Cells QueueElement) → AllKeep keep xs → take_first test (values xs) ≡ none
  unfolding take_first
  take_first-none [] k = refl
  take_first-none ((a, v) ∷ xs) (k, all) =
      let e : test v ≡ false = ground arith in rw (e, take_first-none xs all) refl

  dequeue_where-none :
      (xs : Cells QueueElement)
      → AllKeep keep xs
      → PriorityQueue.dequeue_where test (values xs) ≡ some (none, values xs)
  unfolding PriorityQueue.dequeue_where
  dequeue_where-none [] k = refl
  dequeue_where-none ((a, v) ∷ []) (k, all) = let e : test v ≡ false = ground arith in rw e refl
  dequeue_where-none ((a, v) ∷ (b, w) ∷ xs) (k, all) =
      let e : test v ≡ false = ground arith in rw (e, take_first-none ((b, w) ∷ xs) all) refl

  take_first-some :
      (us ws : Cells QueueElement) (n : Ptr) (x : QueueElement)
      → AllKeep keep us
      → test x ≡ true
      → take_first test (values (us ++ (n, x) ∷ ws)) ≡ some (x, values us ++ values ws)
  unfolding take_first
  take_first-some [] ws n x k t = rw t refl
  take_first-some ((a, v) ∷ us) ws n x (k, all) t =
      let e : test v ≡ false = ground arith in rw (e, take_first-some us ws n x all t) refl

  dequeue_where-head :
      (ws : Cells QueueElement) (b n : Ptr) (w x : QueueElement)
      → test x ≡ true
      → PriorityQueue.dequeue_where test (values ((n, x) ∷ (b, w) ∷ ws))
        ≡ some (some x, values ((b, w) ∷ ws))
  unfolding PriorityQueue.dequeue_where
  dequeue_where-head ws b n w x t = rw t refl

  dequeue_where-behind :
      (a : Ptr) (v : QueueElement) (us ws : Cells QueueElement) (n : Ptr) (x : QueueElement)
      → AllKeep keep ((a, v) ∷ us)
      → test x ≡ true
      → PriorityQueue.dequeue_where test (values (((a, v) ∷ us) ++ (n, x) ∷ ws))
        ≡ some (some x, values ((a, v) ∷ us) ++ values ws)
  unfolding PriorityQueue.dequeue_where
  dequeue_where-behind a v [] ws n x (k, all) t =
      let e : test v ≡ false = ground arith in rw (e, take_first-some [] ws n x all t) refl
  dequeue_where-behind a v ((b, w) ∷ us) ws n x (k, all) t =
      let e : test v ≡ false = ground arith in
      rw (e, take_first-some ((b, w) ∷ us) ws n x all t) refl

  unlink-Refines :
      (us : Cells QueueElement) (n : Ptr) (x : QueueElement) (ws : Cells QueueElement) (h : Store)
      (q : Ends)
      → IsList h q (us ++ (n, x) ∷ ws)
      → AllKeep keep us
      → test x ≡ true
      → Refines (unlink h q n) (PriorityQueue.dequeue_where test (values (us ++ (n, x) ∷ ws)))
  unfolding PriorityQueue.dequeue_where
  unlink-Refines [] n x [] h q l k t = rw t (unlink-only n x h q l)
  unlink-Refines [] n x ((b, w) ∷ ws) h q l k t =
      rw (dequeue_where-head ws b n w x t)
        (Refines-Removed [] ((b, w) ∷ ws) n x _ (unlink-head n x h q b w ws l))
  unlink-Refines ((a, v) ∷ us) n x [] h q l k t =
      rw (dequeue_where-behind a v us [] n x k t)
        (Refines-Removed ((a, v) ∷ us) [] n x _ (unlink-last n x h q a v us l))
  unlink-Refines ((a, v) ∷ us) n x ((b, w) ∷ ws) h q l k t =
      rw (dequeue_where-behind a v us ((b, w) ∷ ws) n x k t)
        (Refines-Removed ((a, v) ∷ us) ((b, w) ∷ ws) n x _ (unlink-middle n x h q a v us b w ws l))

  dequeue_where-stopped :
      (f : ℕ) (us : Cells QueueElement) (n : Ptr) (x : QueueElement) (ws : Cells QueueElement)
      (h : Store) (q : Ends)
      → IsList h q (us ++ (n, x) ∷ ws)
      → length (us ++ (n, x) ∷ ws) < f
      → AllKeep keep us
      → keep x ≡ false
      → Nodes.dequeue_where f test h q ≡ unlink h q n
  unfolding Nodes.dequeue_where
  dequeue_where-stopped f us n x ws h q l m k t =
      let z = head-not_null h q us n x ws l in
      let s = seam_of_chain us ws n x h l.chain in
      let w : walk f h keep q.head ≡ some n =
        ap (walk f h keep) l.at_head ∙ walk-first_failing keep f h null us n x ws l.chain k t m in
      rw (z, w, s.not_null) refl

  dequeue_where-found :
      (f : ℕ) (us : Cells QueueElement) (n : Ptr) (x : QueueElement) (ws : Cells QueueElement)
      (h : Store) (q : Ends)
      → IsList h q (us ++ (n, x) ∷ ws)
      → length (us ++ (n, x) ∷ ws) < f
      → AllKeep keep us
      → keep x ≡ false
      → Refines
          (Nodes.dequeue_where f test h q)
          (PriorityQueue.dequeue_where test (values (us ++ (n, x) ∷ ws)))
  dequeue_where-found f us n x ws h q l m k t =
      rw (dequeue_where-stopped f us n x ws h q l m k t)
        (unlink-Refines us n x ws h q l k (ground arith))

  dequeue_where-missing :
      (f : ℕ) (xs : Cells QueueElement) (h : Store) (q : Ends)
      → IsList h q xs
      → length xs < f
      → AllKeep keep xs
      → Nodes.dequeue_where f test h q ≡ some (null, q, h)
  unfolding Nodes.dequeue_where
  dequeue_where-missing f [] h q l m k = let z : (q.head == null) ≡ true = ground arith in rw z refl
  dequeue_where-missing f ((a, v) ∷ xs) h q l m k =
      let z = head-not_null h q [] a v xs l in
      let w : walk f h keep q.head ≡ some null =
        ap (walk f h keep) l.at_head ∙ walk-null keep f h null ((a, v) ∷ xs) l.chain k m in
      rw (z, w) refl

  pub dequeue_where-Refines :
      (f : ℕ) (xs : Cells QueueElement) (h : Store) (q : Ends)
      → IsList h q xs
      → length xs < f
      → Refines (Nodes.dequeue_where f test h q) (PriorityQueue.dequeue_where test (values xs))
  dequeue_where-Refines f xs h q l m = elim (first_failing keep xs) [
    | inl all ↦
        rw (dequeue_where-missing f xs h q l m all, dequeue_where-none xs all)
          (gives (refl, (xs, l, refl)))
    | inr (us, n, x, ws, e, k, t) ↦
        rw e (dequeue_where-found f us n x ws h q (rw e at l) (rw e at m) k t)
  ]

dequeue-Refines :
    (xs : Cells QueueElement) (h : Store) (q : Ends)
    → IsList h q xs
    → Refines (Nodes.dequeue h q) (some (PriorityQueue.dequeue (values xs)))
unfolding Nodes.dequeue PriorityQueue.dequeue
dequeue-Refines [] h q l =
    let z : (q.head == null) ≡ true = ground arith in rw z (gives (refl, ([], l, refl)))
dequeue-Refines ((a, v) ∷ []) h q l =
    let z = head-not_null h q [] a v [] l in
    let (n, e, o, c) = l.chain in
    let r : load h q.head ≡ some (node v null null) =
      ap (load h) l.at_head ∙ load-eq h a (node v null null) n e in
    rw (z, r)
      (gives ((null, null, r), ([], record { chain = tt; at_head = refl; at_tail = refl }, refl)))
dequeue-Refines ((a, v) ∷ (b, w) ∷ xs) h q l =
    let z = head-not_null h q [] a v ((b, w) ∷ xs) l in
    let s = seam_of_chain [] ((b, w) ∷ xs) a v h l.chain in
    let t = Parted-of_Chain [] ((b, w) ∷ xs) a v h l.chain in
    let nb = first-not_null h a null b w xs t.right in
    let r : load h q.head ≡ some (node v b null) =
      ap (load h) l.at_head ∙ load-eq h a (node v b null) s.not_null t.here in
    rw (z, r, nb)
      (bind (set_prev-right a v [] ((b, w) ∷ xs) s.not_right tt t nb null) (λ g u. gives (
        (b, null, ap (load g) l.at_head ∙ load-eq g a (node v b null) s.not_null u.here),
        ((b, w) ∷ xs, record { chain = u.right; at_head = refl; at_tail = l.at_tail }, refl),
      )))

-- On nodes that hold a sequence, with more fuel than nodes, dequeue, dequeueWithPriority and
-- dequeueWithMinPriority do what they do to the sequence, where they take the first element, the first of
-- just the priority, and the first of at least the priority: they follow NULL where that is a fault, return
-- NULL where there is no element, and otherwise a pointer to the element that is taken; the nodes that are
-- left are linked both ways and hold what is left.
pub dequeues-Refines :
    (f p : ℕ) (xs : Cells QueueElement) (h : Store) (q : Ends)
    → IsList h q xs
    → length xs < f
    → Refines (Nodes.dequeue h q) (some (PriorityQueue.dequeue (values xs)))
      × Refines
          (Nodes.dequeue_with_priority f h q p)
          (PriorityQueue.dequeue_with_priority (values xs) p)
      × Refines
          (Nodes.dequeue_with_min_priority f h q p)
          (PriorityQueue.dequeue_with_min_priority (values xs) p)
unfolding Nodes.dequeue_with_priority Nodes.dequeue_with_min_priority
    PriorityQueue.dequeue_with_priority PriorityQueue.dequeue_with_min_priority
dequeues-Refines f p xs h q l m = (
  dequeue-Refines xs h q l,
  dequeue_where-Refines (λ e. e.priority == p) f xs h q l m,
  dequeue_where-Refines (λ e. leb p e.priority) f xs h q l m,
)
