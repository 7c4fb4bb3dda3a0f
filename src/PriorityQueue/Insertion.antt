-- ===== src/PriorityQueue/Insertion.antt =====
-- Putting an element into the nodes puts it into the sequence.
use eltex_summer.Base.{
  ℕ, ◌<◌, ◌≡◌, refl, sym, ◌∙◌, Bool, true, false, some, [], ◌∷◌, ◌++◌, arith, ltb, leb, ◌==◌,
  if◌then◌else◌, length, Bool-cases, inl, inr, subst,
}
use mathlib.Core.List.{append-nil}
use eltex_summer.Base.Int.{ℤ}
use eltex_summer.Heap.{Ptr, null, node, Ends, ends, write, walk}
use eltex_summer.Heap.Chain.{
  Cells, Gives, gives, mono, values, has, first, last, Chain, IsList, values-append, frame-write,
  write_self, ends_of, or_eq_false,
}
use eltex_summer.Heap.Split.{Seam, seam_of_chain, seam_of_chain, first-not_null, head-not_null}
use eltex_summer.Heap.Walk.{AllKeep, first_failing, walk-null, walk-first_failing}
use eltex_summer.PriorityQueue.{QueueElement, PriorityQueue, insert_behind}
use eltex_summer.PriorityQueue
use eltex_summer.PriorityQueue.Nodes
use eltex_summer.PriorityQueue.Nodes.{Store, link_last, link_first, link_before}
use eltex_summer.PriorityQueue.Places.{
  Inserted, link_before-Inserted, link_first-Inserted, link_last-Inserted,
}

-- The walk of the sequence stops where that of the nodes does.
abbrev Stops : QueueElement → Cells QueueElement → Type 0
Stops x [] = Unit
Stops x ((b, w) ∷ ws) = leb w.priority x.priority ≡ false

insert_behind-Stops :
    (x : QueueElement) (us ws : Cells QueueElement)
    → AllKeep (λ e. leb e.priority x.priority) us
    → Stops x ws
    → insert_behind x (values (us ++ ws)) ≡ values us ++ x ∷ values ws
unfolding insert_behind
insert_behind-Stops x [] [] k s = refl
insert_behind-Stops x [] ((b, w) ∷ ws) k s = rw s refl
insert_behind-Stops x ((a, v) ∷ us) ws (k, all) s = rw (k, insert_behind-Stops x us ws all s) refl

-- What the call promises: the sequence's answer, and nodes that hold its queue.
abbrev pub Holds : Bool × PriorityQueue → Bool × Ends × Store → Type 0
Holds (answer, queue) (ok, e, g) =
    (ok ≡ answer) × ((cells : Cells QueueElement) × IsList g e cells × (values cells ≡ queue))

Inserted-Holds :
    (us ws : Cells QueueElement) (n : Ptr) (x : QueueElement) (r : Bool × Ends × Store)
    → AllKeep (λ e. leb e.priority x.priority) us
    → Stops x ws
    → Inserted us ws n x r
    → Holds (true, insert_behind x (values (us ++ ws))) r
Inserted-Holds us ws n x (ok, e, g) k s (o, l) = (
  o,
  (us ++ (n, x) ∷ ws, l, values-append us ((n, x) ∷ ws) ∙ sym (insert_behind-Stops x us ws k s)),
)

abbrev element : ℤ → ℕ → QueueElement
element v p = record { priority = p; value = v }

abbrev keep : ℕ → QueueElement → Bool
keep p e = leb e.priority p

module _ (f n : Ptr) (h : Store) (v : ℤ) (p : ℕ) (ok : ltb 255 p ≡ false) where
  abbrev fresh : Store
  fresh = write h n (some (node (element v p) null null))

  enqueue-walked :
      (e : Ends) (c : Ptr)
      → (e.head == null) ≡ false
      → walk f fresh (keep p) e.head ≡ some c
      → Nodes.enqueue f n h e v p ≡ (
          if c == null
          then link_last fresh e n
          else if c == e.head
          then link_first fresh e n
          else link_before fresh e n c)
  unfolding Nodes.enqueue
  enqueue-walked e c z w = rw (ok, z, w) refl

  module _ (nn : (n == null) ≡ false) where
    enqueue-behind_all :
        (us : Cells QueueElement)
        → Chain h null null us
        → has n us ≡ false
        → length us < f
        → AllKeep (keep p) us
        → Gives
            (Inserted us [] n (element v p))
            (Nodes.enqueue f n h (ends (first null us) (last null us)) v p)
    unfolding Nodes.enqueue
    enqueue-behind_all [] c o m k = rw ok (
        gives (
          refl,
          record { chain = (nn, write_self h n _, refl, tt); at_head = refl; at_tail = refl },
        ))
    enqueue-behind_all ((a, w) ∷ us) c o m k =
        let vs = (a, w) ∷ us in
        let c0 = frame-write h null null vs n (some (node (element v p) null null)) o c in
        let t = walk-null (keep p) f fresh null vs c0 k m in
        let e = sym (append-nil vs) in
        rw (enqueue-walked (ends a (last null vs)) null (first-not_null h null null a w us c) t) (
          link_last-Inserted n (element v p) h nn a w us (subst (λ xs. Chain h null null xs) e c)
            (subst (λ xs. has n xs ≡ false) e o))

    link_where :
        (us : Cells QueueElement) (b : Ptr) (w : QueueElement) (ws : Cells QueueElement)
        → let xs = us ++ (b, w) ∷ ws in
          let e = ends (first null xs) (last null xs) in
          Chain h null null xs
          → has n xs ≡ false
          → Seam us ws b
          → Gives
              (Inserted us ((b, w) ∷ ws) n (element v p))
              (if b == e.head then link_first fresh e n else link_before fresh e n b)
    link_where [] b w ws c o q =
        let r : (b == b) ≡ true = ground arith in
        rw r (link_first-Inserted n (element v p) h nn b w ws c o)
    link_where ((a, u) ∷ us) b w ws c o q =
        let r : (b == a) ≡ false = (or_eq_false (b == a) (has b us) q.not_left).0 in
        rw r (link_before-Inserted n (element v p) h nn a u us b w ws c o)

    enqueue-before :
        (us : Cells QueueElement) (b : Ptr) (w : QueueElement) (ws : Cells QueueElement)
        → let xs = us ++ (b, w) ∷ ws in
          Chain h null null xs
          → has n xs ≡ false
          → length xs < f
          → AllKeep (keep p) us
          → keep p w ≡ false
          → Gives
              (Inserted us ((b, w) ∷ ws) n (element v p))
              (Nodes.enqueue f n h (ends (first null xs) (last null xs)) v p)
    enqueue-before us b w ws c o m k s =
        let xs = us ++ (b, w) ∷ ws in
        let c0 = frame-write h null null xs n (some (node (element v p) null null)) o c in
        let t = walk-first_failing (keep p) f fresh null us b w ws c0 k s m in
        let z =
          head-not_null h (ends (first null xs) (last null xs)) us b w ws
            (record { chain = c; at_head = refl; at_tail = refl }) in
        let q = seam_of_chain us ws b w h c in
        rw (enqueue-walked (ends (first null xs) (last null xs)) b z t, q.not_null)
          (link_where us b w ws c o q)

  enqueue-fits :
      (s : PriorityQueue) → PriorityQueue.enqueue s v p ≡ (true, insert_behind (element v p) s)
  unfolding PriorityQueue.enqueue
  enqueue-fits s = rw ok refl

enqueue-too_big :
    (f n p : ℕ) (v : ℤ) (xs : Cells QueueElement) (h : Store) (q : Ends)
    → IsList h q xs
    → ltb 255 p ≡ true
    → Gives (Holds (PriorityQueue.enqueue (values xs) v p)) (Nodes.enqueue f n h q v p)
unfolding Nodes.enqueue PriorityQueue.enqueue
enqueue-too_big f n p v xs h q l big = rw big (gives (refl, (xs, l, refl)))

-- On nodes that hold a sequence, with a fresh node and more fuel than nodes, enqueue returns what it does on
-- the sequence: false for a priority beyond 255, else true. It follows no NULL pointer, and the nodes hold
-- the queue that the sequence gives, linked both ways, `head` and `tail` at its ends.
pub enqueue-Refines :
    (f n p : ℕ) (v : ℤ) (xs : Cells QueueElement) (h : Store) (q : Ends)
    → IsList h q xs
    → (n == null) ≡ false
    → has n xs ≡ false
    → length xs < f
    → Gives (Holds (PriorityQueue.enqueue (values xs) v p)) (Nodes.enqueue f n h q v p)
enqueue-Refines f n p v xs h q l nn o m = elim (Bool-cases (ltb 255 p)) [
  | inl big ↦ enqueue-too_big f n p v xs h q l big
  | inr ok ↦
      rw (ends_of h q xs l, enqueue-fits f n h v p ok (values xs))
        (elim (first_failing (keep p) xs) [
          | inl all ↦
              mono (enqueue-behind_all f n h v p ok nn xs l.chain o m all)
                (λ r d. rw (sym (append-nil xs)) (Inserted-Holds xs [] n (element v p) r all tt d))
          | inr (us, b, w, ws, e, k, t) ↦ rw e (
              mono
                (enqueue-before f n h v p ok nn us b w ws
                  (subst (λ ys. Chain h null null ys) e l.chain)
                  (subst (λ ys. has n ys ≡ false) e o) (subst (λ ys. length ys < f) e m) k t)
                (λ r d. Inserted-Holds us ((b, w) ∷ ws) n (element v p) r k t d))
        ])
]
