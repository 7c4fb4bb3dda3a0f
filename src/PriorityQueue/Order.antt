-- ===== src/PriorityQueue/Order.antt =====
-- The order of the queue of module2/task3/4.2: by priority, and by arrival within a priority.
use eltex_summer.Base.{
  ℕ, ◌≤◌, ◌≡◌, refl, sym, ap, ◌∙◌, Bool, true, false, Option, none, some, [], ◌∷◌, ◌++◌, arith, ltb,
  leb, ◌==◌, if◌then◌else◌, Bool-cases, Option-cases, inl, inr,
}
use eltex_summer.Base.Int.{ℤ}
use eltex_summer.PriorityQueue.{
  QueueElement, PriorityQueue, insert_behind, enqueue, take_first, behind, dequeue_where,
  dequeue_with_priority,
}

-- Priorities do not fall, from a bound on.
unfoldable pub Rising : ℕ → PriorityQueue → Type 0
Rising b [] = Unit
Rising b (e ∷ es) = (b ≤ e.priority) × Rising e.priority es

-- The elements of one priority, in the order of the queue.
unfoldable pub of_priority : ℕ → PriorityQueue → PriorityQueue
of_priority p [] = []
of_priority p (e ∷ es) = if e.priority == p then e ∷ of_priority p es else of_priority p es

Rising-insert_behind :
    (b : ℕ) (x : QueueElement) (es : PriorityQueue)
    → b ≤ x.priority
    → Rising b es
    → Rising b (insert_behind x es)
unfolding Rising insert_behind
Rising-insert_behind b x [] h r = (h, tt)
Rising-insert_behind b x (e ∷ es) h (p, r) = elim (Bool-cases (leb e.priority x.priority)) [
  | inl k ↦ rw k (p, Rising-insert_behind e.priority x es (ground arith) r)
  | inr k ↦ rw k (h, (ground arith, r))
]

of_priority-above :
    (p b : ℕ) (es : PriorityQueue) → Rising b es → ltb p b ≡ true → of_priority p es ≡ []
unfolding of_priority Rising
of_priority-above p b [] r h = refl
of_priority-above p b (e ∷ es) (q, r) h =
    let n : (e.priority == p) ≡ false = ground arith in
    rw n (of_priority-above p e.priority es r (ground arith))

push_if :
    (a b : Bool) (e x : QueueElement) (l : PriorityQueue)
    → (if a then e ∷ (if b then l ++ x ∷ [] else l) else (if b then l ++ x ∷ [] else l))
      ≡ (if b then (if a then e ∷ l else l) ++ x ∷ [] else (if a then e ∷ l else l))
push_if true true e x l = refl
push_if true false e x l = refl
push_if false true e x l = refl
push_if false false e x l = refl

of_priority-insert_behind :
    (p b : ℕ) (x : QueueElement) (es : PriorityQueue)
    → Rising b es
    → of_priority p (insert_behind x es)
      ≡ (if x.priority == p then of_priority p es ++ x ∷ [] else of_priority p es)
unfolding of_priority insert_behind Rising
of_priority-insert_behind p b x [] r = refl
of_priority-insert_behind p b x (e ∷ es) (q, r) = elim (Bool-cases (leb e.priority x.priority)) [
  | inl k ↦
      rw (k, of_priority-insert_behind p e.priority x es r)
        (push_if (e.priority == p) (x.priority == p) e x (of_priority p es))
  | inr k ↦ elim (Bool-cases (x.priority == p)) [
    | inl n ↦
        let f : (e.priority == p) ≡ false = ground arith in
        let z = of_priority-above p e.priority es r (ground arith) in rw (k, n, f, z) refl
    | inr n ↦ rw (k, n) refl
  ]
]

-- In a queue whose priorities do not fall, an element of a priority up to 255 is put behind all those of
-- its priority; the elements of every other priority stay as they are, and priorities do not fall. A
-- greater priority is refused.
pub enqueue-of_priority :
    (queue : PriorityQueue) (v : ℤ) (priority p : ℕ)
    → Rising 0 queue
    → (of_priority p (enqueue queue v priority).1 ≡ (
        if ltb 255 priority
        then of_priority p queue
        else (if priority == p
            then of_priority p queue ++ record { priority = priority; value = v } ∷ []
            else of_priority p queue)))
      × Rising 0 (enqueue queue v priority).1
unfolding enqueue
enqueue-of_priority queue v priority p r = elim (Bool-cases (ltb 255 priority)) [
  | inl h ↦ rw h (refl, r)
  | inr h ↦ rw h (
    of_priority-insert_behind p 0 (record { priority = priority; value = v }) queue r,
    Rising-insert_behind 0 (record { priority = priority; value = v }) queue (omega arith) r,
  )
]

-- What taking the first element of a priority out of a queue leaves.
abbrev Taken : ℕ → PriorityQueue → Option (QueueElement × PriorityQueue) → Type 0
Taken p q none = of_priority p q ≡ []
Taken p q (some (e, q')) =
    (of_priority p q ≡ e ∷ of_priority p q')
    × ((k : ℕ) → (k == p) ≡ false → of_priority k q' ≡ of_priority k q)

of_priority-empty : (p : ℕ) → of_priority p [] ≡ []
unfolding of_priority
of_priority-empty p = refl

of_priority-skip :
    (p : ℕ) (e : QueueElement) (es : PriorityQueue)
    → (e.priority == p) ≡ false
    → of_priority p (e ∷ es) ≡ of_priority p es
unfolding of_priority
of_priority-skip p e es h = rw h refl

of_priority-keep :
    (p : ℕ) (e : QueueElement) (es : PriorityQueue)
    → (e.priority == p) ≡ true
    → of_priority p (e ∷ es) ≡ e ∷ of_priority p es
unfolding of_priority
of_priority-keep p e es h = rw h refl

of_priority-cons :
    (k : ℕ) (e : QueueElement) (es fs : PriorityQueue)
    → of_priority k fs ≡ of_priority k es
    → of_priority k (e ∷ fs) ≡ of_priority k (e ∷ es)
unfolding of_priority
of_priority-cons k e es fs h = rw h refl

take_first-Taken : (p : ℕ) (q : PriorityQueue) → Taken p q (take_first (λ e. e.priority == p) q)
unfolding take_first
take_first-Taken p [] = of_priority-empty p
take_first-Taken p (e ∷ es) = elim (Bool-cases (e.priority == p)) [
  | inl h ↦ rw h (of_priority-keep p e es h, λ k n. sym (of_priority-skip k e es (ground arith)))
  | inr h ↦ elim (Option-cases (take_first (λ f. f.priority == p) es)) [
    | inl t ↦
        let ih : of_priority p es ≡ [] = rw t at (take_first-Taken p es) in
        rw (h, t) (of_priority-skip p e es h ∙ ih)
    | inr ((f, fs), t) ↦
        let ih : Taken p es (some (f, fs)) = rw t at (take_first-Taken p es) in
        rw (h, t)
          (
            of_priority-skip p e es h ∙ ih.0 ∙ ap (◌∷◌ f) (sym (of_priority-skip p e fs h)),
            λ k n. of_priority-cons k e es fs (ih.1 k n),
          )
  ]
]

-- What `dequeue_with_priority` gives: a fault, no element, or one with the queue that is left.
abbrev pub Dequeued : ℕ → PriorityQueue → Option (Option QueueElement × PriorityQueue) → Type 0
Dequeued p q none = (e : QueueElement) × (q ≡ e ∷ []) × (e.priority ≡ p)
Dequeued p q (some (none, q')) = (of_priority p q ≡ []) × (q' ≡ q)
Dequeued p q (some (some e, q')) = Taken p q (some (e, q'))

behind-Dequeued :
    (p : ℕ) (e : QueueElement) (es : PriorityQueue)
    → (e.priority == p) ≡ false
    → Dequeued p (e ∷ es) (some (behind e es (take_first (λ f. f.priority == p) es)))
behind-Dequeued p e es h = elim (Option-cases (take_first (λ f. f.priority == p) es)) [
  | inl t ↦
      let ih : of_priority p es ≡ [] = rw t at (take_first-Taken p es) in
      rw t (of_priority-skip p e es h ∙ ih, refl)
  | inr ((f, fs), t) ↦
      let ih : Taken p es (some (f, fs)) = rw t at (take_first-Taken p es) in
      rw t (
        of_priority-skip p e es h ∙ ih.0 ∙ ap (◌∷◌ f) (sym (of_priority-skip p e fs h)),
        λ k n. of_priority-cons k e es fs (ih.1 k n),
      )
]

-- `dequeueWithPriority` takes out the first element of the priority and keeps the other elements of that
-- and of every other priority in order; without such an element it changes nothing. It follows a NULL
-- pointer only where the queue has one element and that has the priority.
pub dequeue_with_priority-Dequeued :
    (q : PriorityQueue) (p : ℕ) → Dequeued p q (dequeue_with_priority q p)
unfolding dequeue_with_priority dequeue_where
dequeue_with_priority-Dequeued [] p = (of_priority-empty p, refl)
dequeue_with_priority-Dequeued (e ∷ []) p = elim (Bool-cases (e.priority == p)) [
  | inl h ↦ rw h (e, refl, ground arith)
  | inr h ↦ rw h (of_priority-skip p e [] h ∙ of_priority-empty p, refl)
]
dequeue_with_priority-Dequeued (e ∷ f ∷ es) p = elim (Bool-cases (e.priority == p)) [
  | inl h ↦
      rw h
        (of_priority-keep p e (f ∷ es) h, λ k n. sym (of_priority-skip k e (f ∷ es) (ground arith)))
  | inr h ↦ rw h (behind-Dequeued p e (f ∷ es) h)
]
