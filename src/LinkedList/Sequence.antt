-- ===== src/LinkedList/Sequence.antt =====
-- What the list does to the sequence of its values.
use eltex_summer.Base.{
  ◌≡◌, refl, sym, ap, ◌∙◌, Bool, true, false, Option, none, some, Ordering, lt, eq, gt, List, [],
  ◌∷◌, ◌++◌, arith, length, length-append, suc, if◌then◌else◌, Bool-cases, inl, inr, ◌⊎◌,
  Option-cases,
}
use mathlib.Core.List.{append-nil}
use mathlib.Core.Option.{some-injective}
use eltex_summer.Heap.Chain.{final, some-ne-none}
use eltex_summer.LinkedList.{at_least, at_most}

module _ {V : Type 0} where
  module _ (compare : V → V → Ordering) where
    -- Behind the values that are not greater.
    abbrev pub put_behind : List V → V → List V
    put_behind [] x = x ∷ []
    put_behind (w ∷ ws) x =
        let rest = put_behind ws x in if at_most (compare w x) then w ∷ rest else x ∷ w ∷ ws

    -- In front of a head that is not less, at the end behind a last value that is not greater, and
    -- otherwise behind those after the head that are not greater.
    unfoldable pub insert : List V → V → List V
    insert [] x = x ∷ []
    insert (v ∷ vs) x =
        if at_least (compare v x)
        then x ∷ v ∷ vs
        else if at_most (compare (final v vs) x)
        then v ∷ (vs ++ x ∷ [])
        else v ∷ put_behind vs x

-- The first value that passes is taken out, if there is one.
abbrev pub put_back : {V : Type 0} → V → Option (List V) → Option (List V)
put_back v none = none
put_back v (some vs) = some (v ∷ vs)

unfoldable pub delete : {V : Type 0} → (V → Bool) → List V → Option (List V)
delete test [] = none
delete test (v ∷ vs) = let rest = delete test vs in if test v then some vs else put_back v rest

unfoldable pub find : {V : Type 0} → (V → Bool) → List V → Option V
find test [] = none
find test (v ∷ vs) = let rest = find test vs in if test v then some v else rest

-- The first value that passes is changed.
unfoldable pub change_first : {V : Type 0} → (V → Bool) → (V → V) → List V → List V
change_first test f [] = []
change_first test f (v ∷ vs) =
    let rest = change_first test f vs in if test v then f v ∷ vs else v ∷ rest

module _ {V : Type 0} (compare : V → V → Ordering) where
  -- No value is greater than the next.
  abbrev pub SortedFrom : V → List V → Type 0
  SortedFrom v [] = Unit
  SortedFrom v (w ∷ ws) = (at_most (compare v w) ≡ true) × SortedFrom w ws

  abbrev pub Sorted : List V → Type 0
  Sorted [] = Unit
  Sorted (v ∷ vs) = SortedFrom v vs

  -- What is not less one way round is not greater the other way round.
  abbrev pub Flips : Type 0
  Flips = (a b : V) → at_least (compare a b) ≡ true → at_most (compare b a) ≡ true

  -- One value more, the others in their order.
  abbrev pub Placed : V → List V → List V → Type 0
  Placed x xs ys = (us ws : List V) × (xs ≡ us ++ ws) × (ys ≡ us ++ x ∷ ws)

  append-Placed : (x : V) (v : V) (xs ys : List V) → Placed x xs ys → Placed x (v ∷ xs) (v ∷ ys)
  append-Placed x v xs ys (us, ws, e, f) = (v ∷ us, ws, ap (◌∷◌ v) e, ap (◌∷◌ v) f)

  put_behind-Placed : (x : V) (xs : List V) → Placed x xs (put_behind compare xs x)
  put_behind-Placed x [] = ([], [], refl, refl)
  put_behind-Placed x (w ∷ ws) = elim (Bool-cases (at_most (compare w x))) [
    | inl k ↦ rw k (append-Placed x w ws (put_behind compare ws x) (put_behind-Placed x ws))
    | inr k ↦ rw k ([], w ∷ ws, refl, refl)
  ]

  pub insert-Placed : (x : V) (xs : List V) → Placed x xs (insert compare xs x)
  unfolding insert
  insert-Placed x [] = ([], [], refl, refl)
  insert-Placed x (v ∷ vs) = elim (Bool-cases (at_least (compare v x))) [
    | inl k ↦ rw k ([], v ∷ vs, refl, refl)
    | inr k ↦ elim (Bool-cases (at_most (compare (final v vs) x))) [
      | inl l ↦ rw (k, l) (v ∷ vs, [], ap (◌∷◌ v) (sym (append-nil vs)), refl)
      | inr l ↦ rw (k, l) (append-Placed x v vs (put_behind compare vs x) (put_behind-Placed x vs))
    ]
  ]

  module _ (flips : Flips) where
    at_most-of_lt : (o : Ordering) → at_least o ≡ false → at_most o ≡ true
    at_most-of_lt lt e = refl
    at_most-of_lt eq e = cc
    at_most-of_lt gt e = cc

    at_least-of_gt : (o : Ordering) → at_most o ≡ false → at_least o ≡ true
    at_least-of_gt lt e = cc
    at_least-of_gt eq e = cc
    at_least-of_gt gt e = refl

    SortedFrom-end :
        (v x : V) (vs : List V)
        → SortedFrom v vs
        → at_most (compare (final v vs) x) ≡ true
        → SortedFrom v (vs ++ x ∷ [])
    SortedFrom-end v x [] s e = (e, tt)
    SortedFrom-end v x (w ∷ ws) (o, s) e = (o, SortedFrom-end w x ws s e)

    SortedFrom-behind :
        (v x : V) (vs : List V)
        → SortedFrom v vs
        → at_most (compare v x) ≡ true
        → SortedFrom v (put_behind compare vs x)
    SortedFrom-behind v x [] s e = (e, tt)
    SortedFrom-behind v x (w ∷ ws) (o, s) e = elim (Bool-cases (at_most (compare w x))) [
      | inl k ↦ rw k (o, SortedFrom-behind w x ws s k)
      | inr k ↦ rw k (e, (flips w x (at_least-of_gt (compare w x) k), s))
    ]

    insert_in-Sorted : (x : V) (xs : List V) → Sorted xs → Sorted (insert compare xs x)
    unfolding insert
    insert_in-Sorted x [] s = tt
    insert_in-Sorted x (v ∷ vs) s = elim (Bool-cases (at_least (compare v x))) [
      | inl k ↦ rw k (flips v x k, s)
      | inr k ↦ elim (Bool-cases (at_most (compare (final v vs) x))) [
        | inl l ↦ rw (k, l) (SortedFrom-end v x vs s l)
        | inr l ↦ rw (k, l) (SortedFrom-behind v x vs s (at_most-of_lt (compare v x) k))
      ]
    ]

    -- Where a comparator whose answer is >= 0 answers <= 0 the other way round, insert_to_linked_list puts the
    -- value in one place among those of a sorted list, which stay in their order, and the list stays sorted.
    pub insert-Sorted :
        (x : V) (xs : List V)
        → Sorted xs
        → Sorted (insert compare xs x) × Placed x xs (insert compare xs x)
    insert-Sorted x xs s = (insert_in-Sorted x xs s, insert-Placed x xs)

  Placed-length : (x : V) (xs ys : List V) → Placed x xs ys → length ys ≡ suc (length xs)
  Placed-length x xs ys (us, ws, e, f) =
      rw (e, f) (omega (arith, length-append us ws, length-append us (x ∷ ws)))

module _ {V : Type 0} where
  pub length-insert :
      (compare : V → V → Ordering) (xs : List V) (x : V)
      → length (insert compare xs x) ≡ suc (length xs)
  length-insert compare xs x =
      Placed-length compare x xs (insert compare xs x) (insert-Placed compare x xs)

  pub delete-here :
      (test : V → Bool) (v : V) (vs : List V) → test v ≡ true → delete test (v ∷ vs) ≡ some vs
  unfolding delete
  delete-here test v vs k = rw k refl

  pub delete-there :
      (test : V → Bool) (v : V) (vs : List V)
      → test v ≡ false
      → delete test (v ∷ vs) ≡ put_back v (delete test vs)
  unfolding delete
  delete-there test v vs k = rw k refl

  -- A deletion by its two ways: the first value passes, or it stays and the rest loses one.
  pub delete-cases :
      (test : V → Bool) (v : V) (vs ys : List V)
      → delete test (v ∷ vs) ≡ some ys
      → ((test v ≡ true) × (ys ≡ vs))
        ⊎ ((test v ≡ false) × ((zs : List V) × (delete test vs ≡ some zs) × (ys ≡ v ∷ zs)))
  delete-cases test v vs ys e = elim (Bool-cases (test v)) [
    | inl k ↦ inl (k, some-injective _ _ (sym e ∙ delete-here test v vs k))
    | inr k ↦
        let q = sym e ∙ delete-there test v vs k in
        elim (Option-cases (delete test vs)) [
          | inl n ↦ absurd (some-ne-none ys (q ∙ ap (put_back v) n))
          | inr (zs, z) ↦ inr (k, (zs, z, some-injective _ _ (q ∙ ap (put_back v) z)))
        ]
  ]

  pub length-delete :
      (test : V → Bool) (xs ys : List V) → delete test xs ≡ some ys → length xs ≡ suc (length ys)
  unfolding delete
  length-delete test [] ys e = absurd (some-ne-none ys (sym e))
  length-delete test (v ∷ vs) ys e = elim (delete-cases test v vs ys e) [
    | inl (k, q) ↦ rw q refl
    | inr (k, (zs, z, q)) ↦ rw q (ap suc (length-delete test vs zs z))
  ]

  pub length-change_first :
      (test : V → Bool) (f : V → V) (xs : List V) → length (change_first test f xs) ≡ length xs
  unfolding change_first
  length-change_first test f [] = refl
  length-change_first test f (v ∷ vs) = elim (Bool-cases (test v)) [
    | inl k ↦ rw k refl
    | inr k ↦ rw k (ap suc (length-change_first test f vs))
  ]

  pub change_first-absent :
      (test : V → Bool) (f : V → V) (xs : List V)
      → find test xs ≡ none
      → change_first test f xs ≡ xs
  unfolding change_first find
  change_first-absent test f [] e = refl
  change_first-absent test f (v ∷ vs) e = elim (Bool-cases (test v)) [
    | inl k ↦ let q : find test (v ∷ vs) ≡ some v = rw k refl in absurd (some-ne-none v (sym q ∙ e))
    | inr k ↦
        let q : find test (v ∷ vs) ≡ find test vs = rw k refl in
        rw k (ap (◌∷◌ v) (change_first-absent test f vs (sym q ∙ e)))
  ]
