-- ===== src/Heap/Walk.antt =====
-- The loop that goes along a chain while a test holds: where it stops.
use eltex_summer.Base.{
  ℕ, zero, suc, ◌<◌, ◌≡◌, refl, ap, Bool, true, false, some, [], ◌∷◌, ◌++◌, arith, length,
  Bool-cases, inl, inr, ◌⊎◌,
}
use eltex_summer.Heap.{Ptr, null, node, Heap, walk}
use eltex_summer.Heap.Chain.{Cells, first, Chain, load-eq}

module _ {V : Type 0} (keep : V → Bool) where
  abbrev pub AllKeep : Cells V → Type 0
  AllKeep [] = Unit
  AllKeep ((a, v) ∷ xs) = (keep v ≡ true) × AllKeep xs

  -- Every value passes the test, or there is a first that fails it.
  pub first_failing :
      (xs : Cells V)
      → AllKeep xs
        ⊎ ((us : Cells V) × (n : Ptr) × (x : V) × (ws : Cells V) × (xs ≡ us ++ (n, x) ∷ ws)
            × AllKeep us
            × (keep x ≡ false))
  first_failing [] = inl tt
  first_failing ((a, v) ∷ xs) = elim (Bool-cases (keep v)) [
    | inr e ↦ inr ([], a, v, xs, refl, tt, e)
    | inl e ↦ elim (first_failing xs) [
      | inl all ↦ inl (e, all)
      | inr (us, n, x, ws, q, all, f) ↦ inr ((a, v) ∷ us, n, x, ws, ap (◌∷◌ (a, v)) q, (e, all), f)
    ]
  ]

  -- With more fuel than nodes the loop ends at NULL, or at the first node that fails the test.
  pub walk-null :
      (f : ℕ) (h : Heap V) (start : Ptr) (xs : Cells V)
      → Chain h start null xs
      → AllKeep xs
      → length xs < f
      → walk f h keep (first null xs) ≡ some null
  unfolding walk
  walk-null zero h start xs c k l = elim l [ ]
  walk-null (suc f) h start [] c k l = refl
  walk-null (suc f) h start ((a, v) ∷ xs) (n, e, o, c) (k, all) l =
      rw (n, load-eq h a (node v (first null xs) start) n e, k)
        (walk-null f h a xs c all (omega arith))

  pub walk-first_failing :
      (f : ℕ) (h : Heap V) (start : Ptr) (us : Cells V) (n : Ptr) (x : V) (ws : Cells V)
      → Chain h start null (us ++ (n, x) ∷ ws)
      → AllKeep us
      → keep x ≡ false
      → length (us ++ (n, x) ∷ ws) < f
      → walk f h keep (first null (us ++ (n, x) ∷ ws)) ≡ some n
  unfolding walk
  walk-first_failing zero h start us n x ws c k e l = elim l [ ]
  walk-first_failing (suc f) h start [] n x ws (nn, q, o, c) k e l =
      rw (nn, load-eq h n (node x (first null ws) start) nn q, e) refl
  walk-first_failing (suc f) h start ((a, v) ∷ us) n x ws (nn, q, o, c) (k, all) e l =
      rw (nn, load-eq h a (node v (first null (us ++ (n, x) ∷ ws)) start) nn q, k)
        (walk-first_failing f h a us n x ws c all e (omega arith))
