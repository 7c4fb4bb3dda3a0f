-- ===== src/Heap/Frees.antt =====
-- The loop that gives a chain of nodes back.
use eltex_summer.Base.{
  ℕ, zero, suc, ◌<◌, ◌≡◌, refl, ◌∙◌, none, [], ◌∷◌, ◌==◌, arith, length, if◌then◌else◌, Bool-cases,
  inl, inr,
}
use eltex_summer.Heap.{Ptr, null, node, Heap, write, free_all}
use eltex_summer.Heap.Chain.{
  Cells, Gives, gives, mono, has, first, Chain, load-eq, free-eq, frame-write,
}

module _ {V : Type 0} where
  -- The nodes of the chain are gone, and no other.
  abbrev pub Freed : Cells V → Heap V → Heap V → Type 0
  Freed xs h g = (a : Ptr) → g a ≡ (if has a xs then none else h a)

  Freed-cons :
      (h g : Heap V) (p : Ptr) (v : V) (xs : Cells V)
      → Freed xs (write h p none) g
      → Freed ((p, v) ∷ xs) h g
  unfolding write
  Freed-cons h g p v xs e a = e a ∙ (elim (Bool-cases (a == p)) [
    | inl q ↦ elim (Bool-cases (has a xs)) [ inl i ↦ rw (q, i) refl | inr i ↦ rw (q, i) refl ]
    | inr q ↦ rw q refl
  ])

  -- On a chain of nodes that ends at NULL, with more fuel than nodes, the loop gives back each node, reads none
  -- after that, and leaves every other address as it is.
  pub free_all-Freed :
      (f : ℕ) (h : Heap V) (start : Ptr) (xs : Cells V)
      → Chain h start null xs
      → length xs < f
      → Gives (Freed xs h) (free_all f h (first null xs))
  unfolding free_all
  free_all-Freed zero h start xs c l = elim l [ ]
  free_all-Freed (suc f) h start [] c l = gives (λ a. refl)
  free_all-Freed (suc f) h start ((p, v) ∷ xs) (n, e, o, c) l =
      let cell = node v (first null xs) start in
      let c1 = frame-write h p null xs p none o c in
      rw (n, load-eq h p cell n e, free-eq h p cell n e)
        (mono (free_all-Freed f (write h p none) p xs c1 (omega arith))
          (λ g d. Freed-cons h g p v xs d))
