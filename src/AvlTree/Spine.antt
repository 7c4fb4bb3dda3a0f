-- ===== src/AvlTree/Spine.antt =====
-- What becomes of values that arrive in ascending order, as contacts do, whose numbers count up.
-- Each goes to the left of all others, and no rotation ever shortens the left side.
use eltex_summer.Base.{
  ℕ, suc, ◌<◌, ◌≡◌, refl, true, false, Ordering, gt, none, some, arith, List, [], ◌∷◌, ◌++◌, length,
  length-append, ap,
}
use eltex_summer.AvlTree.{AvlTree, null, node, height, grown, make_balance, insert_node}
use eltex_summer.AvlTree.Shape.{leans_right, make_balance-null}

module _ {V : Type 0} where
  -- The values from the root down, each the left child of the one before.
  abbrev pub spine : List V → AvlTree V
  spine [] = null
  spine (v ∷ vs) = node v (length (v ∷ vs)) (spine vs) null

  pub height-spine : (vs : List V) → height (spine vs) ≡ length vs
  height-spine [] = refl
  height-spine (v ∷ vs) = refl

pub grown-spine : (n : ℕ) → n < 255 → grown n 0 ≡ suc n
unfolding grown
grown-spine n h = ground arith

module _ {V : Type 0} where
  pub make_balance-spine :
      (v : V) (h : ℕ) (vs : List V)
      → length vs < 254
      → make_balance (node v h (spine vs) null) ≡ some (spine (v ∷ vs))
  make_balance-spine v h vs b =
      let e : leans_right (spine vs) null ≡ false = rw height-spine (ground arith) in
      rw (make_balance-null, e, height-spine)
        (ap (λ (k : ℕ). some (node v k (spine vs) null)) (grown-spine (length vs) (omega arith)))

module _ {V : Type 0} (cmp : V → V → Ordering) where
  -- The value compares greater than each on the list.
  abbrev pub IsAbove : V → List V → Type 0
  IsAbove x [] = Unit
  IsAbove x (v ∷ vs) = (cmp x v ≡ gt) × IsAbove x vs

  -- A value greater than all in a left spine of fewer than 254 nodes is hung at its end: the tree
  -- stays a spine, and its height is the number of its nodes.
  pub insert_node-spine :
      (vs : List V) (x : V)
      → IsAbove x vs
      → length vs < 254
      → insert_node cmp (spine vs) x ≡ some (spine (vs ++ x ∷ []))
  unfolding insert_node
  insert_node-spine [] x a b = refl
  insert_node-spine (v ∷ vs) x a b =
      rw (a.0, insert_node, insert_node-spine vs x a.1 (omega arith))
        (make_balance-spine v _ (vs ++ x ∷ []) (omega (arith, length-append vs (x ∷ []))))

  -- Inserting a value greater than all in a left spine of 254 nodes reads through NULL.
  pub insert_node-spine_fault :
      (vs : List V) (x : V) → IsAbove x vs → length vs ≡ 254 → insert_node cmp (spine vs) x ≡ none
  unfolding insert_node
  insert_node-spine_fault [] x a b = absurd (omega arith)
  insert_node-spine_fault (v ∷ vs) x a b =
      let n = length-append vs (x ∷ []) in
      let e : leans_right (spine (vs ++ x ∷ [])) null ≡ true =
        rw height-spine (ground (arith, n)) in
      rw (a.0, insert_node, insert_node-spine vs x a.1 (omega arith)) (rw (make_balance-null, e))
