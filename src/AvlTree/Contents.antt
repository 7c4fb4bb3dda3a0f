-- ===== src/AvlTree/Contents.antt =====
-- What `insert_node`, `remove_min` and `delete_node` do to the multiset of values and to the stored
-- heights, whatever the comparator says.
use eltex_summer.Base.{ℕ, ◌+◌, ◌≡◌, Bool, Ordering, some, arith, if◌then◌else◌}
use mathlib.Core.Path.{subst}
use mathlib.Core.Option.{some-injective}
use eltex_summer.AvlTree.{
  AvlTree, null, node, remove_min, leftmost, insert_node, search_node, replace_node, delete_node,
}
use eltex_summer.AvlTree.Shape.{
  count, size, IsMeasured, count-make_balance, IsMeasured-make_balance, grown-zero,
  size-make_balance,
}
use eltex_summer.AvlTree.Steps.{
  Inserted, insert_node-Inserted, remove_min-left, replace_node-right, Deleted, delete_node-Deleted,
}

abbrev pub bit : Bool → ℕ
bit b = if b then 1 else 0

-- 1 if a search has ended at a node whose value satisfies the test
abbrev pub found {ℓ} : {V : Type ℓ} → (V → Bool) → AvlTree V → ℕ
found p null = 0
found p (node v h l r) = bit (p v)

module _ {V : Type 0} (cmp : V → V → Ordering) where
  -- A successful `insert_node` adds the new value once and keeps all others: for every test, the
  -- number of values that satisfy it grows by 1 if the new value does, and by 0 if it does not.
  pub count-insert_node :
      (p : V → Bool) (t : AvlTree V) (x : V) {t' : AvlTree V}
      → insert_node cmp t x ≡ some t'
      → count p t' ≡ count p t + bit (p x)
  unfolding insert_node
  count-insert_node p null x e = rw (← some-injective _ _ e) (omega arith)
  count-insert_node p (node v h l r) x e = elim (insert_node-Inserted cmp v h l r x e) [
    | Inserted.left l' c a b ↦
        omega (arith, count-insert_node p l x a, count-make_balance p v h l' r b)
    | Inserted.right r' c a b ↦
        omega (arith, count-insert_node p r x a, count-make_balance p v h l r' b)
  ]

  pub size-insert_node :
      (t : AvlTree V) (x : V) {t' : AvlTree V}
      → insert_node cmp t x ≡ some t'
      → size t' ≡ size t + 1
  unfolding insert_node
  size-insert_node null x e = rw (← some-injective _ _ e) (omega arith)
  size-insert_node (node v h l r) x e = elim (insert_node-Inserted cmp v h l r x e) [
    | Inserted.left l' c a b ↦ omega (arith, size-insert_node l x a, size-make_balance v h l' r b)
    | Inserted.right r' c a b ↦ omega (arith, size-insert_node r x a, size-make_balance v h l r' b)
  ]

  -- `insert_node` keeps every stored height what `fix_height` computes from the children.
  pub insert_node-IsMeasured :
      (t : AvlTree V) (x : V) {t' : AvlTree V}
      → insert_node cmp t x ≡ some t'
      → IsMeasured t
      → IsMeasured t'
  unfolding insert_node
  insert_node-IsMeasured null x e m = subst IsMeasured (some-injective _ _ e) (grown-zero, tt, tt)
  insert_node-IsMeasured (node v h l r) x e m = elim (insert_node-Inserted cmp v h l r x e) [
    | Inserted.left l' c a b ↦
        IsMeasured-make_balance v h l' r b (insert_node-IsMeasured l x a m.1) m.2
    | Inserted.right r' c a b ↦
        IsMeasured-make_balance v h l r' b m.1 (insert_node-IsMeasured r x a m.2)
  ]

module _ {V : Type 0} where
  -- `remove_min` takes out the value of the last left child.
  pub count-remove_min :
      (p : V → Bool) (v : V) (h : ℕ) (l r : AvlTree V) {t : AvlTree V}
      → remove_min (node v h l r) ≡ some t
      → count p t + bit (p (leftmost v l)) ≡ count p (node v h l r)
  unfolding remove_min leftmost
  count-remove_min p v h null r e = rw (← some-injective _ _ e) (omega arith)
  count-remove_min p v h (node lv lh ll lr) r e =
      let (l', a, b) = remove_min-left v h lv lh ll lr r e in
      omega (arith, count-remove_min p lv lh ll lr a, count-make_balance p v h l' r b)

  pub remove_min-IsMeasured :
      (v : V) (h : ℕ) (l r : AvlTree V) {t : AvlTree V}
      → remove_min (node v h l r) ≡ some t
      → IsMeasured (node v h l r)
      → IsMeasured t
  unfolding remove_min
  remove_min-IsMeasured v h null r e m = subst IsMeasured (some-injective _ _ e) m.2
  remove_min-IsMeasured v h (node lv lh ll lr) r e m =
      let (l', a, b) = remove_min-left v h lv lh ll lr r e in
      IsMeasured-make_balance v h l' r b (remove_min-IsMeasured lv lh ll lr a m.1) m.2

  count-replace_node :
      (p : V → Bool) (l r : AvlTree V) {t : AvlTree V}
      → replace_node l r ≡ some t
      → count p t ≡ count p l + count p r
  unfolding replace_node
  count-replace_node p l null e = rw (← some-injective _ _ e) (omega arith)
  count-replace_node p l (node rv rh rl rr) e =
      let (rest, a, b) = replace_node-right l rv rh rl rr e in
      omega
        (arith, count-remove_min p rv rh rl rr a, count-make_balance p (leftmost rv rl) rh l rest b)

  replace_node-IsMeasured :
      (l r : AvlTree V) {t : AvlTree V}
      → replace_node l r ≡ some t
      → IsMeasured l
      → IsMeasured r
      → IsMeasured t
  unfolding replace_node
  replace_node-IsMeasured l null e ml mr = subst IsMeasured (some-injective _ _ e) ml
  replace_node-IsMeasured l (node rv rh rl rr) e ml mr =
      let (rest, a, b) = replace_node-right l rv rh rl rr e in
      IsMeasured-make_balance (leftmost rv rl) rh l rest b ml
        (remove_min-IsMeasured rv rh rl rr a mr)

module _ {V K : Type 0} (cmp : V → K → Ordering) where
  -- A successful `delete_node` removes exactly the value at which `search_node` for the same key
  -- ends, and nothing if that search finds nothing.
  pub count-delete_node :
      (p : V → Bool) (t : AvlTree V) (k : K) {t' : AvlTree V}
      → delete_node cmp t k ≡ some t'
      → count p t' + found p (search_node cmp t k) ≡ count p t
  unfolding delete_node search_node
  count-delete_node p null k e = rw (← some-injective _ _ e) (omega arith)
  count-delete_node p (node v h l r) k e = elim (delete_node-Deleted cmp v h l r k e) [
    | Deleted.left l' c a b ↦
        rw (c, search_node)
          (omega (arith, count-delete_node p l k a, count-make_balance p v h l' r b))
    | Deleted.right r' c a b ↦
        rw (c, search_node)
          (omega (arith, count-delete_node p r k a, count-make_balance p v h l r' b))
    | Deleted.here c a ↦ rw (c, search_node) (omega (arith, count-replace_node p l r a))
  ]

  -- `delete_node` keeps every stored height what `fix_height` computes from the children.
  pub delete_node-IsMeasured :
      (t : AvlTree V) (k : K) {t' : AvlTree V}
      → delete_node cmp t k ≡ some t'
      → IsMeasured t
      → IsMeasured t'
  unfolding delete_node
  delete_node-IsMeasured null k e m = subst IsMeasured (some-injective _ _ e) tt
  delete_node-IsMeasured (node v h l r) k e m = elim (delete_node-Deleted cmp v h l r k e) [
    | Deleted.left l' c a b ↦
        IsMeasured-make_balance v h l' r b (delete_node-IsMeasured l k a m.1) m.2
    | Deleted.right r' c a b ↦
        IsMeasured-make_balance v h l r' b m.1 (delete_node-IsMeasured r k a m.2)
    | Deleted.here c a ↦ replace_node-IsMeasured l r a m.1 m.2
  ]
