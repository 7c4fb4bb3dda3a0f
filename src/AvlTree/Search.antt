-- ===== src/AvlTree/Search.antt =====
-- `search_node` and `delete_node` by a number that the values carry.
use eltex_summer.Base.{
  ℕ, ◌+◌, ◌≤◌, ◌<◌, ◌≡◌, refl, Bool, Ordering, compare, some, arith, ◌==◌, if◌then◌else◌, true, inl,
  inr, sym, ◌∙◌,
}
use mathlib.Core.Path.{subst}
use mathlib.Core.Option.{some-injective}
use eltex_summer.AvlTree.{AvlTree, null, node, search_node, delete_node}
use eltex_summer.AvlTree.Shape.{count}
use eltex_summer.AvlTree.Steps.{Ordering-cases, Deleted, delete_node-Deleted}
use eltex_summer.AvlTree.Contents.{found, count-delete_node}
use eltex_summer.AvlTree.Order.{
  All, All-make_balance, All-replace_node, IsOrdered, IsOrdered-make_balance,
  replace_node-IsOrdered,
}

module _ {V : Type 0} (key : V → ℕ) where
  abbrev pub has_key : ℕ → V → Bool
  has_key k x = key x == k

  -- 1 if some value has the key
  abbrev pub present : ℕ → AvlTree V → ℕ
  present k t = if count (has_key k) t == 0 then 0 else 1

module _ {V : Type 0} (key : V → ℕ) (cmp : V → ℕ → Ordering)
    (by_key : (x : V) (k : ℕ) → cmp x k ≡ compare (key x) k) where
  All-delete_node :
      (P : V → Type 0) (t : AvlTree V) (k : ℕ) {t' : AvlTree V}
      → delete_node cmp t k ≡ some t'
      → All P t
      → All P t'
  unfolding delete_node
  All-delete_node P null k e a = subst (All P) (some-injective _ _ e) a
  All-delete_node P (node v h l r) k e a = elim (delete_node-Deleted cmp v h l r k e) [
    | Deleted.left l' c q b ↦ All-make_balance P v h l' r b a.0 (All-delete_node P l k q a.1) a.2
    | Deleted.right r' c q b ↦ All-make_balance P v h l r' b a.0 a.1 (All-delete_node P r k q a.2)
    | Deleted.here c q ↦ All-replace_node P l r q a.1 a.2
  ]

  -- `delete_node` keeps the search order.
  pub delete_node-IsOrdered :
      (t : AvlTree V) (k : ℕ) {t' : AvlTree V}
      → delete_node cmp t k ≡ some t'
      → IsOrdered key t
      → IsOrdered key t'
  unfolding delete_node
  delete_node-IsOrdered null k e o = subst (IsOrdered key) (some-injective _ _ e) o
  delete_node-IsOrdered (node v h l r) k e o = elim (delete_node-Deleted cmp v h l r k e) [
    | Deleted.left l' c q b ↦
        IsOrdered-make_balance key v h l' r b (
          All-delete_node (λ x. key v ≤ key x) l k q o.0,
          o.1,
          delete_node-IsOrdered l k q o.2,
          o.3,
        )
    | Deleted.right r' c q b ↦
        IsOrdered-make_balance key v h l r' b (
          o.0,
          All-delete_node (λ x. key x ≤ key v) r k q o.1,
          o.2,
          delete_node-IsOrdered r k q o.3,
        )
    | Deleted.here c q ↦ replace_node-IsOrdered key v l r q o
  ]

  count-zero_below :
      (t : AvlTree V) (b k : ℕ) → All (λ x. key x ≤ b) t → b < k → count (has_key key k) t ≡ 0
  count-zero_below null b k a h = refl
  count-zero_below (node v hh l r) b k a h =
      ground (arith, count-zero_below l b k a.1 h, count-zero_below r b k a.2 h)

  count-zero_above :
      (t : AvlTree V) (b k : ℕ) → All (λ x. b ≤ key x) t → k < b → count (has_key key k) t ≡ 0
  count-zero_above null b k a h = refl
  count-zero_above (node v hh l r) b k a h =
      ground (arith, count-zero_above l b k a.1 h, count-zero_above r b k a.2 h)

  -- In an ordered tree the search ends at a node exactly when some value has the key, and then at
  -- one that has it.
  pub search_node-found :
      (t : AvlTree V) (k : ℕ)
      → IsOrdered key t
      → (found (λ _. true) (search_node cmp t k) ≡ present key k t)
        × (found (has_key key k) (search_node cmp t k) ≡ present key k t)
  unfolding search_node
  search_node-found null k o = (refl, refl)
  search_node-found (node v h l r) k o = elim (Ordering-cases (compare (key v) k)) [
    | inl c ↦
        rw (by_key v k, c, search_node)
          (ground (arith, search_node-found l k o.2, count-zero_below r (key v) k o.1))
    | inr (inl c) ↦ rw (by_key v k, c, search_node) (ground arith)
    | inr (inr c) ↦
        rw (by_key v k, c, search_node)
          (ground (arith, search_node-found r k o.3, count-zero_above l (key v) k o.0))
  ]

  found-key :
      (s : AvlTree V) (j k : ℕ)
      → found (λ _. true) s ≡ found (has_key key k) s
      → found (has_key key j) s ≡ (if j == k then found (has_key key k) s else 0)
  found-key null j k e = ground arith
  found-key (node v h l r) j k e = ground arith

  -- A successful `delete_node` of an ordered tree takes away one value with the key if there is one,
  -- and changes the number of values with another key not at all.
  pub delete_node-present :
      (t : AvlTree V) (k j : ℕ) {t' : AvlTree V}
      → delete_node cmp t k ≡ some t'
      → IsOrdered key t
      → count (has_key key j) t' + (if j == k then present key k t else 0) ≡ count (has_key key j) t
  delete_node-present t k j e o =
      let s = search_node cmp t k in
      let (ended, holds) = search_node-found t k o in
      let q : found (has_key key j) s ≡ (if j == k then found (has_key key k) s else 0) =
        found-key s j k (ended ∙ sym holds) in
      ground (arith, count-delete_node cmp (has_key key j) t k e, q, holds)
