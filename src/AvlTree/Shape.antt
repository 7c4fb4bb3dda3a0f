-- ===== src/AvlTree/Shape.antt =====
-- The nodes of a tree as a multiset, and the heights that the nodes store.
use eltex_summer.Base.{
  ℕ, suc, ◌+◌, ◌-◌, ◌≤◌, ◌<◌, ◌≡◌, refl, Bool, true, false, some, none, arith, if◌then◌else◌, ◌==◌,
  sym, ◌∙◌,
}
use mathlib.Core.Path.{subst}
use mathlib.Core.Option.{some-injective}
use eltex_summer.Base.Int.{pos, negsuc, ltb_ℤ, eqb_ℤ}
use eltex_summer.AvlTree.{AvlTree, null, node, height, u8, grown, make_balance}

-- `fix_height` stores one more than the greater height, where that fits.
pub grown-eq-max :
    (a b : ℕ) → a < 255 → b < 255 → (a < grown a b) × (b < grown a b) × (grown a b ≤ suc (a + b))
unfolding grown
grown-eq-max a b ha hb = ground arith

pub grown-zero : 1 ≡ grown 0 0
unfolding grown
grown-zero = refl

pub grown-le : (a b : ℕ) → grown a b ≤ suc (a + b)
unfolding grown
grown-le a b = ground arith

-- The tests of `make_balance`: a promoted `unsigned char` is never negative.
pub pos-eq-two : (b : ℕ) → eqb_ℤ (pos b) (pos 2) ≡ (b == 2)
pos-eq-two b = ground arith

pub pos-ne-minus_two : (b : ℕ) → eqb_ℤ (pos b) (negsuc 1) ≡ false
pos-ne-minus_two b = ground arith

pos-nonneg : (b : ℕ) → ltb_ℤ (pos b) (pos 0) ≡ false
pos-nonneg b = ground arith

module _ {ℓ} {V : Type ℓ} where
  -- How many values satisfy a test. The counts for all tests determine the multiset.
  abbrev pub count : (V → Bool) → AvlTree V → ℕ
  count p null = 0
  count p (node v h l r) = (if p v then 1 else 0) + count p l + count p r

  abbrev pub size : AvlTree V → ℕ
  size null = 0
  size (node v h l r) = suc (size l + size r)

  -- Each node stores the height that `fix_height` computes from its children.
  abbrev pub IsMeasured : AvlTree V → Type 0
  IsMeasured null = Unit
  IsMeasured (node v h l r) = (h ≡ grown (height l) (height r)) × IsMeasured l × IsMeasured r

  pub height-le-size : (t : AvlTree V) → IsMeasured t → height t ≤ size t
  height-le-size null m = omega arith
  height-le-size (node v h l r) m =
      omega (arith, height-le-size l m.1, height-le-size r m.2, grown-le (height l) (height r))

  -- A node with the height that its children give it.
  abbrev pub fixed : V → AvlTree V → AvlTree V → AvlTree V
  fixed v l r = node v (grown (height l) (height r)) l r

  -- What `bFactor` is compared with: the right height less the left one, modulo 256.
  abbrev pub leans_right : AvlTree V → AvlTree V → Bool
  leans_right l r = u8 (height r + 256 - height l) == 2

  module _ (v : V) (h : ℕ) (l : AvlTree V) where
    pub make_balance-null :
        make_balance (node v h l null)
        ≡ (if leans_right l null then none else some (fixed v l null))
    unfolding make_balance
    make_balance-null = simp (pos-eq-two, pos-ne-minus_two)

    pub make_balance-node :
        (rv : V) (rh : ℕ) (rl rr : AvlTree V)
        → let r = node rv rh rl rr in
          make_balance (node v h l r)
          ≡ (if leans_right l r then some (fixed rv (fixed v l rl) rr) else some (fixed v l r))
    unfolding make_balance
    make_balance-node rv rh rl rr = simp (pos-eq-two, pos-ne-minus_two, pos-nonneg)

  from_if {κ} :
      (P : AvlTree V → Type κ) (b : Bool) {x y t : AvlTree V}
      → (if b then some x else some y) ≡ some t
      → P x
      → P y
      → P t
  from_if P true e px py = subst P (some-injective _ _ e) px
  from_if P false e px py = subst P (some-injective _ _ e) py

  from_guard {κ} :
      (P : AvlTree V → Type κ) (b : Bool) {y t : AvlTree V}
      → (if b then none else some y) ≡ some t
      → P y
      → P t
  from_guard P true e py = absurd (cc)
  from_guard P false e py = subst P (some-injective _ _ e) py

  -- What the two possible results of `make_balance` satisfy, its result satisfies.
  pub make_balance_ind {κ} :
      (P : AvlTree V → Type κ) (v : V) (h : ℕ) (l r : AvlTree V) {t : AvlTree V}
      → make_balance (node v h l r) ≡ some t
      → P (fixed v l r)
      → ((rv : V) (rh : ℕ) (rl rr : AvlTree V)
          → r ≡ node rv rh rl rr
          → P (fixed rv (fixed v l rl) rr))
      → P t
  make_balance_ind P v h l null e pf pr =
      from_guard P (leans_right l null) (sym (make_balance-null v h l) ∙ e) pf
  make_balance_ind P v h l (node rv rh rl rr) e pf pr =
      from_if P (leans_right l (node rv rh rl rr)) (sym (make_balance-node v h l rv rh rl rr) ∙ e)
        (pr rv rh rl rr refl) pf

  pub count-make_balance :
      (p : V → Bool) (v : V) (h : ℕ) (l r : AvlTree V) {t : AvlTree V}
      → make_balance (node v h l r) ≡ some t
      → count p t ≡ (if p v then 1 else 0) + count p l + count p r
  count-make_balance p v h l r e =
      make_balance_ind (λ t. count p t ≡ (if p v then 1 else 0) + count p l + count p r) v h l r e
        refl λ rv rh rl rr q. rw q (omega arith)

  pub size-make_balance :
      (v : V) (h : ℕ) (l r : AvlTree V) {t : AvlTree V}
      → make_balance (node v h l r) ≡ some t
      → size t ≡ suc (size l + size r)
  size-make_balance v h l r e =
      make_balance_ind (λ t. size t ≡ suc (size l + size r)) v h l r e refl
        λ rv rh rl rr q. rw q (omega arith)

  pub IsMeasured-make_balance :
      (v : V) (h : ℕ) (l r : AvlTree V) {t : AvlTree V}
      → make_balance (node v h l r) ≡ some t
      → IsMeasured l
      → IsMeasured r
      → IsMeasured t
  IsMeasured-make_balance v h l r e ml mr =
      make_balance_ind IsMeasured v h l r e (refl, ml, mr)
        λ rv rh rl rr q. let m = subst IsMeasured q mr in (refl, (refl, ml, m.1), m.2)
