-- ===== src/Subnet/Bits/Step.antt =====
-- One equation for the lowest binary digit of `&` and of `|` on native numbers. The library defines
-- both by a count of digits to go; a greater count gives the same.
use Prim.Native.Nat.{min, max, digits, bitwise, bit_and, bit_or, bit_and-bitwise, bit_or-bitwise}
use eltex_summer.Base.{
  ℕ, zero, suc, ◌+◌, ◌*◌, ◌/◌, ◌%◌, ◌≤◌, ◌≡◌, refl, ap, ◌∙◌, leb, Bool-cases, inl, inr, arith,
}

module _ (end : ℕ → ℕ) (op : ℕ → ℕ → ℕ) where
  one_more : (count a b : ℕ) → a ≤ count → digits end op (suc count) a b ≡ digits end op count a b
  one_more zero zero b h = refl
  one_more zero (suc a) b h = absurd (omega arith)
  one_more (suc count) zero b h = refl
  one_more (suc count) (suc a) b h =
      ap (λ (x : ℕ). x * 2 + op (suc a % 2) (b % 2))
        (one_more count (suc a / 2) (b / 2) (omega arith))

  any_more :
      (more count a b : ℕ)
      → a ≤ count
      → count ≤ more
      → digits end op more a b ≡ digits end op count a b
  any_more zero count a b h k =
      let e : 0 ≡ count = omega arith in ap (λ (n : ℕ). digits end op n a b) e
  any_more (suc more) count a b h k = elim (Bool-cases (leb count more)) [
    | inl e ↦
        let l : count ≤ more = ground arith in
        one_more more a b (omega arith) ∙ any_more more count a b h l
    | inr e ↦ let l : suc more ≡ count = ground arith in ap (λ (n : ℕ). digits end op n a b) l
  ]

  bitwise-lowest :
      (a b : ℕ)
      → bitwise end op (suc a) b ≡ bitwise end op (suc a / 2) (b / 2) * 2 + op (suc a % 2) (b % 2)
  bitwise-lowest a b =
      ap (λ (x : ℕ). x * 2 + op (suc a % 2) (b % 2))
        (any_more a (suc a / 2) (suc a / 2) (b / 2) (omega arith) (omega arith))

pub bit_or-lowest : (a b : ℕ) → bit_or a b ≡ bit_or (a / 2) (b / 2) * 2 + max (a % 2) (b % 2)
bit_or-lowest zero b = simp bit_or-bitwise (omega arith)
bit_or-lowest (suc a) b = simp bit_or-bitwise (bitwise-lowest (λ y. y) max a b)

pub bit_and-lowest : (a b : ℕ) → bit_and a b ≡ bit_and (a / 2) (b / 2) * 2 + min (a % 2) (b % 2)
bit_and-lowest zero b = simp bit_and-bitwise (omega arith)
bit_and-lowest (suc a) b = simp bit_and-bitwise (bitwise-lowest (λ y. 0) min a b)
