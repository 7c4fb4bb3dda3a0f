-- ===== src/Text/Width.antt =====
-- How many bytes a number takes in decimal, and texts that fit a buffer.
use eltex_summer.Base.{
  ℕ, zero, suc, ◌+◌, ◌*◌, ◌/◌, ◌%◌, ◌<◌, ◌≤◌, ◌≡◌, refl, ap, [], ◌∷◌, arith, length, take, ltb,
  Bool-cases, inl, inr,
}
use eltex_summer.Base.Int.{ℤ, pos, negsuc, InInt}
use eltex_summer.Text.{Text}
use eltex_summer.Text.Decimal.{decimal, decimal_from, print_int}

abbrev tens : ℕ → ℕ
tens zero = 1
tens (suc k) = 10 * tens k

length-decimal_from :
    (k f n : ℕ) (rest : Text)
    → n < tens (suc k)
    → length (decimal_from f n rest) ≤ suc k + length rest
unfolding decimal_from
length-decimal_from k zero n rest h = omega arith
length-decimal_from zero (suc f) n rest h = elim (Bool-cases (ltb n 10)) [
  | inl e ↦ rw (e, decimal_from) (omega arith)
  | inr e ↦ absurd (ground (arith, h, e))
]
length-decimal_from (suc k) (suc f) n rest h = elim (Bool-cases (ltb n 10)) [
  | inl e ↦ rw (e, decimal_from) (omega arith)
  | inr e ↦
      let ih = length-decimal_from k f (n / 10) ((b'0' + n % 10) ∷ rest) (omega arith) in
      rw (e, decimal_from) (omega (arith, ih))
]

-- A number below 10 ^ 9 has at most nine digits.
pub length-decimal :
    (n : ℕ) (rest : Text) → n < 1000000000 → length (decimal n rest) ≤ 9 + length rest
unfolding decimal
length-decimal n rest h = length-decimal_from 8 (suc n) n rest h

-- An `int` takes at most eleven bytes.
pub length-print_int :
    (z : ℤ) (rest : Text) → InInt z → length (print_int z rest) ≤ 11 + length rest
unfolding print_int decimal
length-print_int (pos n) rest (p, q) =
    let l = length-decimal_from 9 (suc n) n rest (omega arith) in omega (arith, l)
length-print_int (negsuc n) rest (p, q) =
    let l = length-decimal_from 9 (suc (suc n)) (suc n) rest (omega arith) in omega (arith, l)

pub take_all : (n : ℕ) (c : Text) → length c ≤ n → take n c ≡ c
take_all zero [] h = refl
take_all zero (x ∷ c) h = absurd (omega arith)
take_all (suc n) [] h = refl
take_all (suc n) (x ∷ c) h = ap (◌∷◌ x) (take_all n c (omega arith))
