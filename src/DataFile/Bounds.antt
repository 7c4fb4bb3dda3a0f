-- ===== src/DataFile/Bounds.antt =====
-- The lines that the producer generates are short.
use eltex_summer.Base.{
  ℕ, zero, suc, ◌+◌, ◌*◌, ◌/◌, ◌%◌, ◌≤◌, ◌<◌, ◌≡◌, refl, ap, true, List, [], ◌∷◌, length,
  length-append, ltb, arith, Bool-cases, inl, inr,
}
use eltex_summer.Text.Decimal.{decimal, decimal_from, print_int}
use eltex_summer.DataFile.{max_numbers, random_numbers, generate_data, line_text}
use eltex_summer.DataFile.Sharing.{Fits}

length-decimal : (n : ℕ) → n < 100 → length (decimal n []) ≤ 2
unfolding decimal decimal_from
length-decimal zero h = omega arith
length-decimal (suc m) h = elim (Bool-cases (ltb (suc m) 10)) [
  | inl e ↦ rw (e, length) (omega arith)
  | inr e ↦ let q : ltb (suc m / 10) 10 ≡ true = ground arith in rw (e, q, length) (omega arith)
]

length-random_numbers : (n : ℕ) (rs : List ℕ) → n ≤ length rs → length (random_numbers n rs) ≡ n
unfolding random_numbers
length-random_numbers zero rs h = refl
length-random_numbers (suc n) [] h = absurd (omega arith)
length-random_numbers (suc n) (r ∷ rs) h = ap suc (length-random_numbers n rs (omega arith))

short_line : (n : ℕ) (rs : List ℕ) → length (line_text (random_numbers n rs)) ≤ 3 * n
unfolding line_text random_numbers print_int
short_line zero rs = omega arith
short_line (suc n) [] = omega arith
short_line (suc zero) (r ∷ rs) = let d = length-decimal (r % 100) (omega arith) in omega (arith, d)
short_line (suc (suc n)) (r ∷ []) =
    let d = length-decimal (r % 100) (omega arith) in omega (arith, d)
short_line (suc (suc n)) (r ∷ t ∷ rs) =
    let d = length-decimal (r % 100) (omega arith) in
    let ih = short_line (suc n) (t ∷ rs) in
    omega (
      arith,
      d,
      ih,
      length-append (decimal (r % 100) []) (32 ∷ line_text (random_numbers (suc n) (t ∷ rs))),
    )

-- Whatever `rand` returns, for the count and for as many numbers as a line can have, a generated line has
-- between 1 and 20 numbers and at most 60 bytes, so that it is written, and fits the reader's buffer.
pub generate_data-Fits :
    (r : ℕ) (rs : List ℕ)
    → max_numbers ≤ length rs
    → Fits (generate_data r rs) × (length (line_text (generate_data r rs)) ≤ 60)
unfolding generate_data
generate_data-Fits r rs h =
    let n = length-random_numbers (r % max_numbers + 1) rs (omega arith) in
    let s = short_line (r % max_numbers + 1) rs in
    ((omega (arith, n), omega (arith, n), omega (arith, s)), omega (arith, s))
