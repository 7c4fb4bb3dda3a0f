-- ===== src/Text/Scan.antt =====
-- `sscanf` with `%d`: a number at the front of a text, and what follows it.
use eltex_summer.Base.{
  ℕ, zero, suc, ◌+◌, ◌-◌, ◌*◌, ◌/◌, ◌%◌, ◌<◌, ◌≡◌, refl, Bool, true, false, Option, none, some, [],
  ◌∷◌, arith, ltb, ◌==◌, if◌then◌else◌, ◌∙◌, Bool-cases, inl, inr, ap,
}
use eltex_summer.Base.Int.{ℤ, pos, negsuc, sub_ℕ}
use eltex_summer.Text.{Text}
use eltex_summer.Text.Decimal.{
  is_digit, is_space, decimal, decimal_from, print_int, NoDigit, head-decimal_from,
}

unfoldable pub scan_digits : ℕ → Text → ℕ × Text
scan_digits a [] = (a, [])
scan_digits a (c ∷ s) =
    let rest = scan_digits (a * 10 + (c - b'0')) s in if is_digit c then rest else (a, c ∷ s)

abbrev positive : ℕ × Text → Option (ℤ × Text)
positive (n, s) = some (pos n, s)

abbrev negative : ℕ × Text → Option (ℤ × Text)
negative (n, s) = some (sub_ℕ 0 n, s)

abbrev starts_with_digit : Text → Bool
starts_with_digit [] = false
starts_with_digit (c ∷ s) = is_digit c

unfoldable pub scan_signed : Text → Option (ℤ × Text)
unfolding scan_digits
scan_signed [] = none
scan_signed (c ∷ s) =
    if c == b'-'
    then (if starts_with_digit s then negative (scan_digits 0 s) else none)
    else if c == b'+'
    then (if starts_with_digit s then positive (scan_digits 0 s) else none)
    else if is_digit c
    then positive (scan_digits 0 (c ∷ s))
    else none

-- `none` where no number is there; a value outside of `int`, which C leaves undefined, is given as it is.
unfoldable pub scan_int : Text → Option (ℤ × Text)
unfolding scan_signed
scan_int [] = none
scan_int (c ∷ s) = let rest = scan_int s in if is_space c then rest else scan_signed (c ∷ s)

scan_digits-stop : (a : ℕ) (rest : Text) → NoDigit rest → scan_digits a rest ≡ (a, rest)
unfolding scan_digits
scan_digits-stop a [] h = refl
scan_digits-stop a (c ∷ s) h = rw h refl

scan_digits-digit :
    (a d : ℕ) (rest : Text)
    → d < 10
    → scan_digits a ((b'0' + d) ∷ rest) ≡ scan_digits (a * 10 + d) rest
unfolding scan_digits
scan_digits-digit a d rest h =
    let e : is_digit (b'0' + d) ≡ true = ground arith in
    let q : b'0' + d - b'0' ≡ d = omega arith in rw (e, q) refl

scan_digits-decimal_from :
    (f n : ℕ) (rest : Text) → n < f → scan_digits 0 (decimal_from f n rest) ≡ scan_digits n rest
unfolding decimal_from
scan_digits-decimal_from zero n rest h = absurd (omega arith)
scan_digits-decimal_from (suc f) n rest h = elim (Bool-cases (ltb n 10)) [
  | inl e ↦
      rw (e, decimal_from)
        (scan_digits-digit 0 n rest (ground arith)
          ∙ ap (λ (k : ℕ). scan_digits k rest) (omega arith))
  | inr e ↦
      rw (e, decimal_from)
        (scan_digits-decimal_from f (n / 10) ((b'0' + n % 10) ∷ rest) (ground arith)
          ∙ scan_digits-digit (n / 10) (n % 10) rest (omega arith)
          ∙ ap (λ (k : ℕ). scan_digits k rest) (omega arith))
]

scan_digits-decimal :
    (n : ℕ) (rest : Text) → NoDigit rest → scan_digits 0 (decimal n rest) ≡ (n, rest)
unfolding decimal
scan_digits-decimal n rest h =
    scan_digits-decimal_from (suc n) n rest (omega arith) ∙ scan_digits-stop n rest h

scan_int-digit :
    (c : ℕ) (s : Text) → is_digit c ≡ true → scan_int (c ∷ s) ≡ positive (scan_digits 0 (c ∷ s))
unfolding scan_int scan_signed
scan_int-digit c s h =
    let sp : is_space c ≡ false = ground arith in
    let minus : (c == b'-') ≡ false = ground arith in
    let plus : (c == b'+') ≡ false = ground arith in rw (sp, minus, plus, h) refl

scan_int-minus :
    (s : Text) → starts_with_digit s ≡ true → scan_int (b'-' ∷ s) ≡ negative (scan_digits 0 s)
unfolding scan_int scan_signed
scan_int-minus s h = rw h refl

-- A number that was printed is read back, and the text goes on behind it, where no digit follows.
pub scan_int-print_int :
    (z : ℤ) (rest : Text) → NoDigit rest → scan_int (print_int z rest) ≡ some (z, rest)
unfolding print_int decimal
scan_int-print_int (pos n) rest h =
    let (c, s, q, d) = head-decimal_from (suc n) n rest (omega arith) in
    rw q (scan_int-digit c s d ∙ ap positive (rw q at (scan_digits-decimal n rest h)))
scan_int-print_int (negsuc n) rest h =
    let (c, s, q, d) = head-decimal_from (suc (suc n)) (suc n) rest (omega arith) in
    let e : starts_with_digit (decimal (suc n) rest) ≡ true = rw q d in
    scan_int-minus (decimal (suc n) rest) e
    ∙ ap negative (scan_digits-decimal (suc n) rest h)
    ∙ ground arith
