-- ===== src/Text/Decimal.antt =====
-- Numbers as decimal text: `printf("%d", n)` and `atoi`.
use eltex_summer.Base.{
  ℕ, zero, suc, ◌+◌, ◌-◌, ◌*◌, ◌/◌, ◌%◌, ◌<◌, ◌≡◌, refl, Bool, true, false, [], ◌∷◌, ◌++◌, arith,
  ltb, leb, ◌==◌, ◌&&◌, ◌||◌, if◌then◌else◌, ◌∙◌, Bool-cases, ap, inl, inr,
}
use eltex_summer.Base.Int.{ℤ, pos, negsuc, sub_ℕ}
use eltex_summer.Text.{Text}

abbrev pub is_digit : ℕ → Bool
is_digit c = leb b'0' c && leb c b'9'

-- `isspace`: blank, tab, newline, vertical tab, form feed, carriage return.
abbrev pub is_space : ℕ → Bool
is_space c = (c == 32) || (leb 9 c && leb c 13)

-- The digits of `n`, most significant first, before `rest`. The fuel is a bound on the digits.
unfoldable pub decimal_from : ℕ → ℕ → Text → Text
decimal_from zero n rest = rest
decimal_from (suc f) n rest = elim (ltb n 10) [
  | true ↦ (b'0' + n) ∷ rest
  | false ↦ decimal_from f (n / 10) ((b'0' + n % 10) ∷ rest)
]

unfoldable pub decimal : ℕ → Text → Text
unfolding decimal_from
decimal n rest = decimal_from (suc n) n rest

-- `%d`, before `rest`.
unfoldable pub print_int : ℤ → Text → Text
unfolding decimal
print_int (pos n) rest = decimal n rest
print_int (negsuc n) rest = b'-' ∷ decimal (suc n) rest

-- The value of the digits at the front, after a number already read.
unfoldable pub digits_from : ℕ → Text → ℕ
digits_from a [] = a
digits_from a (c ∷ s) =
    let rest = digits_from (a * 10 + (c - b'0')) s in if is_digit c then rest else a

unfoldable pub signed_from : Text → ℤ
unfolding digits_from
signed_from [] = pos 0
signed_from (c ∷ s) =
    if c == b'-'
    then sub_ℕ 0 (digits_from 0 s)
    else (if c == b'+' then pos (digits_from 0 s) else pos (digits_from 0 (c ∷ s)))

-- `atoi`: blanks, a sign, digits; no digits read as 0. A value outside of `int`, which C leaves
-- undefined, is given as it is.
unfoldable pub atoi : Text → ℤ
unfolding signed_from
atoi [] = pos 0
atoi (c ∷ s) = let rest = atoi s in if is_space c then rest else signed_from (c ∷ s)

-- The text does not go on with a digit.
abbrev pub NoDigit : Text → Type 0
NoDigit [] = Unit
NoDigit (c ∷ s) = is_digit c ≡ false

digits_from-stop : (a : ℕ) (rest : Text) → NoDigit rest → digits_from a rest ≡ a
unfolding digits_from
digits_from-stop a [] h = refl
digits_from-stop a (c ∷ s) h = rw h

digits_from-digit :
    (a d : ℕ) (rest : Text)
    → d < 10
    → digits_from a ((b'0' + d) ∷ rest) ≡ digits_from (a * 10 + d) rest
unfolding digits_from
digits_from-digit a d rest h =
    let e : is_digit (b'0' + d) ≡ true = ground arith in
    let q : b'0' + d - b'0' ≡ d = omega arith in rw (e, q)

digits_from-decimal_from :
    (f n : ℕ) (rest : Text) → n < f → digits_from 0 (decimal_from f n rest) ≡ digits_from n rest
unfolding decimal_from
digits_from-decimal_from zero n rest h = absurd (omega arith)
digits_from-decimal_from (suc f) n rest h = elim (Bool-cases (ltb n 10)) [
  | inl e ↦
      rw (e, decimal_from)
        (digits_from-digit 0 n rest (ground arith)
          ∙ ap (λ (k : ℕ). digits_from k rest) (omega arith))
  | inr e ↦
      rw (e, decimal_from)
        (digits_from-decimal_from f (n / 10) ((b'0' + n % 10) ∷ rest) (ground arith)
          ∙ digits_from-digit (n / 10) (n % 10) rest (omega arith)
          ∙ ap (λ (k : ℕ). digits_from k rest) (omega arith))
]

pub head-decimal_from :
    (f n : ℕ) (rest : Text)
    → n < f
    → (c : ℕ) × (s : Text) × (decimal_from f n rest ≡ c ∷ s) × (is_digit c ≡ true)
unfolding decimal_from
head-decimal_from zero n rest h = absurd (omega arith)
head-decimal_from (suc f) n rest h = elim (Bool-cases (ltb n 10)) [
  | inl e ↦ (b'0' + n, rest, rw (e, decimal_from), ground arith)
  | inr e ↦
      let (c, s, q, d) = head-decimal_from f (n / 10) ((b'0' + n % 10) ∷ rest) (ground arith) in
      (c, s, rw (e, decimal_from) q, d)
]

atoi-digit : (c : ℕ) (s : Text) → is_digit c ≡ true → atoi (c ∷ s) ≡ pos (digits_from 0 (c ∷ s))
unfolding atoi signed_from
atoi-digit c s h =
    let sp : is_space c ≡ false = ground arith in
    let minus : (c == b'-') ≡ false = ground arith in
    let plus : (c == b'+') ≡ false = ground arith in rw (sp, minus, plus)

atoi-minus : (s : Text) → atoi (b'-' ∷ s) ≡ sub_ℕ 0 (digits_from 0 s)
unfolding atoi signed_from
atoi-minus s = refl

digits_from-decimal : (n : ℕ) (rest : Text) → NoDigit rest → digits_from 0 (decimal n rest) ≡ n
unfolding decimal
digits_from-decimal n rest h =
    digits_from-decimal_from (suc n) n rest (omega arith) ∙ digits_from-stop n rest h

atoi-decimal : (n : ℕ) (rest : Text) → NoDigit rest → atoi (decimal n rest) ≡ pos n
unfolding decimal
atoi-decimal n rest h =
    let (c, s, q, d) = head-decimal_from (suc n) n rest (omega arith) in
    rw q (atoi-digit c s d ∙ ap pos (rw q at (digits_from-decimal n rest h)))

-- `atoi` reads back any number that was printed in decimal, where no digit follows it.
pub atoi-print_int : (z : ℤ) (rest : Text) → NoDigit rest → atoi (print_int z rest) ≡ z
unfolding print_int
atoi-print_int (pos n) rest h = atoi-decimal n rest h
atoi-print_int (negsuc n) rest h =
    atoi-minus (decimal (suc n) rest)
    ∙ ap (sub_ℕ 0) (digits_from-decimal (suc n) rest h)
    ∙ ground arith

-- No byte of the text ends a string, a line or a word.
abbrev pub IsWord : Text → Type 0
IsWord [] = Unit
IsWord (c ∷ s) = (c == 0 ≡ false) × (c == 10 ≡ false) × (c == 32 ≡ false) × IsWord s

decimal_from-IsWord : (f n : ℕ) (s : Text) → IsWord s → IsWord (decimal_from f n s)
unfolding decimal_from
decimal_from-IsWord zero n s h = h
decimal_from-IsWord (suc f) n s h = elim (Bool-cases (ltb n 10)) [
  | inl e ↦ rw (e, decimal_from) (ground arith, ground arith, ground arith, h)
  | inr e ↦
      rw (e, decimal_from)
        (decimal_from-IsWord f (n / 10) _ (ground arith, ground arith, ground arith, h))
]

pub print_int-IsWord : (z : ℤ) → IsWord (print_int z [])
unfolding print_int decimal
print_int-IsWord (pos n) = decimal_from-IsWord (suc n) n [] tt
print_int-IsWord (negsuc n) =
    (ground arith, ground arith, ground arith, decimal_from-IsWord (suc (suc n)) (suc n) [] tt)

decimal_from-append : (f n : ℕ) (s t : Text) → decimal_from f n (s ++ t) ≡ decimal_from f n s ++ t
unfolding decimal_from
decimal_from-append zero n s t = refl
decimal_from-append (suc f) n s t = elim (Bool-cases (ltb n 10)) [
  | inl e ↦ rw (e, decimal_from) refl
  | inr e ↦ rw (e, decimal_from) (decimal_from-append f (n / 10) (_ ∷ s) t)
]

pub print_int-append : (z : ℤ) (t : Text) → print_int z t ≡ print_int z [] ++ t
unfolding print_int decimal
print_int-append (pos n) t = decimal_from-append (suc n) n [] t
print_int-append (negsuc n) t = ap (◌∷◌ b'-') (decimal_from-append (suc (suc n)) (suc n) [] t)

-- A printed number starts with a byte that ends no string, line or word.
pub print_int-head :
    (z : ℤ) (t : Text)
    → (c : ℕ) × (s : Text) × (print_int z t ≡ c ∷ s)
      × (c == 0 ≡ false)
      × (c == 10 ≡ false)
      × (c == 32 ≡ false)
unfolding print_int decimal
print_int-head (pos n) t =
    let (c, s, q, d) = head-decimal_from (suc n) n t (omega arith) in
    (c, s, q, ground arith, ground arith, ground arith)
print_int-head (negsuc n) t =
    (b'-', decimal (suc n) t, refl, ground arith, ground arith, ground arith)
