-- ===== src/DataFile/Lines.antt =====
-- A line that is written to the file of module3/09 is read back.
use eltex_summer.Base.{
  ℕ, zero, suc, ◌≤◌, ◌<◌, ◌≡◌, refl, sym, ap, ◌∙◌, false, some, List, [], ◌∷◌, ◌++◌, arith, ltb,
  ◌==◌, length,
}
use eltex_summer.Base.Int.{ℤ}
use eltex_summer.Text.{Text}
use eltex_summer.Text.Decimal.{
  print_int, print_int-append, print_int-IsWord, print_int-head, IsWord, NoDigit,
}
use eltex_summer.Text.Scan.{scan_int-print_int}
use eltex_summer.DataFile.{
  max_numbers, line_text, write_data_line, fgets, skip_word, skip_blanks, at_end, parse_numbers,
  read_data_line, parsed,
}

append_assoc : (s t u : Text) → (s ++ t) ++ u ≡ s ++ (t ++ u)
append_assoc [] t u = refl
append_assoc (c ∷ s) t u = ap (◌∷◌ c) (append_assoc s t u)

-- No byte is a newline.
abbrev OneLine : Text → Type 0
OneLine [] = Unit
OneLine (c ∷ s) = (c == 10 ≡ false) × OneLine s

fgets-OneLine :
    (n : ℕ) (l rest : Text)
    → OneLine l
    → length l < n
    → fgets n (l ++ 10 ∷ rest) ≡ (l ++ 10 ∷ [], rest)
unfolding fgets
fgets-OneLine zero l rest o h = absurd (omega arith)
fgets-OneLine (suc n) [] rest o h = refl
fgets-OneLine (suc n) (c ∷ l) rest (e, o) h = rw (e, fgets-OneLine n l rest o (omega arith)) refl

OneLine-append : (w t : Text) → IsWord w → OneLine t → OneLine (w ++ t)
OneLine-append [] t h o = o
OneLine-append (c ∷ w) t (z, n, b, h) o = (n, OneLine-append w t h o)

IsWord-OneLine : (w : Text) → IsWord w → OneLine w
IsWord-OneLine [] h = tt
IsWord-OneLine (c ∷ w) (z, n, b, h) = (n, IsWord-OneLine w h)

line_text-OneLine : (xs : List ℤ) → OneLine (line_text xs)
unfolding line_text
line_text-OneLine [] = tt
line_text-OneLine (x ∷ []) = IsWord-OneLine (print_int x []) (print_int-IsWord x)
line_text-OneLine (x ∷ y ∷ ys) =
    OneLine-append (print_int x []) _ (print_int-IsWord x) (refl, line_text-OneLine (y ∷ ys))

skip_word-append : (w t : Text) → IsWord w → skip_word t ≡ t → skip_word (w ++ t) ≡ t
unfolding skip_word
skip_word-append [] t h e = e
skip_word-append (c ∷ w) t (z, n, b, h) e = rw (z, n, b, skip_word-append w t h e) refl

-- One number at the front: it is read, and the loop goes on behind it.
parse_numbers-print_int :
    (n : ℕ) (x : ℤ) (t : Text)
    → NoDigit t
    → skip_word t ≡ t
    → parse_numbers (suc n) (print_int x t) ≡ x ∷ parse_numbers n (skip_blanks t)
unfolding parse_numbers
parse_numbers-print_int n x t d e =
    let (c, s, q, z, l, b) = print_int-head x t in
    let stop : at_end (print_int x t) ≡ false = rw q (rw (z, l) refl) in
    let w : skip_word (print_int x t) ≡ t =
      ap skip_word (print_int-append x t)
      ∙ skip_word-append (print_int x []) t (print_int-IsWord x) e in
    rw (stop, scan_int-print_int x t d, w) refl

parse_numbers-newline : (n : ℕ) → parse_numbers n (10 ∷ []) ≡ []
unfolding parse_numbers
parse_numbers-newline zero = refl
parse_numbers-newline (suc n) = refl

-- A line of several numbers is the first one with a blank and the others behind it.
line_text-cons :
    (x y : ℤ) (ys : List ℤ) (t : Text)
    → line_text (x ∷ y ∷ ys) ++ t ≡ print_int x (b' ' ∷ (line_text (y ∷ ys) ++ t))
unfolding line_text
line_text-cons x y ys t =
    append_assoc (print_int x []) (b' ' ∷ line_text (y ∷ ys)) t
    ∙ sym (print_int-append x (b' ' ∷ (line_text (y ∷ ys) ++ t)))

line_text-one : (x : ℤ) (t : Text) → line_text (x ∷ []) ++ t ≡ print_int x t
unfolding line_text
line_text-one x t = sym (print_int-append x t)

line_text-head :
    (x : ℤ) (xs : List ℤ) (t : Text)
    → (c : ℕ) × (s : Text) × (line_text (x ∷ xs) ++ t ≡ c ∷ s) × (c == 32 ≡ false)
line_text-head x [] t =
    let (c, s, q, z, l, b) = print_int-head x t in (c, s, line_text-one x t ∙ q, b)
line_text-head x (y ∷ ys) t =
    let (c, s, q, z, l, b) = print_int-head x (b' ' ∷ (line_text (y ∷ ys) ++ t)) in
    (c, s, line_text-cons x y ys t ∙ q, b)

skip_blanks-line_text :
    (x : ℤ) (xs : List ℤ) (t : Text)
    → skip_blanks (b' ' ∷ (line_text (x ∷ xs) ++ t)) ≡ line_text (x ∷ xs) ++ t
unfolding skip_blanks
skip_blanks-line_text x xs t = let (c, s, q, b) = line_text-head x xs t in rw q (rw b refl)

parse_numbers-line_text :
    (n : ℕ) (xs : List ℤ) → length xs ≤ n → parse_numbers n (line_text xs ++ 10 ∷ []) ≡ xs
unfolding line_text skip_word skip_blanks
parse_numbers-line_text n [] h = parse_numbers-newline n
parse_numbers-line_text zero (x ∷ xs) h = absurd (omega arith)
parse_numbers-line_text (suc n) (x ∷ []) h =
    ap (parse_numbers (suc n)) (line_text-one x (10 ∷ []))
    ∙ parse_numbers-print_int n x (10 ∷ []) refl refl
    ∙ ap (◌∷◌ x) (parse_numbers-newline n)
parse_numbers-line_text (suc n) (x ∷ y ∷ ys) h =
    ap (parse_numbers (suc n)) (line_text-cons x y ys (10 ∷ []))
    ∙ parse_numbers-print_int n x (b' ' ∷ (line_text (y ∷ ys) ++ 10 ∷ [])) refl refl
    ∙ ap (◌∷◌ x) (
        ap (parse_numbers n) (skip_blanks-line_text y ys (10 ∷ []))
        ∙ parse_numbers-line_text n (y ∷ ys) (omega arith))

read_data_line-fgets :
    (s : Text) (c : ℕ) (t : Text) → s ≡ c ∷ t → read_data_line s ≡ some (parsed (fgets 255 s))
unfolding read_data_line
read_data_line-fgets s c t q = rw q refl

-- Between 1 and 20 numbers whose line has at most 254 bytes before its newline are written, and read
-- back from the front of the file, which then goes on behind the line.
pub read_data_line-write_data_line :
    (xs : List ℤ) (rest : Text)
    → 0 < length xs
    → length xs ≤ max_numbers
    → length (line_text xs) < 255
    → (write_data_line xs ≡ some (line_text xs ++ 10 ∷ []))
      × (read_data_line (line_text xs ++ 10 ∷ rest) ≡ some (xs, rest))
unfolding write_data_line
read_data_line-write_data_line [] rest p h l = absurd (omega arith)
read_data_line-write_data_line (x ∷ xs) rest p h l =
    let (c, s, q, b) = line_text-head x xs (10 ∷ rest) in
    let e : (length (x ∷ xs) == 0) ≡ false = ground arith in
    let g : ltb max_numbers (length (x ∷ xs)) ≡ false = ground arith in
    (
      rw (e, g) refl,
      read_data_line-fgets (line_text (x ∷ xs) ++ 10 ∷ rest) c s q
          ∙ ap (λ (r : Text × Text). some (parsed r))
              (fgets-OneLine 255 (line_text (x ∷ xs)) rest (line_text-OneLine (x ∷ xs)) l)
          ∙ ap (λ (ys : List ℤ). some (ys, rest)) (parse_numbers-line_text max_numbers (x ∷ xs) h),
    )
