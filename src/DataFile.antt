-- ===== src/DataFile.antt =====
-- The lines of numbers that the producer and the consumer of module3/09/src/sem.c share in a file. A
-- DataLine is the list of its `count` numbers. Where a function returns -1, the result is `none`.
pub mod Lines
pub mod Processes
pub mod Sharing
pub mod Writes
mod Turns
mod Finish
mod Bounds
mod Examples
use eltex_summer.Base.{
  ℕ, zero, suc, ◌+◌, ◌%◌, Bool, true, false, Option, none, some, List, [], ◌∷◌, ◌++◌, ltb, ◌==◌,
  ◌||◌, if◌then◌else◌, length,
}
use eltex_summer.Base.Int.{ℤ, pos, ltb_ℤ}
use eltex_summer.Text.{Text}
use eltex_summer.Text.Decimal.{print_int}
use eltex_summer.Text.Scan.{scan_int}

abbrev pub max_numbers : ℕ
max_numbers = 20

-- The loop of `generate_data`, on what `rand` returns.
unfoldable pub random_numbers : ℕ → List ℕ → List ℤ
random_numbers zero rs = []
random_numbers (suc n) [] = []
random_numbers (suc n) (r ∷ rs) = pos (r % 100) ∷ random_numbers n rs

unfoldable pub generate_data : ℕ → List ℕ → List ℤ
unfolding random_numbers
generate_data r rs = random_numbers (r % max_numbers + 1) rs

-- The numbers with a blank between them.
unfoldable pub line_text : List ℤ → Text
line_text [] = []
line_text (x ∷ xs) =
    let rest = line_text xs in
    elim xs [ [] ↦ print_int x [] | y ∷ ys ↦ print_int x [] ++ b' ' ∷ rest ]

-- What is appended to the file.
unfoldable pub write_data_line : List ℤ → Option Text
unfolding line_text
write_data_line line =
    if (length line == 0) || ltb max_numbers (length line)
    then none
    else some (line_text line ++ 10 ∷ [])

-- `fgets`, on what is left of the file, with room for a number of bytes: the buffer, and what is left then.
unfoldable pub fgets : ℕ → Text → Text × Text
fgets zero s = ([], s)
fgets (suc n) [] = ([], [])
fgets (suc n) (c ∷ s) =
    let (line, rest) = fgets n s in if c == 10 then (10 ∷ [], s) else (c ∷ line, rest)

unfoldable pub skip_word : Text → Text
skip_word [] = []
skip_word (c ∷ s) =
    let rest = skip_word s in if (c == 32) || (c == 10) || (c == 0) then c ∷ s else rest

unfoldable pub skip_blanks : Text → Text
skip_blanks [] = []
skip_blanks (c ∷ s) = let rest = skip_blanks s in if c == 32 then rest else c ∷ s

abbrev pub at_end : Text → Bool
at_end [] = true
at_end (c ∷ s) = (c == 0) || (c == 10)

-- The loop over the buffer, for at most so many numbers.
unfoldable pub parse_numbers : ℕ → Text → List ℤ
unfolding scan_int skip_word skip_blanks
parse_numbers zero s = []
parse_numbers (suc n) s =
    let rest = parse_numbers n (skip_blanks (skip_word s)) in
    if at_end s then [] else elim (scan_int s) [ none ↦ [] | some (z, t) ↦ z ∷ rest ]

abbrev pub parsed : Text × Text → List ℤ × Text
parsed (buffer, rest) = (parse_numbers max_numbers buffer, rest)

-- The buffer has 256 bytes. At the end of the file there is nothing to read.
unfoldable pub read_data_line : Text → Option (List ℤ × Text)
read_data_line [] = none
read_data_line (c ∷ s) = some (parsed (fgets 255 (c ∷ s)))

-- The loop of `process_data`: the largest and the smallest number so far.
unfoldable pub extremes : ℤ → ℤ → List ℤ → ℤ × ℤ
extremes max min [] = (max, min)
extremes max min (x ∷ xs) =
    extremes (if ltb_ℤ max x then x else max) (if ltb_ℤ x min then x else min) xs

-- A line without a number leaves `numbers[0]` as it was, here the first argument.
unfoldable pub process_data : ℤ → List ℤ → ℤ × ℤ
unfolding extremes
process_data old [] = (old, old)
process_data old (x ∷ xs) = extremes x x (x ∷ xs)
