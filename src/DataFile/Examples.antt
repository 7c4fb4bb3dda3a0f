-- ===== src/DataFile/Examples.antt =====
-- The data file of module3/09 with two lines.
use eltex_summer.Base.{
  ◌+◌, ◌≤◌, length, replicate, true, false, ◌≡◌, refl, [], ◌∷◌, ◌++◌, arith, List,
}
use eltex_summer.Base.Int.{ℤ, pos}
use eltex_summer.Text.{Text}
use eltex_summer.Text.Decimal.{print_int, decimal, decimal_from}
use eltex_summer.DataFile.{generate_data, line_text, process_data, extremes}
use eltex_summer.DataFile.Processes.{Line, forked, run_both}
use eltex_summer.DataFile.Sharing.{Fits, AllFit, in_write, in_read}
use eltex_summer.DataFile.Finish.{Finished, run_both-finishes, run_both-excludes}
use eltex_summer.DataFile.Bounds.{generate_data-Fits}

abbrev numbers : List ℤ
numbers = pos 42 ∷ pos 7 ∷ pos 99 ∷ []

abbrev next_line : Text
next_line = b'5' ∷ 10 ∷ []

text_of_numbers : line_text numbers ≡ b'4' ∷ b'2' ∷ b' ' ∷ b'7' ∷ b' ' ∷ b'9' ∷ b'9' ∷ []
unfolding line_text print_int decimal decimal_from
text_of_numbers = refl

extremes_of_numbers : process_data (pos 0) numbers ≡ (pos 99, pos 7)
unfolding process_data extremes
extremes_of_numbers = refl

abbrev two_lines : List Line
two_lines = numbers ∷ (pos 5 ∷ []) ∷ []

text_of_five : line_text (pos 5 ∷ []) ≡ b'5' ∷ []
unfolding line_text print_int decimal decimal_from
text_of_five = refl

two_lines-AllFit : AllFit two_lines
two_lines-AllFit = (
  (omega arith, omega arith, rw text_of_numbers (omega arith)),
  ((omega arith, omega arith, rw text_of_five (omega arith)), tt),
)

-- The producer goes first wherever it can, and nowhere.
run_both-finishes_example : Finished two_lines (run_both 23 (λ s. true) (forked two_lines))
run_both-finishes_example =
    run_both-finishes two_lines 23 (λ s. true) two_lines-AllFit (omega arith)

run_both-excludes_example :
    let s = run_both 9 (λ s. false) (forked two_lines) in
    (s.sem + in_write s.producer + in_read s.consumer ≡ 1)
    × ((rest : List Line) × (s.processed ++ rest ≡ two_lines))
run_both-excludes_example = run_both-excludes two_lines 9 (λ s. false) two_lines-AllFit

-- `rand` gives 1207 each time: eight numbers 7.
generate_data-Fits_example :
    Fits (generate_data 1207 (replicate 20 1207))
    × (length (line_text (generate_data 1207 (replicate 20 1207))) ≤ 60)
generate_data-Fits_example = generate_data-Fits 1207 (replicate 20 1207) (omega arith)
