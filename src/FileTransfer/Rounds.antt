-- ===== src/FileTransfer/Rounds.antt =====
-- A round of the server: a file, or a calculation.
use eltex_summer.Base.{ℕ, ◌^◌, ◌<◌, ◌≡◌, false, List, [], ◌∷◌, ◌++◌, length, take, drop}
use eltex_summer.Base.Int.{ℤ}
use eltex_summer.Base.Calculation.{Operator, symbol, exact, InRange, NoDivisionBy0}
use eltex_summer.Text.{Text}
use eltex_summer.Text.Decimal.{print_int}
use eltex_summer.FileTransfer.{
  Stream, filename_length, c_string, is_empty, File, send_file, menu, first_prompt, second_prompt,
  result, Message, file_line,
}
use eltex_summer.FileTransfer.Contents.{joined, AllFull}

-- What a client does between two menus.
pub data Round : Type 0 where
  upload : Text → Text → Stream → Round
  calculate : Operator → ℤ → ℤ → Round

abbrev pub whole : ℕ → ℕ → ℕ
whole t n = n

-- What it sends, as it arrives: the contents of a file in any pieces.
abbrev pub input_of : Round → Stream
input_of (upload name file cs) = file_line ∷ (take 3 (send_file whole name file) ++ cs)
input_of (calculate o a b) =
    (symbol o ∷ 10 ∷ []) ∷ print_int a (10 ∷ []) ∷ print_int b (10 ∷ []) ∷ []

abbrev pub Fits : Round → Type 0
Fits (upload name file cs) =
    (is_empty name ≡ false)
    × (length name < filename_length)
    × (c_string name ≡ name)
    × (length file < 2 ^ 63)
    × AllFull cs
    × (joined cs ≡ joined (drop 3 (send_file whole name file)))
Fits (calculate o a b) = InRange o a b × NoDivisionBy0 o b

abbrev pub inputs : List Round → Stream
inputs [] = []
inputs (r ∷ rs) = input_of r ++ inputs rs

-- What the server is to answer, and to store.
abbrev pub said : List Round → List Message
said [] = menu ∷ []
said (upload name file cs ∷ rs) = menu ∷ said rs
said (calculate o a b ∷ rs) =
    menu ∷ first_prompt ∷ second_prompt ∷ result (print_int (exact o a b) (10 ∷ [])) ∷ said rs

abbrev pub kept : List Round → List File
kept [] = []
kept (upload name file cs ∷ rs) = (name, file) ∷ kept rs
kept (calculate o a b ∷ rs) = kept rs

abbrev pub AllFit : List Round → Type 0
AllFit [] = Unit
AllFit (r ∷ rs) = Fits r × AllFit rs
