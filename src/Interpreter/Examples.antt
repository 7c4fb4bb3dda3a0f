-- ===== src/Interpreter/Examples.antt =====
-- Tests and witnesses of the command interpreter.
use eltex_summer.Base.{◌≡◌, refl, Bool, true, none, some, List, [], ◌∷◌, arith, map}
use eltex_summer.Text.{Text}
use eltex_summer.Interpreter.{parse_commands, Files, run_lines, exit_line, execute_line, Outcome}
use eltex_summer.Interpreter.Commands.{Stage}
use eltex_summer.Interpreter.Lines.{print_line, words_of, meant, AllStages}
use eltex_summer.Interpreter.Pipes.{execute_pipeline, Child}
use eltex_summer.Interpreter.Pipes.Stream.{terminal}
use eltex_summer.Interpreter.Runs.{Executed, terminals, execute_pipeline-print_line}

-- `  cat -n < in | wc > out\n`
abbrev two_stages : List Stage
two_stages =
    record {
      lead = 2;
      words = (b'c' ∷ b'a' ∷ b't' ∷ []) ∷ (b'-' ∷ b'n' ∷ []) ∷ [];
      output = none;
      input = some (b'i' ∷ b'n' ∷ []);
    }
    ∷ record {
      lead = 1;
      words = (b'w' ∷ b'c' ∷ []) ∷ [];
      output = some (b'o' ∷ b'u' ∷ b't' ∷ []);
      input = none;
    }
    ∷ []

two_stages-AllStages : AllStages two_stages
two_stages-AllStages = (
  (
    omega arith,
    ((refl, (refl, (refl, tt))), ((refl, (refl, tt)), tt)),
    omega arith,
    tt,
    ((refl, (refl, tt)), omega arith),
  ),
  (
    (
      omega arith,
      ((refl, (refl, tt)), tt),
      omega arith,
      ((refl, (refl, (refl, tt))), omega arith),
      tt,
    ),
    tt,
  ),
)

abbrev opens_all : Text → Bool
opens_all s = true

execute_pipeline-print_line_example :
    Executed opens_all opens_all 1
      (meant two_stages (Files.files [] []))
      (map words_of two_stages)
      (execute_pipeline opens_all opens_all (3, 9) terminals (print_line two_stages))
execute_pipeline-print_line_example =
    execute_pipeline-print_line opens_all opens_all 1 3 9 two_stages refl (omega arith)
      two_stages-AllStages (refl, refl) (omega arith) (omega arith)

-- `c < a > b\n`: the name of the input file holds the second redirection.
input_then_output :
    parse_commands (b'c' ∷ 32 ∷ b'<' ∷ 32 ∷ b'a' ∷ 32 ∷ b'>' ∷ 32 ∷ b'b' ∷ 10 ∷ [])
    ≡ ((b'c' ∷ []) ∷ [], Files.files (b'a' ∷ 32 ∷ b'>' ∷ 32 ∷ b'b' ∷ []) (b'b' ∷ []))
unfolding parse_commands
input_then_output = refl

-- `a | b\n` where the entry that no statement sets holds 0 and 1: the children lose both of their
-- standard descriptors.
unset_entry :
    (execute_pipeline opens_all opens_all
      (0, 1)
      terminals
      (b'a' ∷ 32 ∷ b'|' ∷ 32 ∷ b'b' ∷ 10 ∷ [])).0
    ≡ ((b'a' ∷ []) ∷ [], Child.runs (none ∷ none ∷ some terminal ∷ none ∷ none ∷ []))
      ∷ ((b'b' ∷ []) ∷ [], Child.runs (none ∷ none ∷ some terminal ∷ none ∷ none ∷ []))
      ∷ []
unfolding execute_pipeline
unset_entry = refl

session_ends :
    run_lines (some (b'a' ∷ 10 ∷ []) ∷ none ∷ some exit_line ∷ some (b'b' ∷ 10 ∷ []) ∷ [])
    ≡ (b'a' ∷ 10 ∷ []) ∷ []
unfolding run_lines
session_ends = refl

one_command :
    execute_line true (b'l' ∷ b's' ∷ 32 ∷ 32 ∷ b'-' ∷ b'l' ∷ 10 ∷ [])
    ≡ Outcome.executed ((b'l' ∷ b's' ∷ []) ∷ (b'-' ∷ b'l' ∷ []) ∷ [])
unfolding execute_line
one_command = refl
