-- ===== src/Interpreter.antt =====
-- The command interpreter with pipes: module3/04/src/interpreter.c, its parsing of a line. The
-- buffers of a command are read as texts; what a `\0` written into one of them cuts off is written
-- out at each step.
pub mod Pipes
pub mod Commands
pub mod Lines
pub mod Runs
mod Examples
use eltex_summer.Base.{
  ℕ, zero, suc, ◌-◌, ◌≡◌, refl, Bool, true, false, Option, none, some, List, [], ◌∷◌, ◌++◌, ◌==◌,
  ◌||◌, if◌then◌else◌,
}
use eltex_summer.Text.{Text, strncpy, text_eq}
use eltex_summer.Text.Tokens.{skip, tokens}

abbrev pub max_arg_size : ℕ
max_arg_size = 100

abbrev pub max_filename_len : ℕ
max_filename_len = 100

abbrev pub max_commands : ℕ
max_commands = 10

abbrev pub is_blank : ℕ → Bool
is_blank c = c == 32

abbrev pub is_pipe : ℕ → Bool
is_pipe c = c == b'|'

abbrev pub is_argument_end : ℕ → Bool
is_argument_end c = (c == 32) || (c == 10)

-- The text before the first byte `b`, or all of it.
unfoldable pub before : ℕ → Text → Text
before b [] = []
before b (c ∷ s) = let rest = before b s in if c == b then [] else c ∷ rest

-- The text behind the first byte `b`: one byte after what `strstr` finds.
unfoldable pub behind : ℕ → Text → Option Text
behind b [] = none
behind b (c ∷ s) = let rest = behind b s in if c == b then some s else rest

abbrev pub cons_or_nil : ℕ → Text → Text
cons_or_nil c [] = if c == 32 then [] else c ∷ []
cons_or_nil c (d ∷ s) = c ∷ d ∷ s

-- The text without the blanks at its end.
unfoldable pub trim_end : Text → Text
trim_end [] = []
trim_end (c ∷ s) = cons_or_nil c (trim_end s)

-- `end` goes down while it is above the start: the first byte stays.
unfoldable pub trim : Text → Text
unfolding trim_end
trim [] = []
trim (c ∷ s) = c ∷ trim_end s

-- Lines 32 to 38 and 46 to 52: a file's name from the text behind `<` or `>`.
unfoldable pub file_name : Text → Text
unfolding skip trim before
file_name s = before 10 (trim (skip is_blank s))

-- The text behind `>` where `<` stands before it: the steps for the input file have written a `\0`
-- over its blanks at the end, and over the first newline behind `<`.
unfoldable pub behind_both : Text → Option Text
unfolding behind before trim_end
behind_both s = elim (behind b'>' s) [
  | none ↦ none
  | some t ↦ elim (behind 10 (before b'>' s)) [
    | none ↦ some (before 10 (trim_end t))
    | some line ↦ some (trim_end t)
  ]
]

-- The text behind `>` as the buffer holds it after the steps for the input file.
unfoldable pub behind_out : Text → Option Text
unfolding behind before behind_both
behind_out s = elim (behind b'<' s) [
  | none ↦ behind b'>' s
  | some t ↦ elim (behind b'>' (before b'<' s)) [ some q ↦ some q | none ↦ behind_both t ]
]

-- The names of the input file and of the output file; empty where none is given.
pub data Files : Type 0 where
  files : Text → Text → Files

-- A redirection sets the name; without one it stays.
abbrev pub redirect : Option Text → Text → Text
redirect none old = old
redirect (some s) old = strncpy (max_filename_len - 1) (file_name s)

unfoldable pub parse_files : Text → Files → Files
unfolding behind behind_out strncpy file_name
parse_files cmd (files i o) = files (redirect (behind b'<' cmd) i) (redirect (behind_out cmd) o)

-- The command itself: the buffer ends at the first of `<` and `>`.
unfoldable pub parse_command : Text → Text
unfolding before skip trim strncpy
parse_command cmd =
    strncpy (max_arg_size - 1) (trim (skip is_blank (before b'>' (before b'<' cmd))))

-- The loop over the commands.
unfoldable pub parse_each : List Text → Files → List Text × Files
unfolding parse_files parse_command
parse_each [] f = ([], f)
parse_each (cmd ∷ rest) f =
    let (parsed, g) = parse_each rest (parse_files cmd f) in (parse_command cmd ∷ parsed, g)

-- The commands and the files; the count that the code returns is the length of the list.
unfoldable pub parse_commands : Text → List Text × Files
unfolding tokens parse_each
parse_commands command = parse_each (tokens max_commands is_pipe command) (files [] [])

-- The arguments that `execute_command` gives to `execvp`, before the closing NULL.
unfoldable pub execute_command : Text → List Text
unfolding tokens
execute_command command = tokens (max_arg_size - 1) is_argument_end command

-- `exit\n`
abbrev pub exit_line : Text
exit_line = b'e' ∷ b'x' ∷ b'i' ∷ b't' ∷ 10 ∷ []

-- The loop of `main` on what each call of `fgets` gives, `none` where it fails: the lines that are
-- run, up to the line that ends the loop or the last call that is looked at.
unfoldable pub run_lines : List (Option Text) → List Text
unfolding text_eq
run_lines [] = []
run_lines (none ∷ calls) = run_lines calls
run_lines (some input ∷ calls) =
    let rest = run_lines calls in if text_eq input exit_line then [] else input ∷ rest

-- The interpreter without pipes, module3/02/src/interpreter.c: what a line leads to.
pub data Outcome : Type 0 where
  not_forked : Outcome
  executed : List Text → Outcome

-- `execute_command` there: `forks` says whether `fork` succeeds; the child runs `execvp` on the
-- arguments and the parent waits for it.
unfoldable pub execute_line : Bool → Text → Outcome
unfolding tokens
execute_line forks command =
    if forks then executed (tokens (max_arg_size - 1) is_argument_end command) else not_forked
