-- ===== src/Interpreter/Runs.antt =====
-- A line from its text to the commands that run: what each is run with, reads and writes.
use eltex_summer.Base.{
  ℕ, zero, suc, ◌+◌, ◌-◌, ◌≤◌, ◌≡◌, refl, sym, ap, subst, ◌∙◌, Bool, true, false, List, [], ◌∷◌,
  arith, length, map, length-map,
}
use eltex_summer.Text.{Text}
use eltex_summer.Interpreter.{Files, execute_command, parse_commands}
use eltex_summer.Interpreter.Files.{files}
use eltex_summer.Interpreter.Lines.{
  AllStages, print_line, words_of, meant, arguments, parse_commands-print_line,
}
use eltex_summer.Interpreter.Commands.{Stage}
use eltex_summer.Interpreter.Pipes.{
  Table, Child, fork_each, make_pipes, close_pipes, execute_pipeline, run_parsed,
}
use eltex_summer.Interpreter.Pipes.Stream.{terminal}
use eltex_summer.Interpreter.Pipes.Ends.{pairs, pipe_ends, make_pipes-Full}
use eltex_summer.Interpreter.Pipes.Streams.{std}
use eltex_summer.Interpreter.Pipes.Children.{
  stdin, stdout, Opens, Runs, HasOnly, child-Runs, close_pipes-HasOnly,
}
use mathlib.Core.List.{append-nil}

-- The interpreter's own table when it reads a line.
abbrev pub terminals : Table
terminals = std terminal terminal terminal []

Opens-any : (can : Text → Bool) (i : ℕ) (f : Text) → Opens can 0 f → Opens can i f
Opens-any can zero f o = o
Opens-any can (suc i) f o = tt

module _ (can_read can_write : Text → Bool) (m : ℕ) where
  -- The children from command `i` on: arguments, standard input and output, and no other open end.
  abbrev pub AllRun : Files → ℕ → List (List Text) → List (List Text × Child) → Type 0
  AllRun (files input output) i [] [] = Unit
  AllRun (files input output) i [] (c ∷ cs) = true ≡ false
  AllRun (files input output) i (a ∷ rest) [] = true ≡ false
  AllRun (files input output) i (a ∷ rest) ((b, c) ∷ cs) =
      (b ≡ a)
      × Runs (stdin i input) (stdout m i output) c
      × AllRun (files input output) (suc i) rest cs

  -- Files that a redirection names can be opened.
  abbrev pub FilesOpen : Files → Type 0
  FilesOpen (files input output) = Opens can_read 0 input × Opens can_write 0 output

  fork_each-AllRun :
      (u v : ℕ) (f : Files) (i : ℕ) (cmds : List Text)
      → i + length cmds ≡ suc m
      → FilesOpen f
      → 3 ≤ u
      → 3 ≤ v
      → AllRun f i (map execute_command cmds) (
          fork_each can_read can_write
            (suc m)
            (pairs 3 m)
            (u, v)
            f
            (std terminal terminal terminal (pipe_ends 0 m))
            i
            cmds)
  unfolding fork_each
  fork_each-AllRun u v (files input output) i [] l o hu hv = tt
  fork_each-AllRun u v (files input output) i (cmd ∷ cmds) l (o, q) hu hv = (
    refl,
    child-Runs can_read can_write m i u v input output (omega arith) (Opens-any can_read i input o)
        (Opens-any can_write (m - i) output q) hu hv,
    fork_each-AllRun u v (files input output) (suc i) cmds (omega arith) (o, q) hu hv,
  )

  -- The whole of `execute_pipeline` behind the parsing.
  abbrev pub Executed : Files → List (List Text) → List (List Text × Child) × Table → Type 0
  Executed f args (children, parent) = AllRun f 0 args children × HasOnly terminal terminal parent

  run_parsed-Executed :
      (u v : ℕ) (f : Files) (cmds : List Text)
      → length cmds ≡ suc m
      → FilesOpen f
      → 3 ≤ u
      → 3 ≤ v
      → Executed f
          (map execute_command cmds)
          (run_parsed can_read can_write (u, v) terminals (cmds, f))
  unfolding run_parsed
  run_parsed-Executed u v f cmds l o hu hv =
      let n : length cmds - 1 ≡ m = omega arith in
      let made : make_pipes (length cmds - 1) 0 terminals
          ≡ (pairs 3 m, std terminal terminal terminal (pipe_ends 0 m)) =
        ap (λ (k : ℕ). make_pipes k 0 terminals) n ∙ make_pipes-Full m 0 terminals tt in
      let parent =
        subst
          (λ (r : Table).
            HasOnly terminal terminal (close_pipes (pairs 3 m) (std terminal terminal terminal r)))
          (append-nil (pipe_ends 0 m)) (close_pipes-HasOnly m terminal terminal [] tt) in
      rw (made, run_parsed, l) (fork_each-AllRun u v f 0 cmds (omega arith) o hu hv, parent)

  execute_pipeline-Executed :
      (u v : ℕ) (input : Text) (f : Files) (args : List (List Text))
      → arguments (parse_commands input) ≡ (args, f)
      → length args ≡ suc m
      → FilesOpen f
      → 3 ≤ u
      → 3 ≤ v
      → Executed f args (execute_pipeline can_read can_write (u, v) terminals input)
  unfolding execute_pipeline
  execute_pipeline-Executed u v input f args e l o hu hv =
      let parsed = parse_commands input in
      let e0 : map execute_command (parsed.0) ≡ args =
        ap (λ (x : List (List Text) × Files). x.0) e in
      let e1 : parsed.1 ≡ f = ap (λ (x : List (List Text) × Files). x.1) e in
      let n : length (parsed.0) ≡ suc m =
        sym (length-map (parsed.0) execute_command)
        ∙ ap (λ (x : List (List Text)). length x) e0
        ∙ l in
      let o2 = subst FilesOpen (sym e1) o in
      let r = run_parsed-Executed u v (parsed.1) (parsed.0) n o2 hu hv in
      subst
        (λ (x : List (List Text) × Files).
          Executed (x.1) (x.0)
            (run_parsed can_read can_write (u, v) terminals (parse_commands input)))
        e r

  -- A line of `m + 1` commands, at most ten, as a user writes it: each command runs with its
  -- words as arguments; it reads what the one before it writes, the first one the input file, the
  -- last one writes the output file, and the terminal stands where no file is given; no process,
  -- the interpreter included, keeps another end of a pipe open. Each command has at least one
  -- word and fewer than 99 bytes, and of its files the output file comes first; words and names
  -- hold no blank, newline, `|`, `<` or `>`; names have fewer than 100 bytes; the files that
  -- count, the last of each kind, can be opened; and the entry of the array of pipes that no
  -- statement sets is no standard descriptor.
  pub execute_pipeline-print_line :
      (u v : ℕ) (st : List Stage)
      → length st ≡ suc m
      → length st ≤ 10
      → AllStages st
      → FilesOpen (meant st (files [] []))
      → 3 ≤ u
      → 3 ≤ v
      → Executed
          (meant st (files [] []))
          (map words_of st)
          (execute_pipeline can_read can_write (u, v) terminals (print_line st))
  execute_pipeline-print_line u v st l k h o hu hv =
      execute_pipeline-Executed u v (print_line st) (meant st (files [] [])) (map words_of st)
        (parse_commands-print_line st k h) (length-map st words_of ∙ l) o hu hv
