-- ===== src/Interpreter/Pipes.antt =====
-- The pipeline: module3/04/src/interpreter.c, `execute_pipeline`. A process has a table of
-- descriptors; a descriptor is an index into it. The pipes that the parent makes are numbered from
-- 0. That `pipe`, `fork` and `dup2` succeed is assumed; whether a file can be opened is a parameter.
pub mod Ends
pub mod Streams
pub mod Children
use eltex_summer.Base.{
  ℕ, zero, suc, ◌+◌, ◌-◌, ◌++◌, Bool, true, false, Option, none, some, List, [], ◌∷◌, ltb, ◌==◌,
  ◌&&◌, not, if◌then◌else◌, get_elem?, get_or, set, length, ◌>>=◌,
}
use eltex_summer.Text.{Text}
use eltex_summer.Interpreter.{Files, execute_command, parse_commands}
use eltex_summer.Interpreter.Files.{files}

-- What a descriptor stands for.
pub data Stream : Type 0 where
  terminal : Stream
  opened_to_read : Text → Stream
  opened_to_write : Text → Stream
  read_end : ℕ → Stream
  write_end : ℕ → Stream

abbrev pub Table : Type 0
Table = List (Option Stream)

-- The lowest free descriptor is taken.
unfoldable pub take_lowest : Table → Stream → ℕ × Table
take_lowest [] s = (0, some s ∷ [])
take_lowest (none ∷ t) s = (0, some s ∷ t)
take_lowest (some x ∷ t) s = let (fd, u) = take_lowest t s in (suc fd, some x ∷ u)

abbrev pub close : ℕ → Table → Table
close fd t = set t fd none

-- `dup2(old, new)`, where `new` is in the table; a closed `old` is refused and changes nothing.
unfoldable pub dup2 : ℕ → ℕ → Table → Table
dup2 old new t = elim (get_elem? t old) [
  | some (some s) ↦ set t new (some s)
  | some none ↦ t
  | none ↦ t
]

-- One call of `pipe`: the descriptors of its read end and its write end.
unfoldable pub pipe : ℕ → Table → (ℕ × ℕ) × Table
unfolding take_lowest
pipe k t =
    let (r, u) = take_lowest t (read_end k) in
    let (w, v) = take_lowest u (write_end k) in ((r, w), v)

-- The parent's loop: `left` pipes are still to make, the first of them is number `k`.
unfoldable pub make_pipes : ℕ → ℕ → Table → List (ℕ × ℕ) × Table
unfolding pipe
make_pipes zero k t = ([], t)
make_pipes (suc left) k t =
    let (p, u) = pipe k t in let (ps, v) = make_pipes left (suc k) u in (p ∷ ps, v)

-- The loops that close both ends of each pipe in the array.
unfoldable pub close_pipes : List (ℕ × ℕ) → Table → Table
close_pipes [] t = t
close_pipes ((r, w) ∷ ps) t = close_pipes ps (close w (close r t))

-- A process after `fork`: it goes on with a table, or it has ended.
pub data Child : Type 0 where
  runs : Table → Child
  ends : Child

-- `open`, `dup2` onto a standard descriptor, `close`.
unfoldable pub redirect_to : ℕ → Stream → Table → Table
unfolding take_lowest dup2
redirect_to std s t = let (fd, u) = take_lowest t s in close fd (dup2 fd std u)

abbrev pub is_given : Text → Bool
is_given [] = false
is_given (c ∷ s) = true

module _ (can_read can_write : Text → Bool) where
  -- Lines 93 to 108: the standard input of child `i`. `pipes` has the pair of each pipe.
  unfoldable pub child_input : ℕ → List (ℕ × ℕ) → Text → Table → Child
  unfolding redirect_to dup2
  child_input zero pipes input t =
      if is_given input
      then if can_read input then runs (redirect_to 0 (opened_to_read input) t) else ends
      else runs t
  child_input (suc i) pipes input t = runs (dup2 ((get_or pipes i (0, 0)).0) 0 t)

  -- Lines 109 to 119: the standard output.
  unfoldable pub child_output : ℕ → ℕ → List (ℕ × ℕ) → Text → Table → Child
  unfolding redirect_to dup2
  child_output n i pipes output t =
      if ltb i (n - 1)
      then runs (dup2 ((get_or pipes i (0, 0)).1) 1 t)
      else if is_given output
      then if can_write output then runs (redirect_to 1 (opened_to_write output) t) else ends
      else runs t

  abbrev pub then_output : ℕ → ℕ → List (ℕ × ℕ) → Text → Child → Child
  unfolding child_output
  then_output n i pipes output ends = ends
  then_output n i pipes output (runs t) = child_output n i pipes output t

  abbrev pub then_close : List (ℕ × ℕ) → Child → Child
  unfolding close_pipes
  then_close pipes ends = ends
  then_close pipes (runs t) = runs (close_pipes pipes t)

  -- Child `i` of `n` up to `execute_command`. Its closing loop takes one entry of the array more
  -- than there are pipes; `unset` is what that entry, which no statement sets, holds.
  unfoldable pub child : ℕ → ℕ → List (ℕ × ℕ) → ℕ × ℕ → Files → Table → Child
  unfolding child_input child_output close_pipes
  child n i pipes unset (files input output) t =
      then_close (pipes ++ unset ∷ []) (then_output n i pipes output (child_input i pipes input t))

  -- The loop over the commands, from command `i` on: what each is run with.
  unfoldable pub fork_each :
      ℕ → List (ℕ × ℕ) → ℕ × ℕ → Files → Table → ℕ → List Text → List (List Text × Child)
  unfolding child execute_command
  fork_each n pipes unset f t i [] = []
  fork_each n pipes unset f t i (cmd ∷ cmds) =
      (execute_command cmd, child n i pipes unset f t) ∷ fork_each n pipes unset f t (suc i) cmds

  unfoldable pub run_parsed : ℕ × ℕ → Table → List Text × Files → List (List Text × Child) × Table
  unfolding make_pipes fork_each close_pipes
  run_parsed unset t (cmds, f) =
      let (pipes, u) = make_pipes (length cmds - 1) 0 t in
      (fork_each (length cmds) pipes unset f u 0 cmds, close_pipes pipes u)

  -- The children, each with its arguments, and the parent's table when it waits for them.
  unfoldable pub execute_pipeline : ℕ × ℕ → Table → Text → List (List Text × Child) × Table
  unfolding parse_commands run_parsed
  execute_pipeline unset t input = run_parsed unset t (parse_commands input)
