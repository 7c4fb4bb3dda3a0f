-- ===== src/Interpreter/Lines.antt =====
-- A whole line: the pipeline that a user means, as text, and what the interpreter reads from it.
use eltex_summer.Base.{
  ℕ, ◌≤◌, ◌≡◌, refl, ap, ◌∙◌, false, Option, some, none, List, [], ◌∷◌, ◌++◌, arith, length, map,
  suc, Bool, ◌<◌, replicate, length-append,
}
use eltex_summer.Text.{Text}
use eltex_summer.Text.Tokens.{Free, WordOf, Words, Ending, join, tokens-join}
use eltex_summer.Interpreter.{
  is_pipe, is_argument_end, parse_files, parse_command, parse_each, parse_commands, execute_command,
  Files,
}
use eltex_summer.Interpreter.Files.{files}
use eltex_summer.Interpreter.Commands.{
  Stage, IsStage, print_stage, print_redirect, named, stage-Parsed, Parsed, front, length-Words,
  IsName,
}
use eltex_summer.Interpreter.Commands.Cuts.{
  is_special, Free-weaken, Free-append, Free-replicate, Free-join, WordOf-Free,
}

-- The commands as they stand between the `|`: a blank before a `|`, the newline at the end.
abbrev pub stage_texts : List Stage → List Text
stage_texts [] = []
stage_texts (s ∷ []) = print_stage s (10 ∷ []) ∷ []
stage_texts (s ∷ r ∷ rest) = print_stage s (32 ∷ []) ∷ stage_texts (r ∷ rest)

abbrev pub print_line : List Stage → Text
print_line st = join b'|' (stage_texts st) []

abbrev pub AllStages : List Stage → Type 0
AllStages [] = Unit
AllStages (s ∷ st) = IsStage s × AllStages st

-- The files meant: the last redirection of each kind counts.
abbrev pub meant : List Stage → Files → Files
meant [] f = f
meant (s ∷ st) (files a b) = meant st (files (named (s.input) a) (named (s.output) b))

abbrev pub words_of : Stage → List Text
words_of s = s.words

-- The pipeline as the interpreter runs it: the arguments of each command, and the files.
abbrev pub arguments : List Text × Files → List (List Text) × Files
arguments (cmds, f) = (map execute_command cmds, f)

length-stage_texts : (st : List Stage) → length (stage_texts st) ≡ length st
length-stage_texts [] = refl
length-stage_texts (s ∷ []) = refl
length-stage_texts (s ∷ r ∷ rest) = ap suc (length-stage_texts (r ∷ rest))

WordOf-nonempty : (d : ℕ → Bool) (x : Text) → 0 < length x → Free d x → WordOf d x
WordOf-nonempty d [] z h = absurd (omega arith)
WordOf-nonempty d (c ∷ x) z h = h

Free-print_redirect :
    (b : ℕ) (o : Option Text) (e : Text)
    → is_pipe b ≡ false
    → IsName o
    → Free is_pipe e
    → Free is_pipe (print_redirect b o e)
Free-print_redirect b none e q h k = k
Free-print_redirect b (some f) e q h k =
    let w =
      Free-weaken is_special is_pipe f (λ c r. ground arith) (WordOf-Free is_special f (h.0)) in
    (refl, (q, (refl, Free-append is_pipe f e w k)))

-- No `|` stands in a command's text, and it is not empty.
print_stage-WordOf :
    (s : Stage) (e : Text) → IsStage s → Free is_pipe e → WordOf is_pipe (print_stage s e)
print_stage-WordOf s e (z, h, l, ho, hi) k =
    let p = front (s.lead) (s.words) in
    let r = print_redirect b'>' (s.output) (print_redirect b'<' (s.input) e) in
    let free : Free is_pipe p =
      Free-append is_pipe (replicate (s.lead) 32) (join 32 (s.words) [])
        (Free-replicate is_pipe (s.lead) 32 refl)
        (Free-join is_pipe (s.words) refl (λ c q. ground arith) h) in
    WordOf-nonempty is_pipe (p ++ r)
      (omega (
        arith,
        length-append p r,
        length-append (replicate (s.lead) 32) (join 32 (s.words) []),
        length-Words (s.words) h,
      ))
      (Free-append is_pipe p r free (
        Free-print_redirect b'>' (s.output) _ refl ho
          (Free-print_redirect b'<' (s.input) e refl hi k)))

print_stage-Parsed :
    (s : Stage) (e : Text)
    → IsStage s
    → Ending is_argument_end e
    → Parsed (print_stage s e) (s.words) (s.output) (s.input)
print_stage-Parsed s e (z, h, l, ho, hi) k =
    stage-Parsed (s.lead) (s.words) e (s.output) (s.input) z h l ho hi k

stage_texts-Words : (st : List Stage) → AllStages st → Words is_pipe (stage_texts st)
stage_texts-Words [] h = tt
stage_texts-Words (s ∷ []) h = (print_stage-WordOf s (10 ∷ []) (h.0) (refl, tt), tt)
stage_texts-Words (s ∷ r ∷ rest) h =
    (print_stage-WordOf s (32 ∷ []) (h.0) (refl, tt), stage_texts-Words (r ∷ rest) (h.1))

parse_each-cons :
    (t : Text) (ts : List Text) (f : Files)
    → arguments (parse_each (t ∷ ts) f) ≡ (
      execute_command (parse_command t) ∷ (arguments (parse_each ts (parse_files t f))).0,
      (arguments (parse_each ts (parse_files t f))).1,
    )
unfolding parse_each
parse_each-cons t ts f = refl

parse_each-Parsed :
    (t : Text) (ws : List Text) (o i : Option Text) (ts : List Text) (a b : Text)
    → Parsed t ws o i
    → arguments (parse_each (t ∷ ts) (files a b)) ≡ (
      ws ∷ (arguments (parse_each ts (files (named i a) (named o b)))).0,
      (arguments (parse_each ts (files (named i a) (named o b)))).1,
    )
parse_each-Parsed t ws o i ts a b (c, d) = parse_each-cons t ts (files a b) ∙ rw (c, d a b) refl

parse_each-stage_texts :
    (st : List Stage) (f : Files)
    → AllStages st
    → arguments (parse_each (stage_texts st) f) ≡ (map words_of st, meant st f)
unfolding parse_each
parse_each-stage_texts [] f h = refl
parse_each-stage_texts (s ∷ []) (files a b) h =
    parse_each-Parsed (print_stage s (10 ∷ [])) (s.words) (s.output) (s.input) [] a b
      (print_stage-Parsed s (10 ∷ []) (h.0) refl)
parse_each-stage_texts (s ∷ r ∷ rest) (files a b) h =
    parse_each-Parsed (print_stage s (32 ∷ [])) (s.words) (s.output) (s.input)
      (stage_texts (r ∷ rest)) a b (print_stage-Parsed s (32 ∷ []) (h.0) refl)
    ∙ ap (λ (x : List (List Text) × Files). (s.words ∷ x.0, x.1))
        (parse_each-stage_texts (r ∷ rest) (files (named (s.input) a) (named (s.output) b)) (h.1))

-- A line of at most ten commands, each of at least one word and shorter than 99 bytes, with or
-- without an output file and behind it an input file, is read as it was meant: the words of each
-- command are the arguments it is run with, and of the files of each kind the last one counts.
-- Words and names hold no blank, newline, `|`, `<` or `>`, and names are shorter than 100 bytes.
pub parse_commands-print_line :
    (st : List Stage)
    → length st ≤ 10
    → AllStages st
    → arguments (parse_commands (print_line st)) ≡ (map words_of st, meant st (files [] []))
unfolding parse_commands
parse_commands-print_line st l h =
    ap (λ (ts : List Text). arguments (parse_each ts (files [] [])))
      (tokens-join 10 is_pipe b'|' (stage_texts st) [] (omega (arith, length-stage_texts st)) refl
        (stage_texts-Words st h) tt)
    ∙ parse_each-stage_texts st (files [] []) h
