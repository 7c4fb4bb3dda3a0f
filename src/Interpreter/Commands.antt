-- ===== src/Interpreter/Commands.antt =====
-- A line that a user may write, as text, and what the interpreter reads from it.
pub mod Cuts
mod Redirects
use Cuts.{
  is_special, trim-command, file_name-word, join-append, Free-join, Free-weaken, Free-append,
  Free-replicate, WordOf-Free,
}
use Redirects.{Plain, Reads, Reads-none, Reads-output, Reads-input, Reads-both}
use eltex_summer.Base.{
  ℕ, zero, suc, ◌+◌, ◌≤◌, ◌<◌, ◌≡◌, refl, ap, ◌∙◌, Bool, Bool-cases, inl, inr, true, false, Option,
  none, some, List, [], ◌∷◌, ◌++◌, arith, ◌==◌, ◌||◌, length, length-append, replicate, map, take,
}
use eltex_summer.Text.{Text, strncpy, take_all}
use eltex_summer.Text.Tokens.{Free, WordOf, Words, Ending, join, tokens, tokens-join, skip}
use eltex_summer.Interpreter.{
  is_blank, is_pipe, is_argument_end, before, behind, behind_out, file_name, redirect, parse_files,
  parse_command, parse_each, parse_commands, execute_command, Files, trim, trim_end,
}
use eltex_summer.Interpreter.Files.{files}
use mathlib.Core.List.{append_assoc}

-- A command of a pipeline, as a user means it: the blanks in front of it, its words, and its files.
pub record Stage : Type 0 where
  pub lead : ℕ
  pub words : List Text
  pub output : Option Text
  pub input : Option Text

abbrev pub print_redirect : ℕ → Option Text → Text → Text
print_redirect b none e = e
print_redirect b (some f) e = 32 ∷ b ∷ 32 ∷ (f ++ e)

abbrev pub front : ℕ → List Text → Text
front n ws = replicate n 32 ++ join 32 ws []

abbrev pub print_stage : Stage → Text → Text
print_stage s e =
    front (s.lead) (s.words) ++ print_redirect b'>' (s.output) (print_redirect b'<' (s.input) e)

-- A name without special bytes that fits its buffer.
abbrev pub IsName : Option Text → Type 0
IsName none = Unit
IsName (some f) = WordOf is_special f × length f < 100

abbrev pub IsStage : Stage → Type 0
IsStage s =
    (0 < length (s.words))
    × Words is_special (s.words)
    × (length (join 32 (s.words) []) < 99)
    × IsName (s.output)
    × IsName (s.input)

pub length-Words : (ws : List Text) → Words is_special ws → length ws ≤ length (join 32 ws [])
length-Words [] h = omega arith
length-Words ([] ∷ ws) h = absurd cc
length-Words ((c ∷ w) ∷ []) h = omega (arith, length-append w [])
length-Words ((c ∷ w) ∷ v ∷ ws) h =
    omega (arith, length-append w (32 ∷ join 32 (v ∷ ws) []), length-Words (v ∷ ws) (h.1))

Ending-trim_end :
    (e : Text)
    → Ending is_argument_end e
    → Ending is_argument_end (trim_end e) × (length (trim_end e) ≤ 1)
unfolding trim_end
Ending-trim_end [] h = (tt, omega arith)
Ending-trim_end (c ∷ []) h = elim (Bool-cases (c == 32)) [
  | inl q ↦ rw q (tt, omega arith)
  | inr q ↦ rw q (h, omega arith)
]
Ending-trim_end (c ∷ d ∷ e) h = absurd cc

Words-weaken : (ws : List Text) → Words is_special ws → Words is_argument_end ws
Words-weaken [] h = tt
Words-weaken ([] ∷ ws) h = absurd cc
Words-weaken ((c ∷ w) ∷ ws) h = (
  Free-weaken is_special is_argument_end (c ∷ w) (λ b q. ground arith) (h.0),
  Words-weaken ws (h.1),
)

-- The name that a redirection means, or the one before it.
abbrev pub named : Option Text → Text → Text
named none old = old
named (some f) old = f

-- What is cut and trimmed is split into the words.
execute_command-front :
    (n : ℕ) (ws : List Text) (e : Text)
    → 0 < length ws
    → Words is_special ws
    → length (join 32 ws []) < 99
    → Ending is_argument_end e
    → execute_command (strncpy 99 (trim (skip is_blank (front n ws ++ e)))) ≡ ws
unfolding strncpy execute_command
execute_command-front n [] e z h l k = absurd (omega arith)
execute_command-front n (w ∷ ws) e z h l k =
    let t = trim_end e in
    let (k1, k2) = Ending-trim_end e k in
    let fits : length (join 32 (w ∷ ws) t) ≤ 99 = omega (
      arith,
      ap (λ (x : Text). length x) (join-append 32 (w ∷ ws) t),
      length-append (join 32 (w ∷ ws) []) t,
    ) in
    ap (λ (x : Text). execute_command (strncpy 99 (trim (skip is_blank x))))
      (append_assoc (replicate n 32) (join 32 (w ∷ ws) []) e
        ∙ ap (λ (x : Text). replicate n 32 ++ x) (join-append 32 (w ∷ ws) e))
    ∙ ap (λ (x : Text). execute_command (strncpy 99 x)) (trim-command n w ws e h)
    ∙ ap execute_command (take_all 99 (join 32 (w ∷ ws) t) fits)
    ∙ tokens-join 99 is_argument_end 32 (w ∷ ws) t (omega (arith, length-Words (w ∷ ws) h)) refl
        (Words-weaken (w ∷ ws) h) k1

-- What the parsing of one command gives.
abbrev pub Parsed : Text → List Text → Option Text → Option Text → Type 0
Parsed s ws o i =
    (execute_command (parse_command s) ≡ ws)
    × ((a b : Text) → parse_files s (files a b) ≡ files (named i a) (named o b))

redirect-name :
    (f e old : Text)
    → WordOf is_special f
    → length f < 100
    → Ending is_argument_end e
    → redirect (some (32 ∷ (f ++ e))) old ≡ f
unfolding strncpy
redirect-name f e old w l k = ap (take 99) (file_name-word f e w k) ∙ take_all 99 f (omega arith)

Parsed-Reads :
    (n : ℕ) (ws : List Text) (e s : Text) (i o : Option Text)
    → 0 < length ws
    → Words is_special ws
    → length (join 32 ws []) < 99
    → Ending is_argument_end e
    → Reads s i o (front n ws ++ e)
    → (execute_command (parse_command s) ≡ ws)
      × ((a b : Text) → parse_files s (files a b) ≡ files (redirect i a) (redirect o b))
unfolding parse_command parse_files
Parsed-Reads n ws e s i o z h l k (ri, ro, rc) = (
  ap (λ (x : Text). execute_command (strncpy 99 (trim (skip is_blank x)))) rc
      ∙ execute_command-front n ws e z h l k,
  λ a b. rw (ri, ro) refl,
)

Plain-Free : (x : Text) → Free is_special x → Plain x
Plain-Free x h = (
  Free-weaken is_special _ x (λ c q. ground arith) h,
  Free-weaken is_special _ x (λ c q. ground arith) h,
)

Plain-front : (n : ℕ) (ws : List Text) → Words is_special ws → Plain (front n ws)
Plain-front n ws h = (
  Free-append _ (replicate n 32) (join 32 ws []) (Free-replicate _ n 32 refl)
      (Free-join _ ws refl (λ c q. ground arith) h),
  Free-append _ (replicate n 32) (join 32 ws []) (Free-replicate _ n 32 refl)
      (Free-join _ ws refl (λ c q. ground arith) h),
)

Plain-Ending : (e : Text) → Ending is_argument_end e → Plain e
Plain-Ending [] h = (tt, tt)
Plain-Ending (c ∷ []) h = ((ground arith, tt), (ground arith, tt))
Plain-Ending (c ∷ d ∷ e) h = absurd cc

-- One command as it stands in a line is read as it was meant.
module _ (n : ℕ) (ws : List Text) (e : Text) where
  pub stage-Parsed :
      (o i : Option Text)
      → 0 < length ws
      → Words is_special ws
      → length (join 32 ws []) < 99
      → IsName o
      → IsName i
      → Ending is_argument_end e
      → Parsed (front n ws ++ print_redirect b'>' o (print_redirect b'<' i e)) ws o i
  stage-Parsed none none z h l ho hi k =
      let r = Reads-none (front n ws) e (Plain-front n ws h) (Plain-Ending e k) in
      Parsed-Reads n ws e _ none none z h l k r
  stage-Parsed (some f) none z h l (ho, m) hi k =
      let pf = Plain-Free f (WordOf-Free is_special f ho) in
      let r = Reads-output (front n ws) e (Plain-front n ws h) (Plain-Ending e k) f pf in
      let (c, d) = Parsed-Reads n ws (32 ∷ []) _ _ _ z h l refl r in
      (c, λ a b. d a b ∙ ap (files a) (redirect-name f e b ho m k))
  stage-Parsed none (some g) z h l ho (hi, m) k =
      let pg = Plain-Free g (WordOf-Free is_special g hi) in
      let r = Reads-input (front n ws) e (Plain-front n ws h) (Plain-Ending e k) g pg in
      let (c, d) = Parsed-Reads n ws (32 ∷ []) _ _ _ z h l refl r in
      (c, λ a b. d a b ∙ ap (λ (x : Text). files x b) (redirect-name g e a hi m k))
  stage-Parsed (some f) (some g) z h l (ho, m) (hi, m') k =
      let pf = Plain-Free f (WordOf-Free is_special f ho) in
      let pg = Plain-Free g (WordOf-Free is_special g hi) in
      let r = Reads-both (front n ws) e (Plain-front n ws h) (Plain-Ending e k) f g pf pg in
      let (c, d) = Parsed-Reads n ws (32 ∷ []) _ _ _ z h l refl r in
      (
        c,
        λ a b.
            d a b
            ∙ ap (λ (x : Text). files x (redirect (some (32 ∷ (f ++ 32 ∷ []))) b))
                (redirect-name g e a hi m' k)
            ∙ ap (files g) (redirect-name f (32 ∷ []) b ho m refl),
      )
