-- ===== src/DataFile/Sharing.antt =====
-- What the semaphores keep, whoever goes first.
use eltex_summer.Base.{
  ℕ, ◌+◌, ◌≤◌, ◌<◌, ◌≡◌, refl, sym, ap, ◌∙◌, Option, some, List, [], ◌∷◌, ◌++◌, length, arith,
}
use mathlib.Core.List.{append_assoc, append-nil}
use eltex_summer.Text.{Text}
use eltex_summer.DataFile.{max_numbers, line_text, write_data_line, read_data_line}
use eltex_summer.DataFile.Lines.{read_data_line-write_data_line}
use eltex_summer.DataFile.Processes.{
  Line, Producer, ready, writing, leaving, posting, ended, returned, Consumer, waiting, entering,
  reading, with_line, at_end, finished, World, written,
}

-- A line of 1 to 20 numbers that takes at most 254 bytes.
abbrev pub Fits : Line → Type 0
Fits l = (0 < length l) × (length l ≤ max_numbers) × (length (line_text l) < 255)

abbrev pub AllFit : List Line → Type 0
AllFit [] = Unit
AllFit (l ∷ ls) = Fits l × AllFit ls

-- The text that the lines make.
abbrev pub texts : List Line → Text
texts [] = []
texts (l ∷ ls) = written (write_data_line l) ++ texts ls

texts-append : (xs ys : List Line) → texts (xs ++ ys) ≡ texts xs ++ texts ys
texts-append [] ys = refl
texts-append (l ∷ xs) ys =
    ap (◌++◌ (written (write_data_line l))) (texts-append xs ys)
    ∙ sym (append_assoc (written (write_data_line l)) (texts xs) (texts ys))

pub texts_end :
    (xs : List Line) (l : Line) → texts xs ++ written (write_data_line l) ≡ texts (xs ++ l ∷ [])
texts_end xs l =
    sym (texts-append xs (l ∷ []) ∙ ap (◌++◌ (texts xs)) (append-nil (written (write_data_line l))))

pub read_first :
    (l : Line) (ls : List Line) → Fits l → read_data_line (texts (l ∷ ls)) ≡ some (l, texts ls)
read_first l ls (a, b, c) =
    let (w, r) = read_data_line-write_data_line l (texts ls) a b c in
    ap (λ (x : Text). read_data_line x)
      (ap (λ (o : Option Text). written o ++ texts ls) w
        ∙ append_assoc (line_text l) (10 ∷ []) (texts ls))
    ∙ r

pub AllFit-append : (xs : List Line) (l : Line) → AllFit xs → Fits l → AllFit (xs ++ l ∷ [])
AllFit-append [] l a f = (f, tt)
AllFit-append (x ∷ xs) l (b, a) f = (b, AllFit-append xs l a f)

-- The lines that the producer has still to write, and the line that the consumer holds.
abbrev pub coming : Producer → List Line
coming (ready todo) = todo
coming (writing l todo) = l ∷ todo
coming (leaving todo) = todo
coming (posting todo) = todo
coming ended = []
coming returned = []

abbrev pub held : Consumer → List Line
held waiting = []
held entering = []
held reading = []
held (with_line l) = l ∷ []
held at_end = []
held finished = []

-- 1 between `sem_wait(sem)` and `sem_post(sem)`.
abbrev pub in_write : Producer → ℕ
in_write (ready todo) = 0
in_write (writing l todo) = 1
in_write (leaving todo) = 1
in_write (posting todo) = 0
in_write ended = 0
in_write returned = 0

abbrev pub in_read : Consumer → ℕ
in_read waiting = 0
in_read entering = 0
in_read reading = 1
in_read (with_line l) = 1
in_read at_end = 1
in_read finished = 0

-- 1 where a line is in the file whose `sem_post(empty)` is to come; after the last post; and where a
-- `sem_wait(empty)` has passed whose line is not read.
abbrev pub owed : Producer → ℕ
owed (ready todo) = 0
owed (writing l todo) = 0
owed (leaving todo) = 1
owed (posting todo) = 1
owed ended = 0
owed returned = 0

abbrev pub last_post : Producer → ℕ
last_post (ready todo) = 0
last_post (writing l todo) = 0
last_post (leaving todo) = 0
last_post (posting todo) = 0
last_post ended = 0
last_post returned = 1

abbrev pub taken : Consumer → ℕ
taken waiting = 0
taken entering = 1
taken reading = 1
taken (with_line l) = 0
taken at_end = 1
taken finished = 1

-- Where the consumer has met the end of the file nothing is left to read or to write.
abbrev pub Over : Consumer → Producer → List Line → Type 0
Over waiting p between = Unit
Over entering p between = Unit
Over reading p between = Unit
Over (with_line l) p between = Unit
Over at_end p between = (between ≡ []) × (p ≡ returned)
Over finished p between = (between ≡ []) × (p ≡ returned)

-- `between` are the lines in the file that are not read.
pub record Shares (lines between : List Line) (s : World) (p : Producer) (c : Consumer)
    : Type 0 where
  pub text : s.unread ≡ texts between
  pub order : s.processed ++ (held c ++ (between ++ coming p)) ≡ lines
  pub one_inside : s.sem + in_write p + in_read c ≡ 1
  pub tokens : s.empty + taken c + owed p ≡ length between + last_post p
  pub over : Over c p between
  pub fits : AllFit between
  pub fits_coming : AllFit (coming p)

pub written_order :
    (done holds between todo lines : List Line) (l : Line)
    → done ++ (holds ++ (between ++ l ∷ todo)) ≡ lines
    → done ++ (holds ++ ((between ++ l ∷ []) ++ todo)) ≡ lines
written_order done holds between todo lines l e = rw (append_assoc between (l ∷ []) todo) e

pub read_order :
    (done rest lines : List Line) (l : Line)
    → done ++ (l ∷ rest) ≡ lines
    → (done ++ l ∷ []) ++ rest ≡ lines
read_order done rest lines l e = rw (append_assoc done (l ∷ []) rest) e

pub returned-of_tokens : (p : Producer) (e : ℕ) → e + 1 + owed p ≡ 0 + last_post p → p ≡ returned
returned-of_tokens (ready todo) e q = absurd (omega arith)
returned-of_tokens (writing l todo) e q = absurd (omega arith)
returned-of_tokens (leaving todo) e q = absurd (omega arith)
returned-of_tokens (posting todo) e q = absurd (omega arith)
returned-of_tokens ended e q = absurd (omega arith)
returned-of_tokens returned e q = refl
