-- ===== src/Text/Tokens.antt =====
-- `strtok` and its loops: the words of a text between delimiters.
use eltex_summer.Base.{
  ℕ, zero, suc, ◌≤◌, ◌≡◌, refl, Bool, true, false, Option, none, some, List, [], ◌∷◌, ◌++◌, arith,
  if◌then◌else◌, length,
}
use eltex_summer.Text.{Text}
use mathlib.Core.List.{append-nil}

-- The text from its first byte that is not a delimiter.
unfoldable pub skip : (ℕ → Bool) → Text → Text
skip d [] = []
skip d (c ∷ s) = let rest = skip d s in if d c then rest else c ∷ s

-- The bytes up to the first delimiter, and those behind it.
unfoldable pub token_end : (ℕ → Bool) → Text → Text × Text
token_end d [] = ([], [])
token_end d (c ∷ s) = let (t, rest) = token_end d s in if d c then ([], s) else (c ∷ t, rest)

-- One call of `strtok`: the next word and the text that a further call goes on with.
unfoldable pub strtok : (ℕ → Bool) → Text → Option (Text × Text)
unfolding skip token_end
strtok d s = elim (skip d s) [ [] ↦ none | c ∷ t ↦ some (token_end d (c ∷ t)) ]

-- The loop that takes words until `strtok` gives none or `limit` words are taken.
unfoldable pub tokens : ℕ → (ℕ → Bool) → Text → List Text
unfolding strtok
tokens zero d s = []
tokens (suc limit) d s = elim (strtok d s) [ none ↦ [] | some (t, rest) ↦ t ∷ tokens limit d rest ]

-- No byte of the text is a delimiter.
abbrev pub Free : (ℕ → Bool) → Text → Type 0
Free d [] = Unit
Free d (c ∷ s) = (d c ≡ false) × Free d s

-- A word: not empty and without a delimiter.
abbrev pub WordOf : (ℕ → Bool) → Text → Type 0
WordOf d [] = true ≡ false
WordOf d (c ∷ s) = Free d (c ∷ s)

pub skip-stop : (d : ℕ → Bool) (c : ℕ) (s : Text) → d c ≡ false → skip d (c ∷ s) ≡ c ∷ s
unfolding skip
skip-stop d c s h = rw h refl

token_end-Free : (d : ℕ → Bool) (w : Text) → Free d w → token_end d w ≡ (w, [])
unfolding token_end
token_end-Free d [] h = refl
token_end-Free d (c ∷ w) h = rw (h.0, token_end-Free d w (h.1)) refl

token_end-delimiter :
    (d : ℕ → Bool) (w rest : Text) (c : ℕ)
    → Free d w
    → d c ≡ true
    → token_end d (w ++ c ∷ rest) ≡ (w, rest)
unfolding token_end
token_end-delimiter d [] rest c h e = rw e refl
token_end-delimiter d (b ∷ w) rest c h e = rw (h.0, token_end-delimiter d w rest c (h.1) e) refl

-- The last word: `strtok` gives it and nothing is left.
strtok-last : (d : ℕ → Bool) (w : Text) → WordOf d w → strtok d w ≡ some (w, [])
unfolding strtok
strtok-last d [] h = absurd cc
strtok-last d (c ∷ w) h = rw (skip-stop d c w (h.0), strtok, token_end-Free d (c ∷ w) h) refl

-- A word before a delimiter.
strtok-word :
    (d : ℕ → Bool) (w rest : Text) (c : ℕ)
    → WordOf d w
    → d c ≡ true
    → strtok d (w ++ c ∷ rest) ≡ some (w, rest)
unfolding strtok
strtok-word d [] rest c h e = absurd cc
strtok-word d (b ∷ w) rest c h e =
    rw (skip-stop d b (w ++ c ∷ rest) (h.0), strtok, token_end-delimiter d (b ∷ w) rest c h e) refl

-- Texts with one byte between them, before an ending.
abbrev pub join : ℕ → List Text → Text → Text
join c [] e = e
join c (w ∷ []) e = w ++ e
join c (w ∷ v ∷ ws) e = w ++ c ∷ join c (v ∷ ws) e

abbrev pub Words : (ℕ → Bool) → List Text → Type 0
Words d [] = Unit
Words d (w ∷ ws) = WordOf d w × Words d ws

-- Nothing, or one delimiter.
abbrev pub Ending : (ℕ → Bool) → Text → Type 0
Ending d [] = Unit
Ending d (c ∷ []) = d c ≡ true
Ending d (c ∷ b ∷ s) = true ≡ false

strtok-Ending :
    (d : ℕ → Bool) (w e : Text) → WordOf d w → Ending d e → strtok d (w ++ e) ≡ some (w, [])
strtok-Ending d w [] h k = rw (append-nil w) (strtok-last d w h)
strtok-Ending d w (c ∷ []) h k = strtok-word d w [] c h k
strtok-Ending d w (c ∷ b ∷ s) h k = absurd cc

tokens-nil : (limit : ℕ) (d : ℕ → Bool) → tokens limit d [] ≡ []
unfolding tokens skip
tokens-nil zero d = refl
tokens-nil (suc limit) d = refl

tokens-Ending : (limit : ℕ) (d : ℕ → Bool) (e : Text) → Ending d e → tokens limit d e ≡ []
unfolding tokens skip
tokens-Ending zero d e k = refl
tokens-Ending (suc limit) d [] k = refl
tokens-Ending (suc limit) d (c ∷ []) k = rw (k, tokens, strtok, skip) refl
tokens-Ending (suc limit) d (c ∷ b ∷ s) k = absurd cc

-- The loop gives back words that one delimiter joins, where it may take as many.
pub tokens-join :
    (limit : ℕ) (d : ℕ → Bool) (c : ℕ) (ws : List Text) (e : Text)
    → length ws ≤ limit
    → d c ≡ true
    → Words d ws
    → Ending d e
    → tokens limit d (join c ws e) ≡ ws
unfolding tokens
tokens-join limit d c [] e l h ok k = tokens-Ending limit d e k
tokens-join zero d c (w ∷ ws) e l h ok k = absurd (omega arith)
tokens-join (suc limit) d c (w ∷ []) e l h ok k =
    rw (strtok-Ending d w e (ok.0) k, tokens, tokens-nil limit d) refl
tokens-join (suc limit) d c (w ∷ v ∷ ws) e l h ok k =
    rw
      (
        strtok-word d w (join c (v ∷ ws) e) c (ok.0) h,
        tokens,
        tokens-join limit d c (v ∷ ws) e (omega arith) h (ok.1) k,
      )
      refl
