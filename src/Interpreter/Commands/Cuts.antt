-- ===== src/Interpreter/Commands/Cuts.antt =====
-- Where the text of a command is cut, and what the trimming leaves of it.
use eltex_summer.Base.{
  ℕ, zero, suc, ◌≡◌, refl, sym, ap, ◌∙◌, Bool, false, List, [], ◌∷◌, ◌++◌, ◌==◌, ◌||◌, arith,
  replicate,
}
use eltex_summer.Text.{Text}
use eltex_summer.Text.Tokens.{Free, WordOf, Words, Ending, join, skip, skip-stop}
use eltex_summer.Interpreter.{
  is_blank, before, behind, trim, trim_end, cons_or_nil, file_name, is_argument_end,
}
use mathlib.Core.List.{append_assoc, append-nil}

-- Bytes that stand in no word: a blank, the newline and the three signs.
abbrev pub is_special : ℕ → Bool
is_special c = (c == 32) || (c == 10) || (c == b'|') || (c == b'<') || (c == b'>')

-- The text has no byte `b`.
abbrev pub Without : ℕ → Text → Type 0
Without b s = Free (λ c. c == b) s

pub before-pass : (b : ℕ) (x s : Text) → Without b x → before b (x ++ s) ≡ x ++ before b s
unfolding before
before-pass b [] s h = refl
before-pass b (c ∷ x) s h = rw (h.0, before-pass b x s (h.1)) refl

pub behind-pass : (b : ℕ) (x s : Text) → Without b x → behind b (x ++ s) ≡ behind b s
unfolding behind
behind-pass b [] s h = refl
behind-pass b (c ∷ x) s h = rw (h.0, behind-pass b x s (h.1)) refl

-- A word has none of the special bytes.
pub Free-weaken :
    (d e : ℕ → Bool) (x : Text) → ((c : ℕ) → d c ≡ false → e c ≡ false) → Free d x → Free e x
Free-weaken d e [] w h = tt
Free-weaken d e (c ∷ x) w h = (w c (h.0), Free-weaken d e x w (h.1))

pub WordOf-Free : (d : ℕ → Bool) (x : Text) → WordOf d x → Free d x
WordOf-Free d [] h = tt
WordOf-Free d (c ∷ x) h = h

pub Free-append : (d : ℕ → Bool) (x y : Text) → Free d x → Free d y → Free d (x ++ y)
Free-append d [] y h k = k
Free-append d (c ∷ x) y h k = (h.0, Free-append d x y (h.1) k)

pub Free-replicate : (d : ℕ → Bool) (n c : ℕ) → d c ≡ false → Free d (replicate n c)
Free-replicate d zero c h = tt
Free-replicate d (suc n) c h = (h, Free-replicate d n c h)

-- Words that blanks join, where neither the words nor the blank are delimiters.
pub Free-join :
    (d : ℕ → Bool) (ws : List Text)
    → d 32 ≡ false
    → ((c : ℕ) → is_special c ≡ false → d c ≡ false)
    → Words is_special ws
    → Free d (join 32 ws [])
Free-join d [] b w h = tt
Free-join d (x ∷ []) b w h =
    Free-append d x [] (Free-weaken is_special d x w (WordOf-Free is_special x (h.0))) tt
Free-join d (x ∷ y ∷ ws) b w h =
    Free-append d x (32 ∷ join 32 (y ∷ ws) [])
      (Free-weaken is_special d x w (WordOf-Free is_special x (h.0)))
      (b, Free-join d (y ∷ ws) b w (h.1))

pub join-append : (c : ℕ) (ws : List Text) (e : Text) → join c ws [] ++ e ≡ join c ws e
join-append c [] e = refl
join-append c (w ∷ []) e = rw (append-nil w) refl
join-append c (w ∷ v ∷ ws) e =
    append_assoc w (c ∷ join c (v ∷ ws) []) e
    ∙ ap (λ (t : Text). w ++ c ∷ t) (join-append c (v ∷ ws) e)

join-head :
    (c b : ℕ) (v : Text) (ws : List Text) (e : Text)
    → join c ((b ∷ v) ∷ ws) e ≡ b ∷ join c (v ∷ ws) e
join-head c b v [] e = refl
join-head c b v (w ∷ ws) e = refl

pub skip-blanks : (n : ℕ) (s : Text) → skip is_blank (replicate n 32 ++ s) ≡ skip is_blank s
unfolding skip
skip-blanks zero s = refl
skip-blanks (suc n) s = skip-blanks n s

cons_or_nil-other : (c : ℕ) (s : Text) → (c == 32) ≡ false → cons_or_nil c s ≡ c ∷ s
cons_or_nil-other c [] h = rw h refl
cons_or_nil-other c (d ∷ s) h = refl

trim_end-pass : (x t : Text) → Free is_special x → trim_end (x ++ t) ≡ x ++ trim_end t
unfolding trim_end
trim_end-pass [] t h = refl
trim_end-pass (c ∷ x) t h =
    rw (trim_end-pass x t (h.1)) (cons_or_nil-other c (x ++ trim_end t) (ground arith))

trim_end-blank : (s : Text) (b : ℕ) (r : Text) → trim_end s ≡ b ∷ r → trim_end (32 ∷ s) ≡ 32 ∷ b ∷ r
unfolding trim_end
trim_end-blank s b r e = rw e refl

trim_end-join :
    (w : Text) (ws : List Text) (t : Text)
    → Free is_special w
    → Words is_special ws
    → trim_end (join 32 (w ∷ ws) t) ≡ join 32 (w ∷ ws) (trim_end t)
trim_end-join w [] t h k = trim_end-pass w t h
trim_end-join w ([] ∷ ws) t h k = absurd cc
trim_end-join w ((b ∷ v) ∷ ws) t h k =
    trim_end-pass w (32 ∷ join 32 ((b ∷ v) ∷ ws) t) h
    ∙ ap (◌++◌ w) (
        trim_end-blank _ b (join 32 (v ∷ ws) (trim_end t))
          (trim_end-join (b ∷ v) ws t (k.0) (k.1) ∙ join-head 32 b v ws (trim_end t))
        ∙ ap (◌∷◌ 32) (sym (join-head 32 b v ws (trim_end t))))

pub trim-command :
    (n : ℕ) (w : Text) (ws : List Text) (t : Text)
    → Words is_special (w ∷ ws)
    → trim (skip is_blank (replicate n 32 ++ join 32 (w ∷ ws) t)) ≡ join 32 (w ∷ ws) (trim_end t)
unfolding trim
trim-command n [] ws t h = absurd cc
trim-command n (b ∷ w) ws t h =
    ap trim (skip-blanks n _ ∙ ap (skip is_blank) (join-head 32 b w ws t))
    ∙ ap trim (skip-stop is_blank b _ (ground arith))
    ∙ sym (cons_or_nil-other b _ (ground arith))
    ∙ ap trim_end (sym (join-head 32 b w ws t))
    ∙ trim_end-join (b ∷ w) ws t (h.0) (h.1)

trim_end-Ending : (e : Text) → Ending is_argument_end e → before 10 (trim_end e) ≡ []
unfolding before trim_end
trim_end-Ending [] h = refl
trim_end-Ending (c ∷ []) h = ground arith
trim_end-Ending (c ∷ d ∷ e) h = absurd cc

-- A name behind its sign and a blank, up to what may follow it.
pub file_name-word :
    (f e : Text) → WordOf is_special f → Ending is_argument_end e → file_name (32 ∷ f ++ e) ≡ f
unfolding file_name
file_name-word [] e h k = absurd cc
file_name-word (b ∷ f) e h k =
    ap (λ (t : Text). before 10 (trim t)) (skip-stop is_blank b (f ++ e) (ground arith))
    ∙ ap (λ (t : Text). before 10 (b ∷ t)) (trim_end-pass f e (h.1))
    ∙ before-pass 10 (b ∷ f) (trim_end e) (Free-weaken is_special _ (b ∷ f) (λ c q. ground arith) h)
    ∙ ap (λ (t : Text). (b ∷ f) ++ t) (trim_end-Ending e k)
    ∙ append-nil (b ∷ f)
