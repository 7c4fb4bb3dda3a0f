-- ===== src/Interpreter/Commands/Redirects.antt =====
-- A command with its redirections, the output file first: what each step of the parsing reads.
use eltex_summer.Base.{ℕ, ◌≡◌, refl, ap, ◌∙◌, Option, none, some, [], ◌∷◌, ◌++◌}
use eltex_summer.Text.{Text}
use eltex_summer.Interpreter.{before, behind, behind_both, behind_out}
use eltex_summer.Interpreter.Commands.Cuts.{Without, before-pass, behind-pass, Free-append}

before-none : (b : ℕ) (x : Text) → Without b x → before b x ≡ x
unfolding before
before-none b [] h = refl
before-none b (c ∷ x) h = rw (h.0, before-none b x (h.1)) refl

behind-none : (b : ℕ) (x : Text) → Without b x → behind b x ≡ none
unfolding behind
behind-none b [] h = refl
behind-none b (c ∷ x) h = rw (h.0, behind-none b x (h.1)) refl

-- No byte of the text redirects.
abbrev pub Plain : Text → Type 0
Plain x = Without b'<' x × Without b'>' x

Plain-append : (x y : Text) → Plain x → Plain y → Plain (x ++ y)
Plain-append x y h k = (Free-append _ x y (h.0) (k.0), Free-append _ x y (h.1) (k.1))

-- The three readings of a command's text: behind `<`, behind `>`, and before both.
abbrev pub Reads : Text → Option Text → Option Text → Text → Type 0
Reads s i o c = (behind b'<' s ≡ i) × (behind_out s ≡ o) × (before b'>' (before b'<' s) ≡ c)

behind_out-no_input : (s : Text) → behind b'<' s ≡ none → behind_out s ≡ behind b'>' s
unfolding behind_out
behind_out-no_input s h = rw (h, behind_out) refl

behind_out-before :
    (s t q : Text)
    → behind b'<' s ≡ some t
    → behind b'>' (before b'<' s) ≡ some q
    → behind_out s ≡ some q
unfolding behind_out
behind_out-before s t q h k = rw (h, behind_out, k) refl

behind_out-neither :
    (s t : Text)
    → behind b'<' s ≡ some t
    → behind b'>' (before b'<' s) ≡ none
    → behind b'>' t ≡ none
    → behind_out s ≡ none
unfolding behind_out behind_both
behind_out-neither s t h k l = rw (h, behind_out, k, behind_both, l) refl

module _ (p e : Text) (hp : Plain p) (he : Plain e) where
  pub Reads-none : Reads (p ++ e) none none (p ++ e)
  Reads-none =
      let h = Plain-append p e hp he in
      (
        behind-none b'<' (p ++ e) (h.0),
        behind_out-no_input (p ++ e) (behind-none b'<' (p ++ e) (h.0))
            ∙ behind-none b'>' (p ++ e) (h.1),
        ap (before b'>') (before-none b'<' (p ++ e) (h.0)) ∙ before-none b'>' (p ++ e) (h.1),
      )

  pub Reads-output :
      (f : Text)
      → Plain f
      → Reads (p ++ 32 ∷ b'>' ∷ 32 ∷ (f ++ e)) none (some (32 ∷ (f ++ e))) (p ++ 32 ∷ [])
  unfolding behind before
  Reads-output f hf =
      let h = Plain-append f e hf he in
      let rest = 32 ∷ b'>' ∷ 32 ∷ (f ++ e) in
      let free : Without b'<' (p ++ rest) =
        Free-append _ p rest (hp.0) (refl, (refl, (refl, h.0))) in
      (
        behind-none b'<' (p ++ rest) free,
        behind_out-no_input (p ++ rest) (behind-none b'<' (p ++ rest) free)
            ∙ behind-pass b'>' p rest (hp.1),
        ap (before b'>') (before-none b'<' (p ++ rest) free) ∙ before-pass b'>' p rest (hp.1),
      )

  pub Reads-input :
      (g : Text)
      → Plain g
      → Reads (p ++ 32 ∷ b'<' ∷ 32 ∷ (g ++ e)) (some (32 ∷ (g ++ e))) none (p ++ 32 ∷ [])
  unfolding behind before
  Reads-input g hg =
      let h = Plain-append g e hg he in
      let rest = 32 ∷ b'<' ∷ 32 ∷ (g ++ e) in
      let i : behind b'<' (p ++ rest) ≡ some (32 ∷ (g ++ e)) = behind-pass b'<' p rest (hp.0) in
      let c : before b'<' (p ++ rest) ≡ p ++ 32 ∷ [] = before-pass b'<' p rest (hp.0) in
      let free : Without b'>' (p ++ 32 ∷ []) = Free-append _ p (32 ∷ []) (hp.1) (refl, tt) in
      (
        i,
        behind_out-neither (p ++ rest) _ i
            (ap (behind b'>') c ∙ behind-none b'>' (p ++ 32 ∷ []) free)
            (behind-none b'>' (32 ∷ (g ++ e)) (refl, h.1)),
        ap (before b'>') c ∙ before-none b'>' (p ++ 32 ∷ []) free,
      )

  pub Reads-both :
      (f g : Text)
      → Plain f
      → Plain g
      → Reads
          (p ++ 32 ∷ b'>' ∷ 32 ∷ (f ++ 32 ∷ b'<' ∷ 32 ∷ (g ++ e)))
          (some (32 ∷ (g ++ e)))
          (some (32 ∷ (f ++ 32 ∷ [])))
          (p ++ 32 ∷ [])
  unfolding behind before
  Reads-both f g hf hg =
      let inner = 32 ∷ b'<' ∷ 32 ∷ (g ++ e) in
      let rest = 32 ∷ b'>' ∷ 32 ∷ (f ++ inner) in
      let cut = 32 ∷ b'>' ∷ 32 ∷ (f ++ 32 ∷ []) in
      let i : behind b'<' (p ++ rest) ≡ some (32 ∷ (g ++ e)) =
        behind-pass b'<' p rest (hp.0) ∙ behind-pass b'<' f inner (hf.0) in
      let c : before b'<' (p ++ rest) ≡ p ++ cut =
        before-pass b'<' p rest (hp.0)
        ∙ ap (λ (t : Text). p ++ 32 ∷ b'>' ∷ 32 ∷ t) (before-pass b'<' f inner (hf.0)) in
      (
        i,
        behind_out-before (p ++ rest) _ _ i (ap (behind b'>') c ∙ behind-pass b'>' p cut (hp.1)),
        ap (before b'>') c ∙ before-pass b'>' p cut (hp.1),
      )
