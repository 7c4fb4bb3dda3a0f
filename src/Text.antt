-- ===== src/Text.antt =====
-- C strings as lists of byte values: what stands before the terminating 0. Of the C library the
-- programs use `strcmp`, `strncpy`, `strlen` and the like; they are written out here.
pub mod Decimal
pub mod Scan
pub mod Tokens
pub mod Width
use eltex_summer.Base.{
  ℕ, zero, suc, ◌≤◌, ◌≡◌, refl, Bool, true, false, Ordering, lt, eq, gt, compare, List, [], ◌∷◌,
  ◌++◌, arith, ltb, if◌then◌else◌, length, take, ◌↔◌, ap,
}

abbrev pub Text : Type 0
Text = List ℕ

-- The sign of `strcmp`: bytes compare unsigned, and a proper prefix is less.
unfoldable pub strcmp : Text → Text → Ordering
strcmp [] [] = eq
strcmp [] (d ∷ t) = lt
strcmp (c ∷ s) [] = gt
strcmp (c ∷ s) (d ∷ t) = elim (compare c d) [ eq ↦ strcmp s t | lt ↦ lt | gt ↦ gt ]

unfoldable pub text_eq : Text → Text → Bool
unfolding strcmp
text_eq s t = elim (strcmp s t) [ eq ↦ true | lt ↦ false | gt ↦ false ]

-- The text in a buffer of `n + 1` bytes after `strncpy(dst, src, n)` and `dst[n] = '\0'`.
unfoldable pub strncpy : ℕ → Text → Text
strncpy n s = take n s

-- The same without the terminator: a source of `n` bytes or more fills the `n` bytes, and a reader
-- goes on into `rest`, the bytes that the memory held behind them.
unfoldable pub strncpy_open : ℕ → Text → Text → Text
strncpy_open n rest s = if ltb (length s) n then s else take n s ++ rest

pub strcmp_refl : (s : Text) → strcmp s s ≡ eq
unfolding strcmp
strcmp_refl [] = refl
strcmp_refl (c ∷ s) = ground (arith, strcmp_refl s)

pub eq_of_strcmp : (s t : Text) → strcmp s t ≡ eq → s ≡ t
unfolding strcmp
eq_of_strcmp [] [] e = refl
eq_of_strcmp [] (d ∷ t) e = cc
eq_of_strcmp (c ∷ s) [] e = cc
eq_of_strcmp (c ∷ s) (d ∷ t) e = ground (arith, eq_of_strcmp s t)

-- `strcmp` is 0 exactly at equal texts.
pub text_eq_iff : (s t : Text) → text_eq s t ≡ true ↔ s ≡ t
unfolding text_eq
text_eq_iff s t = (λ e. ground (arith, eq_of_strcmp s t), λ e. rw (e, strcmp_refl, text_eq) refl)

pub strcmp_flip : (s t : Text) → strcmp s t ≡ lt ↔ strcmp t s ≡ gt
unfolding strcmp
strcmp_flip [] [] = (λ e. cc, λ e. cc)
strcmp_flip [] (d ∷ t) = (λ e. refl, λ e. refl)
strcmp_flip (c ∷ s) [] = (λ e. cc, λ e. cc)
strcmp_flip (c ∷ s) (d ∷ t) =
    let ih = strcmp_flip s t in (λ e. ground (arith, ih.0), λ e. ground (arith, ih.1))

pub take_all : (n : ℕ) (s : Text) → length s ≤ n → take n s ≡ s
take_all zero [] h = refl
take_all zero (c ∷ s) h = absurd (omega arith)
take_all (suc n) [] h = refl
take_all (suc n) (c ∷ s) h = ap (◌∷◌ c) (take_all n s (omega arith))
