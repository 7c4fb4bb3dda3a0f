-- ===== src/SharedMemory/Extremes.antt =====
-- The greatest and the least number, as the consumer finds them.
use eltex_summer.Base.{
  ℕ, suc, ◌≤◌, ◌<◌, ◌≡◌, refl, sym, ap, ◌∙◌, ◌⊎◌, inl, inr, Bool, true, false, List, [], ◌∷◌, ◌++◌,
  length, take, ltb, get_or, if◌then◌else◌, Bool-cases, arith, subst,
}
use eltex_summer.SharedMemory.{SharedData, generate_data, extremes, process_data, put_extremes}

abbrev pub Between : ℕ → ℕ → List ℕ → Type 0
Between a b [] = Unit
Between a b (x ∷ xs) = (b ≤ x) × (x ≤ a) × Between a b xs

abbrev pub Has : ℕ → List ℕ → Type 0
Has a [] = true ≡ false
Has a (x ∷ xs) = (a ≡ x) ⊎ Has a xs

-- `a` is the greatest of the numbers and `b` the least.
abbrev pub IsExtremes : List ℕ → ℕ × ℕ → Type 0
IsExtremes l (a, b) = Between a b l × Has a l × Has b l

abbrev upper : ℕ → ℕ → ℕ
upper x a = if ltb a x then x else a

abbrev lower : ℕ → ℕ → ℕ
lower x b = if ltb x b then x else b

upper_lem : (x a : ℕ) → (a ≤ upper x a) × (x ≤ upper x a) × ((upper x a ≡ a) ⊎ (upper x a ≡ x))
upper_lem x a = elim (Bool-cases (ltb a x)) [
  | inl e ↦ rw e (ground arith, ground arith, inr refl)
  | inr e ↦ rw e (ground arith, ground arith, inl refl)
]

lower_lem : (x b : ℕ) → (lower x b ≤ b) × (lower x b ≤ x) × ((lower x b ≡ b) ⊎ (lower x b ≡ x))
lower_lem x b = elim (Bool-cases (ltb x b)) [
  | inl e ↦ rw e (ground arith, ground arith, inr refl)
  | inr e ↦ rw e (ground arith, ground arith, inl refl)
]

-- A number that is the first of two, or the second, or stands behind them.
Has-second : (r a x m : ℕ) (xs : List ℕ) → ((m ≡ a) ⊎ (m ≡ x)) → Has r (m ∷ xs) → Has r (a ∷ x ∷ xs)
Has-second r a x m xs c (inr h) = inr (inr h)
Has-second r a x m xs (inl c) (inl e) = inl (e ∙ c)
Has-second r a x m xs (inr c) (inl e) = inr (inl (e ∙ c))

extremes-IsExtremes :
    (xs : List ℕ) (a b : ℕ)
    → let r = extremes xs a b in
      (a ≤ r.0) × (r.1 ≤ b) × Between (r.0) (r.1) xs × Has (r.0) (a ∷ xs) × Has (r.1) (b ∷ xs)
unfolding extremes
extremes-IsExtremes [] a b = (omega arith, omega arith, tt, inl refl, inl refl)
extremes-IsExtremes (x ∷ xs) a b =
    let (p, q, i, g, l) = extremes-IsExtremes xs (upper x a) (lower x b) in
    let (u, v, c) = upper_lem x a in
    let (w, y, d) = lower_lem x b in
    (
      omega (arith, p, u),
      omega (arith, q, w),
      (omega (arith, q, y), omega (arith, p, v), i),
      Has-second _ a x (upper x a) xs c g,
      Has-second _ b x (lower x b) xs d l,
    )

take-front : (l r : List ℕ) → take (length l) (l ++ r) ≡ l
take-front [] r = refl
take-front (x ∷ l) r = ap (◌∷◌ x) (take-front l r)

-- The block holds the numbers `l`, at its front.
abbrev pub Holds : List ℕ → SharedData → Type 0
Holds l block = (rest : List ℕ) × (block.numbers ≡ l ++ rest) × (block.count ≡ length l)

process_data-front :
    (x : ℕ) (l : List ℕ) (block : SharedData)
    → Holds (x ∷ l) block
    → process_data block ≡ put_extremes block (extremes (x ∷ l) x x)
unfolding process_data
process_data-front x l block (rest, e, c) =
    let t : ltb 0 block.count ≡ true = ground (arith, c) in
    let f : take block.count block.numbers ≡ x ∷ l =
      ap (λ (n : ℕ). take n block.numbers) c
      ∙ ap (take (suc (length l))) e
      ∙ take-front (x ∷ l) rest in
    let g : get_or block.numbers 0 0 ≡ x = ap (λ (ns : List ℕ). get_or ns 0 0) e in
    rw (t, f, g) refl

Has-twice : (r x : ℕ) (l : List ℕ) → Has r (x ∷ x ∷ l) → Has r (x ∷ l)
Has-twice r x l (inl e) = inl e
Has-twice r x l (inr h) = h

-- What the consumer's loop leaves.
abbrev pub Answers : List ℕ → Bool → SharedData → Type 0
Answers l done block = (block.count ≡ 0) × IsExtremes l (block.max, block.min) × (block.done ≡ done)

-- The consumer finds the extremes of the numbers in the block.
pub process_data-Answers :
    (l : List ℕ) (block : SharedData)
    → 0 < length l
    → Holds l block
    → Answers l block.done (process_data block)
process_data-Answers [] block h w = absurd (omega arith)
process_data-Answers (x ∷ l) block h w =
    let (p, q, i, g, s) = extremes-IsExtremes (x ∷ l) x x in
    subst (Answers (x ∷ l) block.done) (sym (process_data-front x l block w))
      (refl, (i, Has-twice _ x l g, Has-twice _ x l s), refl)

-- Without numbers it changes nothing.
pub process_data-empty : (block : SharedData) → block.count ≡ 0 → process_data block ≡ block
unfolding process_data
process_data-empty block e = let t : ltb 0 block.count ≡ false = ground (arith, e) in rw t refl

pub generate_data-Holds : (l : List ℕ) (block : SharedData) → Holds l (generate_data l block)
unfolding generate_data
generate_data-Holds l block = (_, refl, refl)
