-- ===== src/ProcFile/Reads.antt =====
-- What a reader gets after a write.
use Prim.Native.Nat.{min}
use eltex_summer.Base.{
  ℕ, zero, suc, ◌-◌, ◌≤◌, ◌<◌, ◌≡◌, refl, ap, ◌∙◌, List, [], ◌∷◌, ◌++◌, length, take, drop, ltb,
  ◌==◌, if◌then◌else◌, arith, subst, Bool-cases, inl, inr,
}
use eltex_summer.ProcFile.{Proc, read_proc, write_proc}

take-of_append : (n : ℕ) (xs ys : List ℕ) → n ≤ length xs → take n (xs ++ ys) ≡ take n xs
take-of_append zero xs ys h = refl
take-of_append (suc n) [] ys h = absurd (omega arith)
take-of_append (suc n) (x ∷ xs) ys h = ap (◌∷◌ x) (take-of_append n xs ys (omega arith))

take-length : (xs : List ℕ) → take (length xs) xs ≡ xs
take-length [] = refl
take-length (x ∷ xs) = ap (◌∷◌ x) (take-length xs)

-- What the module holds behind a write of a text that fits.
abbrev pub Written : List ℕ → ℕ → Proc → Type 0
Written text left p =
    (rest : List ℕ) × (p.msg ≡ text ++ rest) × (p.len ≡ length text) × (p.temp ≡ left)

write_proc-Written :
    (text : List ℕ) (p : Proc)
    → length text < 1024
    → Written text (length text) (write_proc text p).0 × ((write_proc text p).1 ≡ length text)
unfolding write_proc
write_proc-Written text p h =
    let e : min (length text) 1023 ≡ length text = omega arith in
    (
      (
        _,
        ap (λ (n : ℕ). take n text ++ drop n p.msg) e
            ∙ ap (λ (t : List ℕ). t ++ drop (length text) p.msg) (take-length text),
        e,
        e,
      ),
      e,
    )

-- The number of bytes that a read gives, and what it leaves for the next one.
abbrev pub at_most : ℕ → ℕ → ℕ
at_most left count = if ltb left count then left else count

abbrev pub left_behind : List ℕ → ℕ → ℕ → ℕ
left_behind text left n = if n == 0 then length text else left - n

read_proc-Written :
    (text : List ℕ) (left count : ℕ) (p : Proc)
    → left ≤ length text
    → Written text left p
    → ((read_proc count p).1 ≡ take (at_most left count) text)
      × Written text (left_behind text left (at_most left count)) (read_proc count p).0
unfolding read_proc
read_proc-Written text left count p h (rest, m, l, t) =
    let k : at_most left count ≤ length text = elim (Bool-cases (ltb left count)) [
      | inl e ↦ rw e h
      | inr e ↦ rw e (ground arith)
    ] in
    rw (t, l, m) (take-of_append (at_most left count) text rest k, (rest, refl, refl, refl))

read_whole :
    (text : List ℕ) (count : ℕ) (p : Proc)
    → 0 < length text
    → length text ≤ count
    → Written text (length text) p
    → ((read_proc count p).1 ≡ text) × Written text 0 (read_proc count p).0
read_whole text count p z h w =
    let (g, v) = read_proc-Written text (length text) count p (omega arith) w in
    let e : at_most (length text) count ≡ length text = ground arith in
    let d : left_behind text (length text) (at_most (length text) count) ≡ 0 =
      ap (left_behind text (length text)) e ∙ ground arith in
    (
      g ∙ ap (λ (n : ℕ). take n text) e ∙ take-length text,
      subst (λ (n : ℕ). Written text n (read_proc count p).0) d v,
    )

read_nothing :
    (text : List ℕ) (count : ℕ) (p : Proc)
    → Written text 0 p
    → ((read_proc count p).1 ≡ []) × Written text (length text) (read_proc count p).0
read_nothing text count p w =
    let (g, v) = read_proc-Written text 0 count p (omega arith) w in
    let e : at_most 0 count ≡ 0 = ground arith in
    (
      g ∙ ap (λ (n : ℕ). take n text) e,
      subst (λ (n : ℕ). Written text n (read_proc count p).0) (ap (left_behind text 0) e) v,
    )

read_part :
    (text : List ℕ) (left count : ℕ) (p : Proc)
    → 0 < count
    → count ≤ left
    → left ≤ length text
    → Written text left p
    → ((read_proc count p).1 ≡ take count text) × Written text (left - count) (read_proc count p).0
read_part text left count p z h l w =
    let (g, v) = read_proc-Written text left count p l w in
    let e : at_most left count ≡ count = ground arith in
    let d : left_behind text left (at_most left count) ≡ left - count =
      ap (left_behind text left) e ∙ ground arith in
    (g ∙ ap (λ (n : ℕ). take n text) e, subst (λ (n : ℕ). Written text n (read_proc count p).0) d v)

-- A text of 1 to 1023 bytes is written, then read with a buffer that holds it: the first read gives the
-- text, the second one nothing, and then the next one gives the text again.
pub read_proc-write_proc :
    (text : List ℕ) (count : ℕ) (p : Proc)
    → 0 < length text
    → length text < 1024
    → length text ≤ count
    → let a = read_proc count (write_proc text p).0 in
      let b = read_proc count a.0 in (a.1 ≡ text) × (b.1 ≡ []) × ((read_proc count b.0).1 ≡ text)
read_proc-write_proc text count p z h c =
    let w = (write_proc-Written text p h).0 in
    let (g1, w1) = read_whole text count _ z c w in
    let (g2, w2) = read_nothing text count _ w1 in
    let (g3, w3) = read_whole text count _ z c w2 in (g1, g2, g3)

-- A text of 1 to 1023 bytes is written. Where the first read asks for one byte at least and for no more than
-- the text has, it gets as many from the front, and a second one, of any size, starts again at the front of
-- the text, though it gets no more bytes than are left behind the first. Of three reads of one size, the
-- text's length or more, the first gets the text, the second nothing, and the third the text again.
pub read_proc-twice :
    (text : List ℕ) (a b c : ℕ) (p : Proc)
    → length text < 1024
    → 0 < a
    → a ≤ length text
    → length text ≤ c
    → let first = read_proc a (write_proc text p).0 in
      let whole = read_proc c (write_proc text p).0 in
      let empty = read_proc c whole.0 in
      (first.1 ≡ take a text)
      × ((read_proc b first.0).1 ≡ take (min b (length text - a)) text)
      × (whole.1 ≡ text)
      × (empty.1 ≡ [])
      × ((read_proc c empty.0).1 ≡ text)
read_proc-twice text a b c p h z l k =
    let w = (write_proc-Written text p h).0 in
    let (g1, w1) = read_part text (length text) a _ z l (omega arith) w in
    let g2 = (read_proc-Written text (length text - a) b _ (omega arith) w1).0 in
    let e : at_most (length text - a) b ≡ min b (length text - a) = ground arith in
    let (g3, g4, g5) = read_proc-write_proc text c p (omega arith) h k in
    (g1, g2 ∙ ap (λ (n : ℕ). take n text) e, g3, g4, g5)
