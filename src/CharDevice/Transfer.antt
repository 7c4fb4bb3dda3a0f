-- ===== src/CharDevice/Transfer.antt =====
-- What is written to the device of module5/task4 is read back.
use eltex_summer.Base.{
  ℕ, zero, suc, ◌+◌, ◌-◌, ◌<◌, ◌≤◌, ◌≡◌, refl, sym, ◌∙◌, ap, true, false, Option, none, some, [],
  ◌∷◌, ◌++◌, arith, ltb, leb, ◌==◌, if◌then◌else◌, length, take, drop, Bool-cases, inl, inr,
  length-take, length-drop, ◌>>=◌,
}
use Prim.Native.Nat.{min}
use eltex_summer.Text.{Text, take_all}
use eltex_summer.CharDevice.{Device, buf_len, device_read, device_write, until_zero}

-- A reader that calls `device_read` with a buffer of `len` bytes until nothing comes; the fuel bounds the
-- calls.
unfoldable pub read_all : ℕ → Device → ℕ → ℕ → Option Text
unfolding device_read
read_all zero d len offset = none
read_all (suc f) d len offset = do
  (out, next) ← device_read d len offset
  rest ← if length out == 0 then some [] else read_all f d len next
  some (out ++ rest)

-- No byte of the text is 0.
abbrev pub NoZero : Text → Type 0
NoZero [] = Unit
NoZero (c ∷ s) = (c == 0 ≡ false) × NoZero s

until_zero-NoZero : (s : Text) → NoZero s → until_zero s ≡ s
unfolding until_zero
until_zero-NoZero [] h = refl
until_zero-NoZero (c ∷ s) (z, h) = rw (z, until_zero-NoZero s h) refl

the_suc : (i n : ℕ) → suc (i + n) ≡ suc i + n
the_suc i n = omega arith

drop-drop : (i n : ℕ) (s : Text) → drop n (drop i s) ≡ drop (i + n) s
drop-drop zero n s = ap (λ (k : ℕ). drop k s) (omega arith)
drop-drop (suc i) zero [] = ap (λ (k : ℕ). drop k []) (the_suc i zero)
drop-drop (suc i) (suc n) [] = ap (λ (k : ℕ). drop k []) (the_suc i (suc n))
drop-drop (suc i) n (c ∷ s) = drop-drop i n s ∙ ap (λ (k : ℕ). drop k (c ∷ s)) (the_suc i n)

drop_all : (n : ℕ) (s : Text) → length s ≤ n → drop n s ≡ []
drop_all zero [] h = refl
drop_all zero (c ∷ s) h = absurd (omega arith)
drop_all (suc n) [] h = refl
drop_all (suc n) (c ∷ s) h = drop_all n s (omega arith)

take-append-drop-length : (n : ℕ) (s : Text) → take n s ++ drop (length (take n s)) s ≡ s
take-append-drop-length zero s = refl
take-append-drop-length (suc n) [] = refl
take-append-drop-length (suc n) (c ∷ s) = ap (◌∷◌ c) (take-append-drop-length n s)

-- One call in the middle of the message.
device_read-middle :
    (d : Device) (len offset : ℕ)
    → length d.msg < buf_len
    → offset < length d.msg
    → device_read d len offset
      ≡ some (take len (drop offset d.msg), offset + length (take len (drop offset d.msg)))
unfolding device_read
device_read-middle d len offset m h =
    let e : leb buf_len offset ≡ false = ground arith in
    let q : leb (length d.msg) offset ≡ false = ground arith in rw (e, q) refl

device_read-end :
    (d : Device) (len offset : ℕ)
    → length d.msg < buf_len
    → length d.msg ≡ offset
    → device_read d len offset ≡ some ([], 0)
unfolding device_read
device_read-end d len offset m h =
    let e : leb buf_len offset ≡ false = ground arith in
    let q : leb (length d.msg) offset ≡ true = ground arith in rw (e, q) refl

-- Calls with a buffer of any positive size give the rest of the message, and end: the fuel is more than
-- the bytes that are left.
read_all-rest :
    (f : ℕ) (d : Device) (len offset : ℕ)
    → 0 < len
    → length d.msg < buf_len
    → offset ≤ length d.msg
    → length d.msg - offset < f
    → read_all f d len offset ≡ some (drop offset d.msg)
unfolding read_all
read_all-rest zero d len offset l m h k = absurd (omega arith)
read_all-rest (suc f) d len offset l m h k = elim (Bool-cases (ltb offset (length d.msg))) [
  | inr e ↦
      let q : length d.msg ≡ offset = ground arith in
      rw (device_read-end d len offset m q, drop_all offset d.msg (omega arith)) refl
  | inl e ↦
      let lt : offset < length d.msg = ground arith in
      let out = take len (drop offset d.msg) in
      let size : length out ≡ min len (length d.msg - offset) =
        length-take len (drop offset d.msg) ∙ ap (min len) (length-drop offset d.msg) in
      let some_out : (length out == 0) ≡ false = ground arith in
      let ih =
        read_all-rest f d len (offset + length out) l m (omega (arith, size))
          (omega (arith, size)) in
      rw (device_read-middle d len offset m lt, some_out, ih)
        (ap some (
          ap (out ++◌) (sym (drop-drop offset (length out) d.msg))
          ∙ take-append-drop-length len (drop offset d.msg)))
]

-- A text of fewer than 80 bytes, none of them 0, that is written without an error is what a reader then
-- gets from the start, whatever the positive size of its buffer; it makes at most one call for each byte
-- and one more.
pub read_all-device_write :
    (s : Text) (d : Device) (len : ℕ)
    → NoZero s
    → length s < buf_len
    → 0 < len
    → read_all (suc (length s)) (device_write true s d).0 len 0 ≡ some s
unfolding device_write
read_all-device_write s d len z h l =
    let e : until_zero (take (buf_len - 1) s) ≡ s =
      ap until_zero (take_all (buf_len - 1) s (omega arith)) ∙ until_zero-NoZero s z in
    read_all-rest (suc (length s)) (record d { msg = until_zero (take (buf_len - 1) s) }) len 0 l
      (rw e h) (omega arith) (rw e (omega arith))
    ∙ ap some e
