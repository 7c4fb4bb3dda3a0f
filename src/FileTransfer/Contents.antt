-- ===== src/FileTransfer/Contents.antt =====
-- A file that is sent is stored.
use eltex_summer.Base.{
  ℕ, zero, suc, ◌+◌, ◌^◌, ◌<◌, ◌≡◌, refl, sym, ap, ◌∙◌, true, false, Option, some, [], ◌∷◌, ◌++◌,
  length, length-append, length-take, length-drop, take, drop, take-append-drop, arith, ltb, leb,
  ◌==◌, Bool-cases, inl, inr,
}
use mathlib.Core.List.{append-nil, append_assoc}
use eltex_summer.Text.{Text}
use eltex_summer.Text.Width.{take_all}
use eltex_summer.FileTransfer.{
  Stream, buffer_size, filename_length, read, bytes_of, c_string, is_empty, stored, recv_contents,
  recv_file, send_contents, send_file,
}
use eltex_summer.FileTransfer.Sizes.{
  length-bytes_of, number_of-bytes_of, Below-eight, file_size_of-bytes_of,
}

abbrev pub joined : Stream → Text
joined [] = []
joined (c ∷ cs) = c ++ joined cs

abbrev pub AllFull : Stream → Type 0
AllFull [] = Unit
AllFull (c ∷ cs) = (is_empty c ≡ false) × AllFull cs

length-full : (c : Text) → is_empty c ≡ false → 0 < length c
length-full [] e = absurd cc
length-full (x ∷ c) e = omega arith

full-length : (c : Text) → 0 < length c → is_empty c ≡ false
full-length [] h = absurd (omega arith)
full-length (x ∷ c) h = refl

long : (n k : ℕ) → leb k n ≡ false → n < k
long n k e = ground arith

-- A read takes some of the bytes, and leaves the others.
record Cut (cs rest : Stream) : Type 0 where
  bytes : Text
  others : Stream
  reads : read buffer_size (cs ++ rest) ≡ (bytes, others ++ rest)
  full : is_empty bytes ≡ false
  others_full : AllFull others
  whole : bytes ++ joined others ≡ joined cs

cut : (c : Text) (cs rest : Stream) → AllFull (c ∷ cs) → Cut (c ∷ cs) rest
unfolding read
cut c cs rest (f, fs) = elim (Bool-cases (leb (length c) buffer_size)) [
  | inl e ↦ record {
    bytes = c;
    others = cs;
    reads = rw (e, take_all buffer_size c (ground arith)) refl;
    full = f;
    others_full = fs;
    whole = refl;
  }
  | inr e ↦ record {
    bytes = take buffer_size c;
    others = drop buffer_size c ∷ cs;
    reads = rw e refl;
    full =
        full-length (take buffer_size c)
          (omega (arith, length-take buffer_size c, long buffer_size (length c) e));
    others_full = (
      full-length (drop buffer_size c)
          (omega (arith, length-drop buffer_size c, long buffer_size (length c) e)),
      fs,
    );
    whole =
        sym (append_assoc (take buffer_size c) (drop buffer_size c) (joined cs))
        ∙ ap (λ (x : Text). x ++ joined cs) (take-append-drop buffer_size c);
  }
]

recv_contents-read :
    (f total size : ℕ) (file b : Text) (s s' : Stream)
    → read buffer_size s ≡ (b, s')
    → is_empty b ≡ false
    → ltb total size ≡ true
    → recv_contents (suc f) total size file s
      ≡ recv_contents f (total + length b) size (file ++ b) s'
unfolding recv_contents
recv_contents-read f total size file b s s' e n l = rw (e, n, l) refl

recv_contents-joined :
    (f total size : ℕ) (file : Text) (cs rest : Stream)
    → AllFull cs
    → total + length (joined cs) ≡ size
    → length (joined cs) < f
    → recv_contents f total size file (cs ++ rest) ≡ some (file ++ joined cs, rest)
unfolding recv_contents
recv_contents-joined zero total size file cs rest a e h = absurd (omega arith)
recv_contents-joined (suc f) total size file [] rest a e h =
    let l : ltb total size ≡ false = ground arith in rw l (rw (append-nil file) refl)
recv_contents-joined (suc f) total size file (c ∷ cs) rest a e h =
    let k = cut c cs rest a in
    let w = ap (λ (x : Text). length x) k.whole in
    let n = length-append k.bytes (joined k.others) in
    let p = length-full k.bytes k.full in
    let l : ltb total size ≡ true = ground (arith, w, n, p) in
    recv_contents-read f total size file k.bytes ((c ∷ cs) ++ rest) (k.others ++ rest) k.reads
      k.full l
    ∙ recv_contents-joined f (total + length k.bytes) size (file ++ k.bytes) k.others rest
        k.others_full (omega (arith, w, n, e)) (omega (arith, w, n, p, h))
    ∙ ap (λ (x : Text). some (x, rest))
        (append_assoc file k.bytes (joined k.others) ∙ ap (◌++◌ file) k.whole)

not_zero : (n : ℕ) → 0 < n → (n == 0) ≡ false
not_zero n h = ground arith

-- Where `send` takes all that it is given, the pieces of the contents are not empty and make up the file.
send_contents-joined :
    (f : ℕ) (sent : ℕ → ℕ → ℕ) (total size : ℕ) (rest : Text)
    → ((t n : ℕ) → sent t n ≡ n)
    → total + length rest ≡ size
    → length rest < f
    → AllFull (send_contents f sent total size rest)
      × (joined (send_contents f sent total size rest) ≡ rest)
unfolding send_contents
send_contents-joined zero sent total size rest full e h = absurd (omega arith)
send_contents-joined (suc f) sent total size [] full e h =
    let l : ltb total size ≡ false = ground arith in rw l (tt, refl)
send_contents-joined (suc f) sent total size (x ∷ xs) full e h =
    let chunk = take buffer_size (x ∷ xs) in
    let others = drop buffer_size (x ∷ xs) in
    let t = length-take buffer_size (x ∷ xs) in
    let d = length-drop buffer_size (x ∷ xs) in
    let l : ltb total size ≡ true = ground arith in
    let q : take (length (take 1023 xs)) (take 1023 xs) ≡ take 1023 xs =
      take_all (length (take 1023 xs)) (take 1023 xs) (omega arith) in
    let (a, j) =
      send_contents-joined f sent (total + length chunk) size others full (omega (arith, t, d, e))
        (omega (arith, d, h)) in
    rw (l, full total (length chunk), not_zero (length chunk) (omega arith), q)
      ((refl, a), ap (◌++◌ chunk) j ∙ take-append-drop buffer_size (x ∷ xs))

stored-eq :
    (name file : Text) (rest : Stream) (r : Option (Text × Stream))
    → r ≡ some (file, rest)
    → stored name r ≡ some (some (name, file), rest)
stored-eq name file rest r e = rw e refl

-- `read` where the piece is as long as what is asked for.
read-whole : (n : ℕ) (c : Text) (cs : Stream) → length c ≡ n → read n (c ∷ cs) ≡ (c, cs)
unfolding read
read-whole n c cs e =
    let l : leb (length c) n ≡ true = ground arith in
    let t : take n c ≡ c = take_all n c (omega (arith, e)) in rw (l, t) refl

-- A file of fewer than 2 ^ 63 bytes, with a name of 1 to 127 bytes that are not 0, is sent by a client whose
-- `send` takes all that it is given. Where its name and the two sizes arrive in the pieces in which they are
-- sent, and its contents in any pieces, the server stores the file under its name, with its contents,
-- and reads nothing of what comes after.
pub recv_file-send_file :
    (sent : ℕ → ℕ → ℕ) (name file : Text) (cs rest : Stream)
    → ((t n : ℕ) → sent t n ≡ n)
    → is_empty name ≡ false
    → length name < filename_length
    → c_string name ≡ name
    → length file < 2 ^ 63
    → AllFull cs
    → joined cs ≡ joined (drop 3 (send_file sent name file))
    → recv_file (take 3 (send_file sent name file) ++ (cs ++ rest)) ≡ some (some (name, file), rest)
unfolding recv_file send_file
recv_file-send_file sent name file cs rest full e n c b a j =
    let k = number_of-bytes_of 8 (length name) (Below-eight (length name) (omega arith)) in
    let z = file_size_of-bytes_of (length file) b in
    let (sa, sj) =
      send_contents-joined (suc (length file)) sent 0 (length file) file full (omega arith)
        (omega arith) in
    let w = j ∙ sj in
    let g =
      recv_contents-joined (suc (length file)) 0 (length file) [] cs rest a
        (omega (arith, ap (λ (x : Text). length x) w))
        (omega (arith, ap (λ (x : Text). length x) w)) in
    let r1 =
      read-whole 8 (bytes_of 8 (length name)) (name ∷ bytes_of 8 (length file) ∷ (cs ++ rest))
        (length-bytes_of 8 (length name)) in
    let r2 = read-whole (length name) name (bytes_of 8 (length file) ∷ (cs ++ rest)) refl in
    let r3 =
      read-whole 8 (bytes_of 8 (length file)) (cs ++ rest) (length-bytes_of 8 (length file)) in
    let m : leb filename_length (length name) ≡ false = ground arith in
    let e1 : is_empty (bytes_of 8 (length name)) ≡ false =
      full-length (bytes_of 8 (length name)) (omega (arith, length-bytes_of 8 (length name))) in
    let e3 : is_empty (bytes_of 8 (length file)) ≡ false =
      full-length (bytes_of 8 (length file)) (omega (arith, length-bytes_of 8 (length file))) in
    rw
      (
        r1,
        k,
        r2,
        r3,
        z,
        e1,
        m,
        e,
        e3,
        length-bytes_of 8 (length name),
        length-bytes_of 8 (length file),
        c,
      )
      (stored-eq name file rest _ (g ∙ ap (λ (x : Text). some (x, rest)) w))
