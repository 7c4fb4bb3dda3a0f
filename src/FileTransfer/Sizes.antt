-- ===== src/FileTransfer/Sizes.antt =====
-- A number that is sent is the number that arrives.
use eltex_summer.Base.{ℕ, zero, suc, ◌/◌, ◌^◌, ◌<◌, ◌≡◌, refl, ap, true, length, arith, ltb}
use eltex_summer.FileTransfer.{bytes_of, number_of, file_size_of}

pub length-bytes_of : (k n : ℕ) → length (bytes_of k n) ≡ k
unfolding bytes_of
length-bytes_of zero n = refl
length-bytes_of (suc k) n = ap suc (length-bytes_of k (n / 256))

-- The numbers of so many bytes.
abbrev pub Below : ℕ → ℕ → Type 0
Below zero n = n < 1
Below (suc k) n = Below k (n / 256)

pub number_of-bytes_of : (k n : ℕ) → Below k n → number_of (bytes_of k n) ≡ n
unfolding bytes_of number_of
number_of-bytes_of zero n h = omega arith
number_of-bytes_of (suc k) n h = let ih = number_of-bytes_of k (n / 256) h in omega (arith, ih)

pub Below-eight : (n : ℕ) → n < 2 ^ 63 → Below 8 n
Below-eight n h = omega arith

pub file_size_of-bytes_of : (n : ℕ) → n < 2 ^ 63 → file_size_of (bytes_of 8 n) ≡ n
file_size_of-bytes_of n h =
    let e = number_of-bytes_of 8 n (Below-eight n h) in
    let l : ltb n (2 ^ 63) ≡ true = ground arith in rw (e, l) refl
