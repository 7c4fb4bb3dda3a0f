-- ===== src/Subnet/Addresses.antt =====
-- Addresses in dotted decimal, and the addresses of a subnet.
use Prim.Native.Nat.{bit_or}
use eltex_summer.Base.{
  ℕ, zero, suc, ◌+◌, ◌*◌, ◌-◌, ◌/◌, ◌%◌, ◌^◌, ◌<◌, ◌≡◌, refl, sym, ap, ◌∙◌, Bool, true, false, List,
  [], ◌∷◌, ◌==◌, ltb, Bool-cases, ==_iff, inl, inr, arith,
}
use native.Mathlib.Nat.{one-le-pow, eq_of_mul-eq-mul_right}
use eltex_summer.Base.Int.{pos}
use eltex_summer.Text.{Text}
use eltex_summer.Text.Decimal.{
  atoi, print_int, decimal, decimal_from, atoi-print_int, head-decimal_from,
}
use eltex_summer.Text.Tokens.{tokens-join, join, Free, WordOf}
use eltex_summer.Subnet.{is_dot, to_byte, read_octets, collect, parse_ip, ip_check}
use eltex_summer.Subnet.Bits.{bit_or_beside, bit_and_prefix}

-- Digits before a text without dots.
decimal_from-Free : (f n : ℕ) (s : Text) → Free is_dot s → Free is_dot (decimal_from f n s)
unfolding decimal_from
decimal_from-Free zero n s h = h
decimal_from-Free (suc f) n s h = elim (Bool-cases (ltb n 10)) [
  | inl e ↦ rw (e, decimal_from) (ground arith, h)
  | inr e ↦ rw (e, decimal_from) (decimal_from-Free f (n / 10) _ (ground arith, h))
]

abbrev pub octet : ℕ → Text
octet n = print_int (pos n) []

octet-WordOf : (n : ℕ) → WordOf is_dot (octet n)
unfolding print_int decimal
octet-WordOf n =
    let (c, s, q, d) = head-decimal_from (suc n) n [] (omega arith) in
    rw q (rw q at (decimal_from-Free (suc n) n [] tt))

-- The address of 32 bits in dotted decimal.
abbrev pub octets : ℕ → List ℕ
octets ip = ip / 2 ^ 24 ∷ ip / 2 ^ 16 % 256 ∷ ip / 2 ^ 8 % 256 ∷ ip % 256 ∷ []

abbrev pub octet_texts : ℕ → List Text
octet_texts ip =
    octet (ip / 2 ^ 24)
    ∷ octet (ip / 2 ^ 16 % 256)
    ∷ octet (ip / 2 ^ 8 % 256)
    ∷ octet (ip % 256)
    ∷ []

abbrev pub print_ip : ℕ → Text
print_ip ip = join b'.' (octet_texts ip) []

to_byte-octet : (n : ℕ) → n < 256 → to_byte (atoi (octet n)) ≡ n
unfolding to_byte
to_byte-octet n h = ap to_byte (atoi-print_int (pos n) [] tt) ∙ omega arith

collect-byte :
    (ip o : ℕ) (rest : List ℕ)
    → ip < 2 ^ 24
    → o < 256
    → collect ip (o ∷ rest) ≡ collect (ip * 256 + o) rest
unfolding collect
collect-byte ip o rest h k =
    let w : (ip * 256) % 2 ^ 32 ≡ ip * 2 ^ 8 = omega arith in
    ap (λ (x : ℕ). collect (bit_or x o) rest) w
    ∙ ap (λ (x : ℕ). collect x rest) (bit_or_beside 8 ip o k ∙ omega arith)

collect_end : (ip : ℕ) → collect ip [] ≡ ip
unfolding collect
collect_end ip = refl

read_octets-four :
    (a b c d p q r t : ℕ)
    → p < 256
    → q < 256
    → r < 256
    → t < 256
    → read_octets (octet p ∷ octet q ∷ octet r ∷ octet t ∷ []) (a ∷ b ∷ c ∷ d ∷ [])
      ≡ p ∷ q ∷ r ∷ t ∷ []
unfolding read_octets
read_octets-four a b c d p q r t hp hq hr ht =
    rw (to_byte-octet p hp, to_byte-octet q hq, to_byte-octet r hr, to_byte-octet t ht) refl

collect-octets : (ip : ℕ) → ip < 2 ^ 32 → collect 0 (octets ip) ≡ ip
collect-octets ip h =
    collect-byte 0 (ip / 2 ^ 24) _ (omega arith) (omega arith)
    ∙ collect-byte (0 * 256 + ip / 2 ^ 24) (ip / 2 ^ 16 % 256) _ (omega arith) (omega arith)
    ∙ collect-byte ((0 * 256 + ip / 2 ^ 24) * 256 + ip / 2 ^ 16 % 256) (ip / 2 ^ 8 % 256) _
        (omega arith) (omega arith)
    ∙ collect-byte _ (ip % 256) [] (omega arith) (omega arith)
    ∙ collect_end _
    ∙ omega arith

-- An address of 32 bits that is written in dotted decimal is read back, whatever the four bytes of
-- the array of octets held before.
pub parse_ip-print_ip :
    (a b c d ip : ℕ) → ip < 2 ^ 32 → parse_ip (a ∷ b ∷ c ∷ d ∷ []) (print_ip ip) ≡ ip
unfolding parse_ip
parse_ip-print_ip a b c d ip h =
    ap (λ (ts : List Text). collect 0 (read_octets ts (a ∷ b ∷ c ∷ d ∷ [])))
      (tokens-join 4 is_dot b'.' (octet_texts ip) [] (omega arith) refl
        (
          octet-WordOf (ip / 2 ^ 24),
          (
            octet-WordOf (ip / 2 ^ 16 % 256),
            (octet-WordOf (ip / 2 ^ 8 % 256), (octet-WordOf (ip % 256), tt)),
          ),
        )
        tt)
    ∙ ap (collect 0) (
        read_octets-four a b c d (ip / 2 ^ 24) (ip / 2 ^ 16 % 256) (ip / 2 ^ 8 % 256) (ip % 256)
          (omega arith) (omega arith) (omega arith) (omega arith))
    ∙ collect-octets ip h

-- The mask of a network whose prefix has `p` bits before `k` bits for the host.
abbrev pub prefix_mask : ℕ → ℕ → ℕ
prefix_mask p k = (2 ^ p - 1) * 2 ^ k

absurd_of {ℓ} : {A : Type ℓ} {b : Bool} → b ≡ false → b ≡ true → A
absurd_of {b = true} e f = absurd cc
absurd_of {b = false} e f = absurd cc

==_scaled : (k n m : ℕ) → (n * 2 ^ k == m * 2 ^ k) ≡ (n == m)
==_scaled k n m = elim (Bool-cases (n == m)) [
  | inl e ↦
      let q : n * 2 ^ k ≡ m * 2 ^ k = ap (λ (x : ℕ). x * 2 ^ k) ((==_iff n m).0 e) in
      (==_iff (n * 2 ^ k) (m * 2 ^ k)).1 q ∙ sym e
  | inr e ↦ elim (Bool-cases (n * 2 ^ k == m * 2 ^ k)) [
    | inl f ↦
        let g = (==_iff (n * 2 ^ k) (m * 2 ^ k)).0 f in
        let pos_pow : 0 < 2 ^ k = omega (arith, one-le-pow k 2) in
        absurd_of e ((==_iff n m).1 (eq_of_mul-eq-mul_right (2 ^ k) pos_pow n m g))
    | inr f ↦ f ∙ sym e
  ]
]

-- Under the mask of a prefix of `p` bits two addresses are in one subnet exactly where their first
-- `p` bits are the same, whatever the `k` bits behind them.
pub ip_check-prefix_mask :
    (p k n m r s : ℕ)
    → n < 2 ^ p
    → m < 2 ^ p
    → r < 2 ^ k
    → s < 2 ^ k
    → ip_check (n * 2 ^ k + r) (prefix_mask p k) (m * 2 ^ k + s) ≡ (n == m)
unfolding ip_check
ip_check-prefix_mask p k n m r s hn hm hr hs =
    rw (bit_and_prefix p k n r hn hr, bit_and_prefix p k m s hm hs) (==_scaled k n m)
