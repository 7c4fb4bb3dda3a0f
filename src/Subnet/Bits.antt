-- ===== src/Subnet/Bits.antt =====
-- `|` of bytes side by side, and `&` with the mask of a network prefix, as arithmetic.
mod Step
use Step.{bit_or-lowest, bit_and-lowest}
use Prim.Native.Nat.{bit_and, bit_or}
use native.Mathlib.Nat.{pow-suc, one-le-pow}
use mathlib.Core.WellFounded
use eltex_summer.Base.{
  ℕ, zero, suc, ◌+◌, ◌-◌, ◌*◌, ◌/◌, ◌%◌, ◌^◌, ◌<◌, ◌≤◌, ◌≡◌, refl, ap, ◌∙◌, arith, Option,
}

double_pow : (q k : ℕ) → q * 2 ^ suc k ≡ 2 * (q * 2 ^ k)
double_pow q k = omega (arith, ap (λ (t : ℕ). q * t) (pow-suc 2 k))

-- By a bound on the number, which each halving lowers.
bit_or_zero_below : (bound a : ℕ) → a ≤ bound → bit_or a 0 ≡ a
bit_or_zero_below bound zero h = refl
bit_or_zero_below zero (suc a) h = absurd (omega arith)
bit_or_zero_below (suc bound) (suc a) h =
    omega (arith, bit_or-lowest (suc a) 0, bit_or_zero_below bound (suc a / 2) (omega arith))

-- A field of `k` bits fits beside a number shifted by `k`.
pub bit_or_beside : (k q r : ℕ) → r < 2 ^ k → bit_or (q * 2 ^ k) r ≡ q * 2 ^ k + r
bit_or_beside zero q r h = ground (arith, bit_or_zero_below q q (omega arith))
bit_or_beside (suc k) q r h = ground (
  arith,
  bit_or-lowest (q * 2 ^ suc k) r,
  double_pow q k,
  bit_or_beside k q (r / 2) (omega (arith, pow-suc 2 k)),
)

-- A mask whose low `k` bits are 0 takes those bits away.
bit_and_shifted :
    (k q m r : ℕ) → r < 2 ^ k → bit_and (q * 2 ^ k + r) (m * 2 ^ k) ≡ bit_and q m * 2 ^ k
bit_and_shifted zero q m r h =
    let e : q * 2 ^ 0 + r ≡ q = omega arith in
    let d : m * 2 ^ 0 ≡ m = omega arith in
    let c : bit_and q m ≡ bit_and q m * 2 ^ 0 = omega arith in rw (e, d) c
bit_and_shifted (suc k) q m r h = ground (
  arith,
  bit_and-lowest (q * 2 ^ suc k + r) (m * 2 ^ suc k),
  double_pow q k,
  double_pow m k,
  double_pow (bit_and q m) k,
  bit_and_shifted k q m (r / 2) (omega (arith, pow-suc 2 k)),
)

bit_and_ones : (j q : ℕ) → q < 2 ^ j → bit_and q (2 ^ j - 1) ≡ q
bit_and_ones zero zero h = refl
bit_and_ones zero (suc q) h = absurd (omega arith)
bit_and_ones (suc j) q h = ground (
  arith,
  bit_and-lowest q (2 ^ suc j - 1),
  pow-suc 2 j,
  one-le-pow j 2,
  bit_and_ones j (q / 2) (omega (arith, pow-suc 2 j)),
)

-- `j` ones before `k` zeros.
pub bit_and_prefix :
    (j k q r : ℕ)
    → q < 2 ^ j
    → r < 2 ^ k
    → bit_and (q * 2 ^ k + r) ((2 ^ j - 1) * 2 ^ k) ≡ q * 2 ^ k
bit_and_prefix j k q r hq hr =
    bit_and_shifted k q (2 ^ j - 1) r hr ∙ ap (λ (x : ℕ). x * 2 ^ k) (bit_and_ones j q hq)
