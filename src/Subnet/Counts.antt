-- ===== src/Subnet/Counts.antt =====
-- The count of the addresses in a subnet, from the texts of the network and of its mask.
use eltex_summer.Base.{
  ℕ, zero, suc, ◌+◌, ◌*◌, ◌-◌, ◌^◌, ◌<◌, ◌≤◌, ◌≡◌, refl, ap, ◌∙◌, Bool, List, [], ◌∷◌, ◌==◌, map,
  arith,
}
use native.Mathlib.Nat.{mul-le-mul_right, pow-suc, one-le-pow}
use eltex_summer.Subnet.{parse_ip, count_in_subnet, count_one}
use eltex_summer.Subnet.Addresses.{print_ip, parse_ip-print_ip, prefix_mask, ip_check-prefix_mask}

-- An address from its network part and its `k` bits of host part.
abbrev pub address : ℕ → ℕ × ℕ → ℕ
address k (n, r) = n * 2 ^ k + r

abbrev pub HasParts : ℕ → ℕ → ℕ × ℕ → Type 0
HasParts p k (n, r) = (n < 2 ^ p) × (r < 2 ^ k)

abbrev pub AllHaveParts : ℕ → ℕ → List (ℕ × ℕ) → Type 0
AllHaveParts p k [] = Unit
AllHaveParts p k (a ∷ rest) = HasParts p k a × AllHaveParts p k rest

-- How many of the addresses have the network part `n`, added to a number.
abbrev pub count_network : ℕ → List (ℕ × ℕ) → ℕ → ℕ
count_network n [] found = found
count_network n ((m, s) ∷ rest) found = count_network n rest (count_one (n == m) found)

pow_sum : (p k : ℕ) → 2 ^ p * 2 ^ k ≡ 2 ^ (p + k)
pow_sum zero k =
    let e : k ≡ 0 + k = omega arith in
    let d : 2 ^ 0 * 2 ^ k ≡ 2 ^ k = omega arith in d ∙ ap (λ (x : ℕ). 2 ^ x) e
pow_sum (suc p) k =
    let e : suc p + k ≡ suc (p + k) = omega arith in
    omega (
      arith,
      ap (λ (x : ℕ). x * 2 ^ k) (pow-suc 2 p),
      pow_sum p k,
      ap (λ (x : ℕ). 2 ^ x) e,
      pow-suc 2 (p + k),
    )

address_bound : (p k n r : ℕ) → p + k ≡ 32 → n < 2 ^ p → r < 2 ^ k → n * 2 ^ k + r < 2 ^ 32
address_bound p k n r e hn hr =
    let whole : 2 ^ p * 2 ^ k ≡ 2 ^ 32 = pow_sum p k ∙ ap (λ (x : ℕ). 2 ^ x) e in
    let l : suc n * 2 ^ k ≤ 2 ^ p * 2 ^ k = mul-le-mul_right (2 ^ k) (omega arith) in
    omega (arith, whole, l)

mask_bound : (p k : ℕ) → p + k ≡ 32 → prefix_mask p k < 2 ^ 32
mask_bound p k e =
    let h : prefix_mask p k + 0 < 2 ^ 32 =
      address_bound p k (2 ^ p - 1) 0 e (omega (arith, one-le-pow p 2))
        (omega (arith, one-le-pow k 2)) in
    omega arith

count_in_subnet-network :
    (p k n r found : ℕ) (ips : List (ℕ × ℕ))
    → n < 2 ^ p
    → r < 2 ^ k
    → AllHaveParts p k ips
    → count_in_subnet (n * 2 ^ k + r) (prefix_mask p k) (map (address k) ips) found
      ≡ count_network n ips found
unfolding count_in_subnet
count_in_subnet-network p k n r found [] hn hr h = refl
count_in_subnet-network p k n r found ((m, s) ∷ ips) hn hr ((hm, hs), h) =
    ap
      (λ (b : Bool).
        count_in_subnet (n * 2 ^ k + r) (prefix_mask p k) (map (address k) ips) (count_one b found))
      (ip_check-prefix_mask p k n m r s hn hm hr hs)
    ∙ count_in_subnet-network p k n r (count_one (n == m) found) ips hn hr h

-- The network and the mask of a prefix of `p` bits are given in dotted decimal: of the addresses that
-- are drawn, those are counted whose first `p` bits are the network's, and no others.
pub count_in_subnet-print_ip :
    (a b c d p k n r : ℕ) (ips : List (ℕ × ℕ))
    → p + k ≡ 32
    → n < 2 ^ p
    → r < 2 ^ k
    → AllHaveParts p k ips
    → count_in_subnet
        (parse_ip (a ∷ b ∷ c ∷ d ∷ []) (print_ip (n * 2 ^ k + r)))
        (parse_ip (a ∷ b ∷ c ∷ d ∷ []) (print_ip (prefix_mask p k)))
        (map (address k) ips)
        0
      ≡ count_network n ips 0
count_in_subnet-print_ip a b c d p k n r ips e hn hr h =
    rw
      (
        parse_ip-print_ip a b c d (n * 2 ^ k + r) (address_bound p k n r e hn hr),
        parse_ip-print_ip a b c d (prefix_mask p k) (mask_bound p k e),
      )
      (count_in_subnet-network p k n r 0 ips hn hr h)
