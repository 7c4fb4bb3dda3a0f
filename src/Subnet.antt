-- ===== src/Subnet.antt =====
-- The subnet calculator: module2/task2/3.2/src/ipcalc.c.
mod Bits
pub mod Addresses
pub mod Counts
mod Examples
use Prim.Native.Nat.{bit_and, bit_or}
use eltex_summer.Base.{
  ℕ, zero, suc, ◌+◌, ◌*◌, ◌-◌, ◌%◌, ◌^◌, ◌≡◌, Bool, true, false, List, [], ◌∷◌, ◌==◌, if◌then◌else◌,
}
use eltex_summer.Base.Int.{ℤ, pos, negsuc, ◌+ℤ◌, ◌-ℤ◌}
use eltex_summer.Text.{Text}
use eltex_summer.Text.Decimal.{atoi}
use eltex_summer.Text.Tokens.{tokens}

abbrev pub is_dot : ℕ → Bool
is_dot c = c == b'.'

-- `(u_int8_t)` of an `int`, by the 32 bits of the value.
unfoldable pub to_byte : ℤ → ℕ
to_byte (pos n) = n % 256
to_byte (negsuc n) = 255 - n % 256

-- The loop that fills `octets`: what stays behind the last token is `unset`, the bytes that the array
-- held before.
unfoldable pub read_octets : List Text → List ℕ → List ℕ
unfolding atoi to_byte
read_octets [] unset = unset
read_octets (t ∷ ts) [] = []
read_octets (t ∷ ts) (u ∷ unset) = to_byte (atoi t) ∷ read_octets ts unset

-- `<< 8` and `|=` in 32 bits, for each octet.
unfoldable pub collect : ℕ → List ℕ → ℕ
collect ip [] = ip
collect ip (o ∷ rest) = collect (bit_or ((ip * 256) % 2 ^ 32) o) rest

-- `unset` is what the four bytes of `octets` hold before the loop.
unfoldable pub parse_ip : List ℕ → Text → ℕ
unfolding tokens read_octets collect
parse_ip unset ip_as_str = collect 0 (read_octets (tokens 4 is_dot ip_as_str) unset)

unfoldable pub ip_check : ℕ → ℕ → ℕ → Bool
ip_check network_ip mask ip_to_check = bit_and network_ip mask == bit_and ip_to_check mask

-- An address from the next four results of `rand`, which are not negative.
unfoldable pub generate_random_ip : ℕ → ℕ → ℕ → ℕ → ℕ
generate_random_ip a b c d =
    bit_or (bit_or (bit_or (a % 256 * 2 ^ 24) (b % 256 * 2 ^ 16)) (c % 256 * 2 ^ 8)) (d % 256)

abbrev pub count_one : Bool → ℕ → ℕ
count_one true n = suc n
count_one false n = n

-- The loop of `main` over the addresses that it draws, from the number counted so far on.
unfoldable pub count_in_subnet : ℕ → ℕ → List ℕ → ℕ → ℕ
unfolding ip_check
count_in_subnet network_ip mask [] ips_in_subnet = ips_in_subnet
count_in_subnet network_ip mask (ip ∷ ips) ips_in_subnet =
    count_in_subnet network_ip mask ips (count_one (ip_check network_ip mask ip) ips_in_subnet)
