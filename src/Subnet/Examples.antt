-- ===== src/Subnet/Examples.antt =====
-- Tests and witnesses of the subnet calculator.
use eltex_summer.Base.{◌+◌, ◌*◌, ◌^◌, ◌≡◌, refl, [], ◌∷◌, map, arith}
use eltex_summer.Subnet.{parse_ip, count_in_subnet, generate_random_ip}
use eltex_summer.Subnet.Addresses.{print_ip, prefix_mask}
use eltex_summer.Subnet.Counts.{address, count_network, count_in_subnet-print_ip}

-- 192.168.0.1 and 255.255.255.0, and two addresses, one of them in 192.168.0.
count_in_subnet-print_ip_example :
    count_in_subnet
      (parse_ip (0 ∷ 0 ∷ 0 ∷ 0 ∷ []) (print_ip (0xc0a800 * 2 ^ 8 + 1)))
      (parse_ip (0 ∷ 0 ∷ 0 ∷ 0 ∷ []) (print_ip (prefix_mask 24 8)))
      (map (address 8) ((0xc0a800, 77) ∷ (0xc0a801, 1) ∷ []))
      0
    ≡ count_network 0xc0a800 ((0xc0a800, 77) ∷ (0xc0a801, 1) ∷ []) 0
count_in_subnet-print_ip_example =
    count_in_subnet-print_ip 0 0 0 0 24 8 0xc0a800 1 ((0xc0a800, 77) ∷ (0xc0a801, 1) ∷ []) refl
      (omega arith) (omega arith)
      (((omega arith), (omega arith)), (((omega arith), (omega arith)), tt))

-- `1.2`: the last two octets are whatever the array held.
too_short : parse_ip (9 ∷ 9 ∷ 9 ∷ 9 ∷ []) (b'1' ∷ b'.' ∷ b'2' ∷ []) ≡ 0x01020909
unfolding parse_ip
too_short = refl

random_address : generate_random_ip 257 2 3 260 ≡ 0x01020304
unfolding generate_random_ip
random_address = refl
