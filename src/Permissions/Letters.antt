-- ===== src/Permissions/Letters.antt =====
-- The permission letters of module2/task2/3.1, printed and read.
use eltex_summer.Base.{ℕ, ◌*◌, ◌/◌, ◌%◌, ◌≡◌, refl, some, arith}
use eltex_summer.Permissions.{has_bit, set_bit, letter, letters, set_if, parse_symbolic_permissions}

-- Letter by letter, from the left: what has been read are the bits of the mode from the letter's own on.
set_if-letter :
    (m : ℕ)
    → (set_if (letter b'r' 8 m) b'r' 8 (0) ≡ m % 512 / 256 * 256)
      × (set_if (letter b'w' 7 m) b'w' 7 (m % 512 / 256 * 256) ≡ m % 512 / 128 * 128)
      × (set_if (letter b'x' 6 m) b'x' 6 (m % 512 / 128 * 128) ≡ m % 512 / 64 * 64)
      × (set_if (letter b'r' 5 m) b'r' 5 (m % 512 / 64 * 64) ≡ m % 512 / 32 * 32)
      × (set_if (letter b'w' 4 m) b'w' 4 (m % 512 / 32 * 32) ≡ m % 512 / 16 * 16)
      × (set_if (letter b'x' 3 m) b'x' 3 (m % 512 / 16 * 16) ≡ m % 512 / 8 * 8)
      × (set_if (letter b'r' 2 m) b'r' 2 (m % 512 / 8 * 8) ≡ m % 512 / 4 * 4)
      × (set_if (letter b'w' 1 m) b'w' 1 (m % 512 / 4 * 4) ≡ m % 512 / 2 * 2)
      × (set_if (letter b'x' 0 m) b'x' 0 (m % 512 / 2 * 2) ≡ m % 512)
unfolding has_bit set_bit
set_if-letter m = (
  ground arith,
  ground arith,
  ground arith,
  ground arith,
  ground arith,
  ground arith,
  ground arith,
  ground arith,
  ground arith,
)

-- Reading the nine letters that are printed for a mode gives its nine permission bits.
pub parse_symbolic_permissions-letters :
    (m : ℕ) → parse_symbolic_permissions (letters m) ≡ some (m % 512)
unfolding parse_symbolic_permissions letters
parse_symbolic_permissions-letters m =
    let (e8, e7, e6, e5, e4, e3, e2, e1, e0) = set_if-letter m in
    rw (e8, e7, e6, e5, e4, e3, e2, e1, e0) refl
