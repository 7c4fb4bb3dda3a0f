-- ===== src/Permissions/Examples.antt =====
-- The permissions of module2/task2/3.1 on concrete modes, as in the program's own tests.
use eltex_summer.Base.{◌≡◌, refl, some, [], ◌∷◌}
use eltex_summer.Permissions.{
  has_bit, set_bit, clear_bit, letters, parse_numeric_permissions, parse_symbolic_permissions,
  command_bits, or_bits, clear_bits, clear_all, apply_command, modify_permissions,
}
use eltex_summer.Permissions.Letters.{parse_symbolic_permissions-letters}

read_755 : parse_numeric_permissions (b'7' ∷ b'5' ∷ b'5' ∷ []) ≡ some 493
unfolding parse_numeric_permissions
read_755 = refl

-- "g=w" on 755.
group_write : modify_permissions b'g' b'=' (b'w' ∷ []) 493 ≡ 469
unfolding modify_permissions command_bits apply_command or_bits clear_all clear_bits set_bit
    clear_bit has_bit
group_write = refl

parse_symbolic_permissions-letters_example : parse_symbolic_permissions (letters 493) ≡ some 493
parse_symbolic_permissions-letters_example = parse_symbolic_permissions-letters 493
