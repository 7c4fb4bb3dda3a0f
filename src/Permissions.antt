-- ===== src/Permissions.antt =====
-- The file permissions of module2/task2/3.1/src/permissions.c. A `mode_t` is a number; the masks of
-- <sys/stat.h> are its bits 0 to 8. `exit` is `none`.
mod Letters
mod Examples
use eltex_summer.Base.{
  ℕ, zero, suc, ◌+◌, ◌-◌, ◌*◌, ◌/◌, ◌%◌, ◌^◌, Bool, true, false, Option, none, some, List, [], ◌∷◌,
  ◌++◌, ltb, leb, ◌==◌, ◌&&◌, ◌||◌, not, if◌then◌else◌, length, drop,
}
use eltex_summer.Text.{Text}

-- `mode & (1 << i)`
unfoldable pub has_bit : ℕ → ℕ → Bool
has_bit i mode = mode / 2 ^ i % 2 == 1

-- `mode |= 1 << i`
unfoldable pub set_bit : ℕ → ℕ → ℕ
unfolding has_bit
set_bit i mode = if has_bit i mode then mode else mode + 2 ^ i

-- `mode &= ~(1 << i)`
unfoldable pub clear_bit : ℕ → ℕ → ℕ
unfolding has_bit
clear_bit i mode = if has_bit i mode then mode - 2 ^ i else mode

abbrev pub letter : ℕ → ℕ → ℕ → ℕ
letter c i mode = if has_bit i mode then c else b'-'

-- The nine letters that `print_permissions` prints first.
unfoldable pub letters : ℕ → Text
letters mode =
    letter b'r' 8 mode
    ∷ letter b'w' 7 mode
    ∷ letter b'x' 6 mode
    ∷ letter b'r' 5 mode
    ∷ letter b'w' 4 mode
    ∷ letter b'x' 3 mode
    ∷ letter b'r' 2 mode
    ∷ letter b'w' 1 mode
    ∷ letter b'x' 0 mode
    ∷ []

abbrev pub digit_bit : ℕ → ℕ → ℕ
digit_bit i mode = b'0' + mode / 2 ^ i % 2

-- The bits that it prints last.
unfoldable pub bits : ℕ → Text
bits mode =
    digit_bit 8 mode
    ∷ digit_bit 7 mode
    ∷ digit_bit 6 mode
    ∷ digit_bit 5 mode
    ∷ digit_bit 4 mode
    ∷ digit_bit 3 mode
    ∷ digit_bit 2 mode
    ∷ digit_bit 1 mode
    ∷ digit_bit 0 mode
    ∷ []

abbrev pub is_octal : ℕ → Bool
is_octal c = leb b'0' c && leb c b'7'

-- The low three bits are 0 when a digit is put in, so that `|=` adds it.
unfoldable pub parse_numeric_permissions : Text → Option ℕ
parse_numeric_permissions (a ∷ b ∷ c ∷ []) =
    if is_octal a && is_octal b && is_octal c
    then some (((a - b'0') * 8 + (b - b'0')) * 8 + (c - b'0'))
    else none
parse_numeric_permissions _ = none

-- `if (c == wanted) mode |= 1 << i`
abbrev pub set_if : ℕ → ℕ → ℕ → ℕ → ℕ
set_if c wanted i mode = if c == wanted then set_bit i mode else mode

unfoldable pub parse_symbolic_permissions : Text → Option ℕ
unfolding set_bit
parse_symbolic_permissions (a ∷ b ∷ c ∷ d ∷ e ∷ f ∷ g ∷ h ∷ i ∷ []) = some (
    set_if i b'x' 0 (
      set_if h b'w' 1 (
        set_if g b'r' 2 (
          set_if f b'x' 3 (
            set_if e b'w' 4
              (set_if d b'r' 5 (set_if c b'x' 6 (set_if b b'w' 7 (set_if a b'r' 8 0)))))))))
parse_symbolic_permissions _ = none

abbrev pub letter_bits : ℕ → Option (ℕ × ℕ × ℕ)
letter_bits c =
    if c == b'r'
    then some (8, 5, 2)
    else if c == b'w'
    then some (7, 4, 1)
    else if c == b'x'
    then some (6, 3, 0)
    else none

-- The loop over the letters of a command: `none` at an unknown one.
unfoldable pub command_bits : Text → ℕ → Option ℕ
unfolding set_bit
command_bits [] bit = some bit
command_bits (c ∷ s) bit = elim (letter_bits c) [
  | none ↦ none
  | some (i, j, k) ↦ command_bits s (set_bit i (set_bit j (set_bit k bit)))
]

-- The bits of `S_IRWXU`, `S_IRWXG`, `S_IRWXO` and of all three.
abbrev pub mask : ℕ → List ℕ
mask who =
    if who == b'u'
    then 8 ∷ 7 ∷ 6 ∷ []
    else if who == b'g'
    then 5 ∷ 4 ∷ 3 ∷ []
    else if who == b'o'
    then 2 ∷ 1 ∷ 0 ∷ []
    else 8 ∷ 7 ∷ 6 ∷ 5 ∷ 4 ∷ 3 ∷ 2 ∷ 1 ∷ 0 ∷ []

-- `mode |= bit & m` and `mode &= ~(bit & m)`, for a mask with the listed bits.
unfoldable pub or_bits : List ℕ → ℕ → ℕ → ℕ
unfolding set_bit
or_bits [] bit mode = mode
or_bits (i ∷ is) bit mode = or_bits is bit (if has_bit i bit then set_bit i mode else mode)

unfoldable pub clear_bits : List ℕ → ℕ → ℕ → ℕ
unfolding clear_bit
clear_bits [] bit mode = mode
clear_bits (i ∷ is) bit mode = clear_bits is bit (if has_bit i bit then clear_bit i mode else mode)

unfoldable pub clear_all : List ℕ → ℕ → ℕ
unfolding clear_bit
clear_all [] mode = mode
clear_all (i ∷ is) mode = clear_all is (clear_bit i mode)

-- `strchr("augo", who)`, which also finds the 0 at the end.
abbrev pub is_who : ℕ → Bool
is_who who = (who == b'a') || (who == b'u') || (who == b'g') || (who == b'o') || (who == 0)

-- The last part of `modify_permissions`: an unknown operator changes nothing.
unfoldable pub apply_command : ℕ → ℕ → ℕ → ℕ → ℕ
unfolding or_bits clear_bits clear_all
apply_command who op bit mode =
    if op == b'+'
    then or_bits (mask who) bit mode
    else if op == b'-'
    then clear_bits (mask who) bit mode
    else if op == b'='
    then (let cleared =
          if who == b'a' then 0 else if who == 0 then mode else clear_all (mask who) mode in
        or_bits (mask who) bit cleared)
    else mode

-- The mode after the command. A command has at least two characters here; behind a shorter one the code
-- reads on over its terminator.
unfoldable pub modify_permissions : ℕ → ℕ → Text → ℕ → ℕ
unfolding command_bits apply_command
modify_permissions who op perms mode = elim (command_bits perms 0) [
  | none ↦ mode
  | some bit ↦ if is_who who then apply_command who op bit mode else mode
]

-- A choice in the menu of `main`, with what was read for it; a file has its mode, or `stat` fails.
pub data Choice : Type 0 where
  enter : Text → Choice
  file : Option ℕ → Choice
  change : ℕ → ℕ → Text → Choice
  other : Choice

pub record Menu : Type 0 where
  pub mode : ℕ
  pub file_loaded : Bool

-- `strspn(input, "01234567")`
unfoldable pub octal_prefix : Text → ℕ
octal_prefix [] = 0
octal_prefix (c ∷ s) = let rest = octal_prefix s in if is_octal c then suc rest else 0

abbrev pub entered : Option ℕ → Option Menu
entered none = none
entered (some m) = some (record { mode = m; file_loaded = true })

-- The mode after `get_file_permissions`, with what `stat` gave: a failure leaves it.
unfoldable pub get_file_permissions : Option ℕ → ℕ → ℕ
get_file_permissions none mode = mode
get_file_permissions (some st_mode) mode = st_mode

-- One pass of the loop of `main`; `none` where the program exits.
unfoldable pub menu_step : Choice → Menu → Option Menu
unfolding octal_prefix parse_numeric_permissions parse_symbolic_permissions modify_permissions
    get_file_permissions
menu_step (enter input) m =
    if octal_prefix input == 3
    then entered (parse_numeric_permissions input)
    else entered (parse_symbolic_permissions input)
menu_step (file stat) m =
    some (record { mode = get_file_permissions stat m.mode; file_loaded = true })
menu_step (change who op perms) m =
    some
      (record m { mode = if m.file_loaded then modify_permissions who op perms m.mode else m.mode })
menu_step other m = some m
