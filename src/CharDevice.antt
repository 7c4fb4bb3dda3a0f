-- ===== src/CharDevice.antt =====
-- The character device of module5/task4/chardev.c: one opener at a time, and a message that is written
-- and read.
mod Transfer
mod Sessions
mod Examples
use eltex_summer.Base.{
  ℕ, zero, suc, ◌+◌, ◌-◌, Bool, true, false, Option, none, some, List, [], ◌∷◌, ltb, leb, ◌==◌,
  if◌then◌else◌, length, take, drop,
}
use eltex_summer.Text.{Text}

abbrev pub buf_len : ℕ
buf_len = 80

-- `msg` is the text before its terminator; `strncpy` fills the rest of the buffer with 0. `references`
-- are those that `try_module_get` and `module_put` count.
pub record Device : Type 0 where
  pub already_open : Bool
  pub counter : ℕ
  pub references : ℕ
  pub msg : Text

-- True for `SUCCESS`, false for `-EBUSY`.
unfoldable pub device_open : Device → Device × Bool
device_open d = if d.already_open then (d, false) else (
  record d { already_open = true; counter = suc d.counter; references = suc d.references },
  true,
)

unfoldable pub device_release : Device → Device
device_release d = record d { already_open = false; references = d.references - 1 }

-- The bytes that one call gives, and the new offset; 0 bytes are the end of the file. `none` is a read
-- behind the buffer.
unfoldable pub device_read : Device → ℕ → ℕ → Option (Text × ℕ)
device_read d len offset =
    if leb buf_len offset
    then none
    else if leb (length d.msg) offset
    then some ([], 0)
    else (let out = take len (drop offset d.msg) in some (out, offset + length out))

-- The text before the first 0.
unfoldable pub until_zero : Text → Text
until_zero [] = []
until_zero (c ∷ s) = let rest = until_zero s in if c == 0 then [] else c ∷ rest

-- A write of the bytes of a user's buffer; `copied` is whether `copy_from_user` succeeds. The result is
-- the number of bytes, or `none` for `-EFAULT`.
unfoldable pub device_write : Bool → Text → Device → Device × Option ℕ
unfolding until_zero
device_write copied buff d =
    let local = take (buf_len - 1) buff in
    if copied then (record d { msg = until_zero local }, some (length local)) else (d, none)
