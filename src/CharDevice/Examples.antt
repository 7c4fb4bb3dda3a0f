-- ===== src/CharDevice/Examples.antt =====
-- The device of module5/task4 on a short history.
use eltex_summer.Base.{◌≡◌, refl, Bool, false, some, List, [], ◌∷◌, arith}
use eltex_summer.Text.{Text}
use eltex_summer.CharDevice.{Device, device_write}
use eltex_summer.CharDevice.Transfer.{read_all, read_all-device_write}
use eltex_summer.CharDevice.Sessions.{Call, open_call, release_call, users, Agrees, users-Agrees}

abbrev fresh : Device
fresh = record { already_open = false; counter = 0; references = 0; msg = [] }

abbrev hello : Text
hello = b'h' ∷ b'e' ∷ b'l' ∷ b'l' ∷ b'o' ∷ []

-- Five bytes, read two at a time.
read_all-device_write_example : read_all 6 (device_write Bool.true hello fresh).0 2 0 ≡ some hello
read_all-device_write_example =
    read_all-device_write hello fresh 2 (refl, (refl, (refl, (refl, (refl, tt))))) (omega arith)
      (omega arith)

abbrev history : List Call
history = open_call ∷ open_call ∷ release_call ∷ open_call ∷ []

users-Agrees_example : Agrees (users history 0 fresh).0 (users history 0 fresh).1
users-Agrees_example = users-Agrees history 0 fresh (refl, refl)
