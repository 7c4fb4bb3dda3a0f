-- ===== src/CharDevice/Sessions.antt =====
-- Who has the device of module5/task4 open.
use eltex_summer.Base.{ℕ, zero, suc, ◌≡◌, List, [], ◌∷◌, arith, if◌then◌else◌}
use eltex_summer.CharDevice.{Device, device_open, device_release}

-- The calls of `open` and of `release` that the kernel makes: it calls `release` only for an open that
-- succeeded.
pub data Call : Type 0 where
  open_call release_call : Call

-- The number of users that have the device open, over a history of calls: those whose open succeeded,
-- less those that have released it.
unfoldable pub users : List Call → ℕ → Device → ℕ × Device
unfolding device_open device_release
users [] n d = (n, d)
users (open_call ∷ cs) n d = let (d', ok) = device_open d in users cs (if ok then suc n else n) d'
users (release_call ∷ cs) n d = elim n [
  | zero ↦ users cs zero d
  | suc m ↦ users cs m (device_release d)
]

-- The flag, the users and the references agree.
abbrev pub Agrees : ℕ → Device → Type 0
Agrees n d = (n ≡ (if d.already_open then 1 else 0)) × (d.references ≡ n)

device_open-Agrees :
    (n : ℕ) (d : Device)
    → Agrees n d
    → Agrees (if (device_open d).1 then suc n else n) (device_open d).0
unfolding device_open
device_open-Agrees n d (a, b) = (ground arith, ground arith)

device_release-Agrees : (m : ℕ) (d : Device) → Agrees (suc m) d → Agrees m (device_release d)
unfolding device_release
device_release-Agrees m d (a, b) = (ground arith, omega arith)

-- Over any history of opens, and releases by users that have it open, at most one user has the device
-- open, the flag says whether one has, and the module's references are as many as the users.
pub users-Agrees :
    (cs : List Call) (n : ℕ) (d : Device) → Agrees n d → Agrees (users cs n d).0 (users cs n d).1
unfolding users
users-Agrees [] n d h = h
users-Agrees (open_call ∷ cs) n d h = users-Agrees cs _ _ (device_open-Agrees n d h)
users-Agrees (release_call ∷ cs) zero d h = users-Agrees cs zero d h
users-Agrees (release_call ∷ cs) (suc m) d h = users-Agrees cs m _ (device_release-Agrees m d h)
