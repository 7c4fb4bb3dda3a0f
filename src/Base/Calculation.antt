-- ===== src/Base/Calculation.antt =====
-- What a calculator of `int` promises: an operator, and its result on two numbers.
use Prim.Native.Nat.{ℕ}
use mathlib.Core.Path.{◌≡◌}
use mathlib.Core.Bool.{false}
use eltex_summer.Base.Tests.{if◌then◌else◌}
use eltex_summer.Base.Int.{ℤ, pos, eqb_ℤ, ◌+ℤ◌, ◌-ℤ◌, ◌*ℤ◌, quot, InInt}

pub data Operator : Type 0 where
  plus minus times over : Operator

abbrev pub symbol : Operator → ℕ
symbol plus = b'+'
symbol minus = b'-'
symbol times = b'*'
symbol over = b'/'

-- The quotient is rounded towards 0; a division by 0 gives 0.
abbrev pub exact : Operator → ℤ → ℤ → ℤ
exact plus a b = a +ℤ b
exact minus a b = a -ℤ b
exact times a b = a *ℤ b
exact over a b = if eqb_ℤ b (pos 0) then pos 0 else quot a b

-- The numbers and the result are values of `int`.
abbrev pub InRange : Operator → ℤ → ℤ → Type 0
InRange o a b = InInt a × InInt b × InInt (exact o a b)

abbrev pub NoDivisionBy0 : Operator → ℤ → Type 0
NoDivisionBy0 plus b = Unit
NoDivisionBy0 minus b = Unit
NoDivisionBy0 times b = Unit
NoDivisionBy0 over b = eqb_ℤ b (pos 0) ≡ false
