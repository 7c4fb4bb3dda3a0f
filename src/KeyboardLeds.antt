-- ===== src/KeyboardLeds.antt =====
-- The blinking lights of the kernel module module5/task3/kbleds.c: the variable that user space sets
-- through sysfs, and the timer. The driver's `ioctl` gets the values that are listed.
pub mod Blinks
mod Examples
use eltex_summer.Base.{
  ℕ, zero, suc, Bool, true, false, Option, none, some, List, [], ◌∷◌, ◌||◌, if◌then◌else◌,
}
use eltex_summer.Base.Int.{ℤ, pos, negsuc, ltb_ℤ, eqb_ℤ}
use eltex_summer.Text.{Text}
use eltex_summer.Text.Decimal.{print_int}
use eltex_summer.Text.Scan.{scan_int}

abbrev pub all_leds_off : ℤ
all_leds_off = pos 0

abbrev pub all_leds_on : ℤ
all_leds_on = pos 7

pub record Leds : Type 0 where
  pub led : ℤ
  pub kbledstatus : ℤ

-- `led_show`: the text for the reader.
unfoldable pub led_show : Leds → Text
unfolding print_int
led_show s = print_int s.led (10 ∷ [])

-- What `sscanf` leaves in `new_led`, which is 0 before it.
abbrev pub new_led : Option (ℤ × Text) → ℤ
new_led none = pos 0
new_led (some (n, rest)) = n

-- `led_store`; `false` for -EINVAL.
unfoldable pub led_store : Text → Leds → Bool × Leds
unfolding scan_int
led_store buf s =
    if ltb_ℤ (new_led (scan_int buf)) all_leds_off || ltb_ℤ all_leds_on (new_led (scan_int buf))
    then (false, s)
    else (true, record s { led = new_led (scan_int buf) })

-- `my_timer_func`: the value that goes to the driver is the status behind it.
unfoldable pub my_timer_func : Leds → Leds
my_timer_func s =
    if eqb_ℤ s.kbledstatus s.led
    then record s { kbledstatus = all_leds_off }
    else record s { kbledstatus = s.led }

pub data Event : Type 0 where
  store : Text → Event
  tick : Event

-- What the driver gets over a history of stores and ticks.
unfoldable pub driver_gets : List Event → Leds → List ℤ
unfolding led_store my_timer_func
driver_gets [] s = []
driver_gets (store buf ∷ events) s = driver_gets events (led_store buf s).1
driver_gets (tick ∷ events) s = (my_timer_func s).kbledstatus ∷ driver_gets events (my_timer_func s)
