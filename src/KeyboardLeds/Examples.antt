-- ===== src/KeyboardLeds/Examples.antt =====
-- Tests and witnesses of the keyboard lights.
use eltex_summer.Base.{◌≡◌, refl, true, List, [], ◌∷◌}
use eltex_summer.Base.Int.{pos}
use eltex_summer.Text.Scan.{scan_int}
use eltex_summer.KeyboardLeds.{Leds, Event, store, tick, led_store, driver_gets}

abbrev off : Leds
off = record { led = pos 0; kbledstatus = pos 0 }

-- `5\n`, then `9\n`
abbrev some_events : List Event
some_events = store (b'5' ∷ 10 ∷ []) ∷ tick ∷ store (b'9' ∷ 10 ∷ []) ∷ tick ∷ tick ∷ []

nine_is_refused : driver_gets some_events off ≡ pos 5 ∷ pos 0 ∷ pos 5 ∷ []
unfolding driver_gets scan_int
nine_is_refused = refl

-- A text without a number sets the lights to 0.
no_number : led_store (b'x' ∷ []) (record { led = pos 5; kbledstatus = pos 0 }) ≡ (true, off)
unfolding led_store scan_int
no_number = refl
