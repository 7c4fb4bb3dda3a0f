-- ===== src/KeyboardLeds/Blinks.antt =====
-- What the driver gets.
use eltex_summer.Base.{
  ℕ, zero, suc, ◌≤◌, ◌≡◌, refl, ap, ◌∙◌, true, false, List, [], ◌∷◌, ◌||◌, Bool-cases, inl, inr,
  arith, replicate,
}
use eltex_summer.Base.Int.{ℤ, pos, negsuc, ltb_ℤ, eqb_ℤ}
use eltex_summer.Text.{Text}
use eltex_summer.Text.Scan.{scan_int}
use eltex_summer.KeyboardLeds.{
  Leds, Event, store, tick, led_store, my_timer_func, driver_gets, new_led, all_leds_off,
  all_leds_on,
}

-- A value for the three lights.
abbrev pub IsLights : ℤ → Type 0
IsLights (pos n) = n ≤ 7
IsLights (negsuc n) = true ≡ false

abbrev pub AllLights : List ℤ → Type 0
AllLights [] = Unit
AllLights (z ∷ zs) = IsLights z × AllLights zs

abbrev pub FitLights : Leds → Type 0
FitLights s = IsLights s.led × IsLights s.kbledstatus

IsLights-of_tests : (z : ℤ) → (ltb_ℤ z all_leds_off || ltb_ℤ all_leds_on z) ≡ false → IsLights z
IsLights-of_tests (pos n) e = ground arith
IsLights-of_tests (negsuc n) e = ground arith

led_store-FitLights : (buf : Text) (s : Leds) → FitLights s → FitLights (led_store buf s).1
unfolding led_store
led_store-FitLights buf s h =
    let z = new_led (scan_int buf) in
    elim (Bool-cases (ltb_ℤ z all_leds_off || ltb_ℤ all_leds_on z)) [
      | inl e ↦ rw e h
      | inr e ↦ rw e (IsLights-of_tests z e, h.1)
    ]

my_timer_func-FitLights : (s : Leds) → FitLights s → FitLights (my_timer_func s)
unfolding my_timer_func
my_timer_func-FitLights s h = elim (Bool-cases (eqb_ℤ s.kbledstatus s.led)) [
  | inl e ↦ rw e (h.0, omega arith)
  | inr e ↦ rw e (h.0, h.0)
]

-- Whatever is stored and whenever the timer runs, the driver gets values from 0 to 7 only, where the
-- variables hold such values at first, as they do.
pub driver_gets-AllLights :
    (events : List Event) (s : Leds) → FitLights s → AllLights (driver_gets events s)
unfolding driver_gets
driver_gets-AllLights [] s h = tt
driver_gets-AllLights (store buf ∷ events) s h =
    driver_gets-AllLights events (led_store buf s).1 (led_store-FitLights buf s h)
driver_gets-AllLights (tick ∷ events) s h =
    let k = my_timer_func-FitLights s h in (k.1, driver_gets-AllLights events (my_timer_func s) k)

abbrev alternating : ℤ → ℤ → ℕ → List ℤ
alternating a b zero = []
alternating a b (suc k) = a ∷ alternating b a k

abbrev leds : ℤ → ℤ → Leds
leds l status = record { led = l; kbledstatus = status }

my_timer_func-on :
    (n : ℕ) → my_timer_func (leds (pos (suc n)) (pos 0)) ≡ leds (pos (suc n)) (pos (suc n))
unfolding my_timer_func
my_timer_func-on n = let e : eqb_ℤ (pos 0) (pos (suc n)) ≡ false = ground arith in rw e refl

my_timer_func-off :
    (n : ℕ) → my_timer_func (leds (pos (suc n)) (pos (suc n))) ≡ leds (pos (suc n)) (pos 0)
unfolding my_timer_func
my_timer_func-off n = let e : eqb_ℤ (pos (suc n)) (pos (suc n)) ≡ true = ground arith in rw e refl

-- While nothing is stored, the lights that are set blink, whether they are off or on at first.
pub driver_gets-ticks :
    (n k : ℕ)
    → (driver_gets (replicate k tick) (leds (pos (suc n)) (pos 0))
        ≡ alternating (pos (suc n)) (pos 0) k)
      × (driver_gets (replicate k tick) (leds (pos (suc n)) (pos (suc n)))
          ≡ alternating (pos 0) (pos (suc n)) k)
unfolding driver_gets
driver_gets-ticks n zero = (refl, refl)
driver_gets-ticks n (suc k) =
    let (off, on) = driver_gets-ticks n k in
    (
      ap (λ (s : Leds). s.kbledstatus ∷ driver_gets (replicate k tick) s) (my_timer_func-on n)
          ∙ ap (◌∷◌ (pos (suc n))) on,
      ap (λ (s : Leds). s.kbledstatus ∷ driver_gets (replicate k tick) s) (my_timer_func-off n)
          ∙ ap (◌∷◌ (pos 0)) off,
    )
