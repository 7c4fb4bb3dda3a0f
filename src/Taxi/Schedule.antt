-- ===== src/Taxi/Schedule.antt =====
-- A driver of module3/c02 over time.
use eltex_summer.Base.{
  ◌≡◌, refl, Bool, true, false, List, [], ◌∷◌, ◌++◌, if◌then◌else◌, Bool-cases, inl, inr, take,
}
use eltex_summer.Base.Int.{ℤ, ltb_ℤ}
use eltex_summer.Text.{text_eq}
use eltex_summer.Taxi.{
  Work, Reply, available, status_busy, error_busy, Event, interrupted, pipe_closed, message,
  on_event, on_message, on_task, on_status, check_end, driver_step, task_text, status_text,
}

-- The passes of the loop, each at its time.
unfoldable pub driver_run : List (ℤ × Event) → Work → Work × List Reply
unfolding driver_step
driver_run [] w = (w, [])
driver_run ((now, e) ∷ es) w =
    let (w1, first) = driver_step now e w in
    let (w2, rest) = driver_run es w1 in (w2, first ++ rest)

-- Every pass comes before the time.
abbrev pub AllBefore : ℤ → List (ℤ × Event) → Type 0
AllBefore t [] = Unit
AllBefore t ((now, e) ∷ es) = (ltb_ℤ now t ≡ true) × AllBefore t es

abbrev pub says_busy : Reply → Bool
says_busy available = false
says_busy (status_busy n) = true
says_busy (error_busy n) = true

abbrev pub all_busy : List Reply → Bool
all_busy [] = true
all_busy (r ∷ rs) = if says_busy r then all_busy rs else false

all_busy-append :
    (rs ss : List Reply) → all_busy rs ≡ true → all_busy ss ≡ true → all_busy (rs ++ ss) ≡ true
all_busy-append [] ss h k = k
all_busy-append (available ∷ rs) ss h k = h
all_busy-append (status_busy n ∷ rs) ss h k = all_busy-append rs ss h k
all_busy-append (error_busy n ∷ rs) ss h k = all_busy-append rs ss h k

on_event-busy :
    (now : ℤ) (e : Event) (w : Work)
    → w.busy ≡ true
    → ((on_event now e w).0 ≡ w) × (all_busy (on_event now e w).1 ≡ true)
unfolding on_message on_task on_status
on_event-busy now interrupted w h = (refl, refl)
on_event-busy now pipe_closed w h = (refl, refl)
on_event-busy now (message b) w h = elim (Bool-cases (text_eq (take 4 b) task_text)) [
  | inl e ↦ rw (e, h) (refl, refl)
  | inr e ↦ elim (Bool-cases (text_eq (take 6 b) status_text)) [
    | inl q ↦ rw (e, q, h) (refl, refl)
    | inr q ↦ rw (e, q) (refl, refl)
  ]
]

check_end-busy :
    (now : ℤ) (w : Work) → w.busy ≡ true → ltb_ℤ now w.task_end ≡ true → check_end now w ≡ (w, [])
unfolding check_end
check_end-busy now w h t = simp (h, t)

driver_step-busy :
    (now : ℤ) (e : Event) (w : Work)
    → w.busy ≡ true
    → ltb_ℤ now w.task_end ≡ true
    → ((driver_step now e w).0 ≡ w) × (all_busy (driver_step now e w).1 ≡ true)
unfolding driver_step
driver_step-busy now e w h t = rw (check_end-busy now w h t) (on_event-busy now e w h)

-- Whatever arrives before the end of a task changes neither the task nor its end, and every reply until
-- then says Busy: a second task is refused.
pub driver_run-busy :
    (es : List (ℤ × Event)) (w : Work)
    → w.busy ≡ true
    → AllBefore w.task_end es
    → ((driver_run es w).0 ≡ w) × (all_busy (driver_run es w).1 ≡ true)
unfolding driver_run
driver_run-busy [] w h t = (refl, refl)
driver_run-busy ((now, e) ∷ es) w h (t, ts) =
    let (a, b) = driver_step-busy now e w h t in
    let (c, d) = driver_run-busy es w h ts in
    rw a (c, all_busy-append (driver_step now e w).1 (driver_run es w).1 b d)
