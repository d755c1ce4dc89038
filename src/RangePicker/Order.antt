-- ===== src/RangePicker/Order.antt =====
-- DateRangePicker.jsx: the two texts of the parent stay in order.
use hotel_ms.Common.{
  ℕ, ◌-◌, ◌≤◌, ◌<◌, ◌≡◌, refl, sym, ap, ◌∙◌, Bool, true, false, List, [], ◌∷◌, none, some, arith,
  Bool-cases, inl, inr,
}
use native.Mathlib.Decide.{dec_le}
use hotel_ms.Calendar.{Ymd, Zone, DateText, day_number, civil, midnight}
use hotel_ms.Calendar.Days.{IsDate, day_number-civil, civil-day_number}
use hotel_ms.Calendar.Zones.{IsZone, lag, lag-le}
use hotel_ms.RangePicker.{
  Picker, handle_day, Event, click, enter, leave, clear, toggle, outside, previous, next, tab, flex,
  step, run,
}
use hotel_ms.RangePicker.Clicks.{first_click, second_click, restart}

abbrev number : Ymd → ℕ
number d = day_number d.year d.month d.day

-- No check-out without a check-in, and none before it. While the second day is awaited the check-in
-- is late enough to be moved by the zone once more.
abbrev Ordered : Bool → DateText → DateText → Type 0
Ordered p none none = p ≡ false
Ordered p none (some co) = ⊥
Ordered p (some ci) none = IsDate ci × (2 ≤ number ci)
Ordered p (some ci) (some co) = IsDate ci × IsDate co × (number ci ≤ number co) × (p ≡ false)

abbrev pub IsOrdered : Picker → Type 0
IsOrdered s = Ordered s.picking_end s.check_in s.check_out

-- The clicks are on days, which are not the very first ones of the calendar.
abbrev pub OnDays : Zone → List Event → Type 0
OnDays z [] = Unit {0}
OnDays z (click c ∷ es) = ((n : ℕ) × (2 < n) × (c.date ≡ midnight z n)) × OnDays z es
OnDays z (e ∷ es) = OnDays z es

-- The text of a day that the zone moves by at most one.
moved-IsDate :
    (z : Zone) (n : ℕ)
    → IsZone z
    → 2 < n
    → IsDate (civil (n - lag z)) × (2 ≤ number (civil (n - lag z)))
moved-IsDate z n v h =
    let (d, e) = day_number-civil (n - lag z) (omega (arith, lag-le z v)) in
    (d, omega (arith, e, lag-le z v))

stay-Ordered :
    (z : Zone) (c n : ℕ)
    → IsZone z
    → 2 ≤ c
    → c ≤ n
    → Ordered false (some (civil (c - lag z))) (some (civil (n - lag z)))
stay-Ordered z c n v hc h =
    let (d, e) = day_number-civil (c - lag z) (omega (arith, lag-le z v)) in
    let (f, g) = day_number-civil (n - lag z) (omega (arith, lag-le z v)) in
    (d, f, omega (arith, e, g, h), refl)

second-Ordered :
    (z : Zone) (c n : ℕ) (s : Picker)
    → IsZone z
    → 2 < n
    → 2 ≤ c
    → s.check_in ≡ some (civil c)
    → s.picking_end ≡ true
    → s.check_out ≡ none
    → IsOrdered (handle_day z (midnight z n) s)
second-Ordered z c n s v h hc e p eo = elim (dec_le c n) [
  | yes le ↦ rw (second_click z c n s v (omega (arith, hc)) le e p) (stay-Ordered z c n v hc le)
  | no lt ↦ rw (restart z c n s v (omega (arith, h)) (omega (arith, lt)) e p) (moved-IsDate z n v h)
]

handle_day-Ordered :
    (z : Zone) (n : ℕ) (ci co : DateText) (s : Picker)
    → IsZone z
    → 2 < n
    → s.check_in ≡ ci
    → s.check_out ≡ co
    → Ordered s.picking_end ci co
    → IsOrdered (handle_day z (midnight z n) s)
handle_day-Ordered z n none none s v h ei eo o =
    rw (first_click z n s v (omega (arith, h)) o) (moved-IsDate z n v h)
handle_day-Ordered z n none (some co) s v h ei eo o = absurd o
handle_day-Ordered z n (some ci) (some co) s v h ei eo o =
    rw (first_click z n s v (omega (arith, h)) o.3) (moved-IsDate z n v h)
handle_day-Ordered z n (some ci) none s v h ei eo o = elim (Bool-cases s.picking_end) [
  | inr e ↦ rw (first_click z n s v (omega (arith, h)) e) (moved-IsDate z n v h)
  | inl e ↦
      second-Ordered z (number ci) n s v h o.1 (ei ∙ ap some (sym (civil-day_number ci o.0))) e eo
]

step-IsOrdered :
    (z : Zone) (e : Event) (es : List Event) (s : Picker)
    → IsZone z
    → OnDays z (e ∷ es)
    → IsOrdered s
    → IsOrdered (step z e s)
unfolding step
step-IsOrdered z (click c) es s v ((n, h, at), _) o = elim (Bool-cases c.disabled) [
  | inl e ↦ rw e o
  | inr e ↦ rw (e, at) (handle_day-Ordered z n s.check_in s.check_out s v h refl refl o)
]
step-IsOrdered z (enter c) es s v d o = ground arith
step-IsOrdered z leave es s v d o = o
step-IsOrdered z clear es s v d o = refl
step-IsOrdered z toggle es s v d o = o
step-IsOrdered z outside es s v d o = o
step-IsOrdered z previous es s v d o = ground arith
step-IsOrdered z next es s v d o = ground arith
step-IsOrdered z (tab t) es s v d o = o
step-IsOrdered z (flex n) es s v d o = o

rest-OnDays : (z : Zone) (e : Event) (es : List Event) → OnDays z (e ∷ es) → OnDays z es
rest-OnDays z (click c) es d = d.1
rest-OnDays z _ es d = d

-- Whatever is clicked, in a zone of less than a day's offset, with the clicked cells on midnights of
-- days after the calendar's second: from texts that are in order, the texts of the parent stay in
-- order, so there is no check-out without a check-in, and it is not before the check-in.
pub dates_in_order :
    (z : Zone) (es : List Event) (s : Picker)
    → IsZone z
    → OnDays z es
    → IsOrdered s
    → IsOrdered (run z es s)
unfolding run
dates_in_order z [] s v d o = o
dates_in_order z (e ∷ es) s v d o =
    dates_in_order z es (step z e s) v (rest-OnDays z e es d) (step-IsOrdered z e es s v d o)
