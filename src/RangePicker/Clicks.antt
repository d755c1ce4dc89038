-- ===== src/RangePicker/Clicks.antt =====
-- DateRangePicker.jsx `handleDay`: which stay two clicks pick, in which time zone.
use hotel_ms.Common.{ℕ, ◌-◌, ◌≤◌, ◌<◌, ◌≡◌, refl, true, false, none, some, arith}
use hotel_ms.Calendar.{Zone, Date, new_date, civil, midnight}
use hotel_ms.Calendar.Zones.{
  IsZone, lag, start_of_day-midnight, midnight-lt, midnight-le, iso_text-midnight,
  parse_local-civil,
}
use hotel_ms.RangePicker.{Picker, to_date, to_str, handle_day, click, step, cell}

pub to_str-midnight :
    (z : Zone) (n : ℕ) → IsZone z → 0 < n → to_str (some (midnight z n)) ≡ some (civil (n - lag z))
unfolding to_str
to_str-midnight z n v h = iso_text-midnight z n v h

pub to_date-civil :
    (z : Zone) (n : ℕ) → IsZone z → 0 < n → to_date z (some (civil n)) ≡ some (midnight z n)
unfolding to_date
to_date-civil z n v h = rw (parse_local-civil z n h, start_of_day-midnight z n v h)

-- The first click of a stay, and the second one on the same day or later.
pub first_click :
    (z : Zone) (n : ℕ) (s : Picker)
    → IsZone z
    → 0 < n
    → s.picking_end ≡ false
    → handle_day z (midnight z n) s
      ≡ record s { check_in = some (civil (n - lag z)); check_out = none; picking_end = true }
unfolding handle_day
first_click z n s v h e = ground (arith, to_str-midnight z n v h)

pub second_click :
    (z : Zone) (c n : ℕ) (s : Picker)
    → IsZone z
    → 0 < c
    → c ≤ n
    → s.check_in ≡ some (civil c)
    → s.picking_end ≡ true
    → handle_day z (midnight z n) s ≡ record s {
      check_in = some (civil (c - lag z));
      check_out = some (civil (n - lag z));
      picking_end = false;
      is_open = false;
    }
unfolding handle_day
second_click z c n s v hc hn e p =
    let start : to_date z s.check_in ≡ some (midnight z c) = rw e (to_date-civil z c v hc) in
    ground (
      arith,
      start,
      to_str-midnight z n v (omega arith),
      to_str-midnight z c v hc,
      midnight-le z c n v hc hn,
    )

-- A second click on an earlier day starts the stay anew.
pub restart :
    (z : Zone) (c n : ℕ) (s : Picker)
    → IsZone z
    → 0 < n
    → n < c
    → s.check_in ≡ some (civil c)
    → s.picking_end ≡ true
    → handle_day z (midnight z n) s
      ≡ record s { check_in = some (civil (n - lag z)); check_out = none }
unfolding handle_day
restart z c n s v hn h e p =
    let start : to_date z s.check_in ≡ some (midnight z c) =
      rw e (to_date-civil z c v (omega (arith, h))) in
    ground (arith, start, to_str-midnight z n v hn, midnight-lt z n c v hn h)

-- A click on the d-th day of a month that is drawn.
abbrev pub pick : Zone → Date → ℕ → ℕ → ℕ → Picker → Picker
pick z today y m d s = step z (click (cell z today s y m d)) s

-- A day that is not past is clickable, and a past one is not.
pick-handle_day :
    (z : Zone) (t y m d : ℕ) (s : Picker)
    → IsZone z
    → 0 < t
    → t ≤ new_date y m d
    → pick z (midnight z t) y m d s ≡ handle_day z (midnight z (new_date y m d)) s
unfolding step cell
pick-handle_day z t y m d s v ht h =
    rw (start_of_day-midnight z (new_date y m d) v (omega (arith, h, ht)))
      (ground (arith, midnight-le z t (new_date y m d) v ht h))

-- In a zone of less than a day's offset, a click on a day before today, which comes after the day 0
-- of the calendar, changes nothing.
pub pick-past :
    (z : Zone) (t y m d : ℕ) (s : Picker)
    → IsZone z
    → 0 < new_date y m d
    → new_date y m d < t
    → pick z (midnight z t) y m d s ≡ s
unfolding step cell
pick-past z t y m d s v hd h =
    rw (start_of_day-midnight z (new_date y m d) v hd)
      (ground (arith, midnight-lt z (new_date y m d) t v hd h))

-- Two clicks pick a stay: in a zone of less than a day's offset, from a picker that is not waiting
-- for the second day, a click on a day that is not past (and not the calendar's first, in a zone
-- ahead of UTC) and a click on the same day or a later one close the calendar over two texts.
-- The text of the check-out is the second day, less one day if the zone is ahead of UTC; that of the
-- check-in is the first day, less two days if it is.
pub two_clicks :
    (z : Zone) (t y m d y' m' d' : ℕ) (s : Picker)
    → IsZone z
    → 0 < t
    → t ≤ new_date y m d
    → lag z < new_date y m d
    → new_date y m d ≤ new_date y' m' d'
    → s.picking_end ≡ false
    → let u = pick z (midnight z t) y' m' d' (pick z (midnight z t) y m d s) in
      (u.check_in ≡ some (civil (new_date y m d - lag z - lag z)))
      × (u.check_out ≡ some (civil (new_date y' m' d' - lag z)))
      × (u.picking_end ≡ false)
      × (u.is_open ≡ false)
two_clicks z t y m d y' m' d' s v ht h hl hn e =
    let a : ℕ = new_date y m d in
    let s₁ : Picker = record s {
      check_in = some (civil (a - lag z));
      check_out = none;
      picking_end = true;
    } in
    rw (pick-handle_day z t y m d s v ht h, first_click z a s v (omega (arith, hl)) e)
      (rw
        (
          pick-handle_day z t y' m' d' s₁ v ht (omega (arith, h, hn)),
          second_click z (a - lag z) (new_date y' m' d') s₁ v (omega (arith, hl))
              (omega (arith, hn)) refl refl,
        )
        (refl, refl, refl, refl))
