-- ===== src/SinglePicker/Pick.antt =====
-- SingleDatePicker.jsx: what a click on a day does.
use hotel_ms.Common.{ℕ, ◌-◌, ◌≤◌, ◌<◌, ◌≡◌, ◌⊎◌, inl, inr, false, some, arith}
use hotel_ms.Calendar.{Zone, Date, new_date, civil, midnight, start_of_day}
use hotel_ms.Calendar.Zones.{IsZone, lag, start_of_day-midnight, midnight-lt, midnight-le}
use hotel_ms.RangePicker.{to_date, to_str}
use hotel_ms.RangePicker.Clicks.{to_str-midnight, to_date-civil}
use hotel_ms.SinglePicker.{Picker, handle_day, cell, click, step}

-- A click on the d-th day of the month that is drawn.
abbrev pub pick : Zone → Date → ℕ → ℕ → ℕ → Picker → Picker
pick z today y m d s = step (click (cell z today s y m d)) s

-- In a zone of less than a day's offset, where the parent's limit is the day k: a click on a day that
-- is neither past nor before the limit closes the calendar over the text of that day, less one day if
-- the zone is ahead of UTC; a click on a day that is one or the other changes nothing.
pub limits_hold :
    (z : Zone) (t k y m d : ℕ) (s : Picker)
    → IsZone z
    → 0 < t
    → 0 < k
    → 0 < new_date y m d
    → s.earliest ≡ some (civil k)
    → (t ≤ new_date y m d
        → k ≤ new_date y m d
        → ((pick z (midnight z t) y m d s).value ≡ some (civil (new_date y m d - lag z)))
          × ((pick z (midnight z t) y m d s).is_open ≡ false))
      × ((new_date y m d < t) ⊎ (new_date y m d < k) → pick z (midnight z t) y m d s ≡ s)
unfolding step cell handle_day
limits_hold z t k y m d s v ht hk hd e =
    let n : ℕ = new_date y m d in
    let here : start_of_day z (midnight z n) ≡ midnight z n = start_of_day-midnight z n v hd in
    let limit : to_date z s.earliest ≡ some (midnight z k) = rw e (to_date-civil z k v hk) in
    let text : to_str (some (midnight z n)) ≡ some (civil (n - lag z)) = to_str-midnight z n v hd in
    (
      λ a b.
          let today = midnight-le z t n v ht a in
          let later = midnight-le z k n v hk b in
          rw (here, limit) (ground (arith, today, later, text)),
      λ o. elim o [
        | inl a ↦ rw (here, limit) (ground (arith, midnight-lt z n t v hd a))
        | inr b ↦ rw (here, limit) (ground (arith, midnight-lt z n k v hd b))
      ],
    )
