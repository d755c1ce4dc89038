-- ===== src/SearchBar/Events.antt =====
-- BookingSearchBar.jsx: what the visitor, the timer and the server do.
use hotel_ms.Common.{
  ℕ, if◌then◌else◌, Bool, false, not, List, [], ◌∷◌, Option, none, some, Text, get_elem?,
}
use hotel_ms.Calendar.{Zone, Date}
use hotel_ms.SearchBar.{
  Hotel, Bar, CalTab, Key, Row, arrive, handle_dest_change, timer_fires, select_suggestion,
  handle_dest_key_down, on_focus, prev_month, next_month, click_day, count,
}

pub data Event : Type 0 where
  typed : Text → Event
  timer_ends focused dest_left previous next day_left cal_clicked cal_outside guests_clicked
        guests_outside done_clicked pets_clicked :
      Event
  answered : ℕ → Event
  suggestion_clicked suggestion_entered : ℕ → Event
  key_down : Key → Event
  day_clicked : ℕ → ℕ → ℕ → Event
  day_entered : Date → Event
  tab_clicked : CalTab → Event
  flex_clicked : ℕ → Event
  counted : Row → Bool → Event
  work_set : Bool → Event

-- A suggestion that is clicked or entered is one of those that are drawn.
abbrev pub on_suggestion : (Hotel → Bar → Bar) → ℕ → Bar → Bar
on_suggestion f i s =
    if s.show_suggestions then elim (get_elem? s.suggestions i) [ none ↦ s | some h ↦ f h s ] else s

module _ (z : Zone) (today : Date) (server : Text → Option (List Hotel)) where
  unfoldable pub step : Event → Bar → Bar
  unfolding arrive handle_dest_change timer_fires select_suggestion handle_dest_key_down prev_month
      next_month click_day count
  step (typed val) s = handle_dest_change val s
  step timer_ends s = timer_fires s
  step focused s = on_focus s
  step dest_left s = record s { show_suggestions = false }
  step previous s = prev_month s
  step next s = next_month s
  step day_left s = record s { hover_day = none }
  step cal_clicked s = record s { show_cal = not s.show_cal; show_guests = false }
  step cal_outside s = record s { show_cal = false }
  step guests_clicked s = record s { show_guests = not s.show_guests; show_cal = false }
  step guests_outside s = record s { show_guests = false }
  step done_clicked s = record s { show_guests = false }
  step pets_clicked s = record s { pets = not s.pets }
  step (answered n) s = arrive server n s
  step (suggestion_clicked i) s = on_suggestion select_suggestion i s
  step (suggestion_entered i) s = on_suggestion (λ h u. record u { active_sug = some i }) i s
  step (key_down k) s = handle_dest_key_down k s
  step (day_clicked y m d) s = click_day z today y m d s
  step (day_entered date) s = if s.picking_end then record s { hover_day = some date } else s
  step (tab_clicked t) s = record s { cal_tab = t }
  step (flex_clicked days) s = record s { flex_days = days }
  step (counted r up) s = count r up s
  step (work_set b) s = record s { for_work = b }

  abbrev pub run : List Event → Bar → Bar
  run [] s = s
  run (e ∷ es) s = run es (step e s)
