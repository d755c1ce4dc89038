-- ===== src/RangePicker/Tests.antt =====
-- The range picker on concrete inputs, and the theorems applied to them.
use hotel_ms.Common.{ℕ, ◌<◌, ◌≡◌, refl, true, false, [], ◌∷◌, none, arith}
use hotel_ms.Calendar.{new_date, full_year, Zone, east, west, midnight, month_length, is_leap}
use hotel_ms.Calendar.Days.{last_day, day_number-add}
use hotel_ms.Calendar.Zones.{start_of_day-midnight}
use hotel_ms.RangePicker.{Picker, calendar, Cell, cell, click, next, run, dim}
use hotel_ms.RangePicker.Order.{IsOrdered, dates_in_order}

abbrev empty : Picker
empty = record {
  check_in = none;
  check_out = none;
  is_open = true;
  cal_tab = calendar;
  flex_days = 0;
  picking_end = false;
  hover_day = none;
  view_year = 2028;
  view_month = 1;
}

abbrev tashkent : Zone
tashkent = east 300

abbrev lisbon : Zone
lisbon = west 0

-- February of a leap year.
dim-leap : dim 2028 1 ≡ 29
unfolding dim month_length is_leap full_year
dim-leap = last_day 2028 1 (omega arith)

abbrev tenth : Cell
tenth = cell tashkent (midnight tashkent 3) empty 2028 1 10

-- The day of the cell's year.
abbrev day_ten : ℕ
day_ten = new_date 2028 1 10

late_enough : 2 < day_ten
unfolding full_year
late_enough = omega (arith, day_number-add 2028 1 10)

tenth-date : tenth.date ≡ midnight tashkent day_ten
unfolding cell
tenth-date = start_of_day-midnight tashkent day_ten (omega arith) (omega (arith, late_enough))

dates_in_order_example : IsOrdered (run tashkent (click tenth ∷ next ∷ click tenth ∷ []) empty)
dates_in_order_example =
    dates_in_order tashkent (click tenth ∷ next ∷ click tenth ∷ []) empty (omega arith)
      ((day_ten, late_enough, tenth-date), ((day_ten, late_enough, tenth-date), tt)) refl
