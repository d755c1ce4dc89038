-- ===== src/BookingCalendar/Tests.antt =====
-- The calendar of bookings on concrete inputs, and the theorem applied to them.
use hotel_ms.Common.{◌+◌, ◌-◌, ◌%◌, ◌≡◌, refl, [], ◌∷◌, some, length, get_elem?, arith}
use hotel_ms.Calendar.{new_date, full_year, get_day, month_length, is_leap}
use hotel_ms.BookingCalendar.{Booking, bookings_for_day, cells, first_day_of_month, to_date_str}
use hotel_ms.BookingCalendar.Grid.{weeks_show_days}

abbrev stay : Booking
stay = record {
  id = 1;
  check_in = some (record { year = 2025; month = 5; day = 28 });
  check_out = some (record { year = 2025; month = 6; day = 2 });
}

bookings_for_day-stay : bookings_for_day (stay ∷ []) (to_date_str 2025 6 1) ≡ stay ∷ []
unfolding bookings_for_day
bookings_for_day-stay = refl

weeks_show_days_example :
    (length (cells 2028 1) % 7 ≡ 0)
    × (get_elem? (cells 2028 1) (first_day_of_month 2028 1 + (29 - 1)) ≡ some (some 29))
    × ((first_day_of_month 2028 1 + (29 - 1)) % 7 ≡ get_day (new_date 2028 1 29))
unfolding month_length is_leap full_year
weeks_show_days_example = weeks_show_days 2028 1 29 (omega arith) (omega arith) (omega arith)
