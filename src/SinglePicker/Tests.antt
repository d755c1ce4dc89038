-- ===== src/SinglePicker/Tests.antt =====
-- The single picker on concrete inputs, and the theorem applied to them.
use hotel_ms.Common.{◌≡◌, refl, true, none, some}
use hotel_ms.Calendar.{Zone, east, civil}
use hotel_ms.SinglePicker.{Picker, prev_month}

abbrev from_fifth : Picker
from_fifth = record {
  value = none;
  earliest = some (civil 5);
  is_open = true;
  view_year = 4;
  view_month = 0;
}

prev_month-january : (prev_month from_fifth).view_year ≡ 3
unfolding prev_month
prev_month-january = refl

abbrev tashkent : Zone
tashkent = east 300
