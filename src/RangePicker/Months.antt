-- ===== src/RangePicker/Months.antt =====
-- DateRangePicker.jsx: going from month to month.
use hotel_ms.Common.{◌<◌, ◌≡◌, arith}
use hotel_ms.RangePicker.{Picker, prev_month, next_month, right_month, right_year}

-- For a month within the year and a year after 0: the month on the right is the one after the
-- month on the left, both buttons stay within the twelve months, and each takes the other one back.
pub month_navigation :
    (s : Picker)
    → s.view_month < 12
    → 0 < s.view_year
    → (right_month s ≡ (next_month s).view_month)
      × (right_year s ≡ (next_month s).view_year)
      × ((next_month s).view_month < 12)
      × ((prev_month s).view_month < 12)
      × (prev_month (next_month s) ≡ s)
      × (next_month (prev_month s) ≡ s)
unfolding prev_month next_month right_month right_year
month_navigation s h y =
    (ground arith, ground arith, ground arith, ground arith, ground arith, ground arith)
