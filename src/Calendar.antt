-- ===== src/Calendar.antt =====
-- The part of JavaScript's `Date` that the pickers use, over the proleptic Gregorian calendar from
-- the year 0 on. Months count from 0, as in the language. A day is its number, 1 for 1 January of
-- the year 0; a `Date` is an instant, in minutes of UTC, and the browser's time zone is a fixed
-- offset (no daylight saving).
pub mod Days
pub mod Zones
pub mod Months
use hotel_ms.Common.{
  ℕ, zero, suc, ◌+◌, ◌-◌, ◌*◌, ◌/◌, ◌%◌, ◌==◌, ltb, if◌then◌else◌, Bool, true, false, not, ◌&&◌,
  ◌||◌, Option, none, some,
}

pub record Ymd : Type 0 where
  pub year : ℕ
  pub month : ℕ
  pub day : ℕ

unfoldable pub is_leap : ℕ → Bool
is_leap y = y % 4 == 0 && (not (y % 100 == 0) || y % 400 == 0)

unfoldable pub month_length : ℕ → ℕ → ℕ
unfolding is_leap
month_length y m =
    if m == 1
    then (if is_leap y then 29 else 28)
    else if m == 3 || (m == 5 || (m == 8 || m == 10))
    then 30
    else 31

unfoldable pub year_length : ℕ → ℕ
unfolding is_leap
year_length y = if is_leap y then 366 else 365

-- The days of `j` consecutive periods from the i-th on, and the way back: the period and the rest.
unfoldable pub span : (ℕ → ℕ) → ℕ → ℕ → ℕ
span len i zero = 0
span len i (suc j) = len i + span len (suc i) j

unfoldable pub split_span : (ℕ → ℕ) → ℕ → ℕ → ℕ → ℕ × ℕ
split_span len zero i n = (i, n)
split_span len (suc fuel) i n =
    let rest = split_span len fuel (suc i) (n - len i) in if ltb n (len i) then (i, n) else rest

-- The day `d` of the month `m` of the year `y`, where `m` and `d` may lie outside their ranges.
unfoldable pub day_number : ℕ → ℕ → ℕ → ℕ
day_number y m d =
    let year = y + m / 12 in span year_length 0 year + span (month_length year) 0 (m % 12) + d

-- The year that the constructor reads: a number below 100 is a year of the twentieth century.
unfoldable pub full_year : ℕ → ℕ
full_year y = if ltb y 100 then 1900 + y else y

-- `new Date(y, m, d)`
abbrev pub new_date : ℕ → ℕ → ℕ → ℕ
new_date y m d = day_number (full_year y) m d

abbrev pub of_month : ℕ → ℕ × ℕ → Ymd
of_month y (m, k) = record { year = y; month = m; day = k + 1 }

abbrev pub of_year : ℕ × ℕ → Ymd
of_year (y, k) = of_month y (split_span (month_length y) 12 0 k)

-- The civil date of a day.
unfoldable pub civil : ℕ → Ymd
civil n = of_year (split_span year_length n 0 (n - 1))

-- `getDate()`, and `getDay()`, which is 0 on Sundays. 1 January of the year 0 is a Saturday.
unfoldable pub get_date : ℕ → ℕ
get_date n = (civil n).day

unfoldable pub get_day : ℕ → ℕ
get_day n = (n + 5) % 7

-- The time zone: minutes ahead of UTC or behind it.
pub data Zone : Type 0 where
  east west : ℕ → Zone

abbrev pub Date : Type 0
Date = ℕ

unfoldable pub local : Zone → Date → ℕ
local (east off) t = t + off
local (west off) t = t - off

unfoldable pub instant : Zone → ℕ → Date
instant (east off) l = l - off
instant (west off) l = l + off

-- The instant at which a day begins in the zone.
unfoldable pub midnight : Zone → ℕ → Date
midnight z n = instant z (n * 1440)

-- `setHours(0, 0, 0, 0)`
unfoldable pub start_of_day : Zone → Date → Date
start_of_day z t = midnight z (local z t / 1440)

-- The texts that the date fields hold: "" or YYYY-MM-DD.
abbrev pub DateText : Type 0
DateText = Option Ymd

-- `d.toISOString().split("T")[0]`: the day of the instant in UTC.
unfoldable pub iso_text : Date → DateText
iso_text t = some (civil (t / 1440))

-- `new Date(s + "T00:00:00")`: the midnight of the zone.
unfoldable pub parse_local : Zone → Ymd → Date
parse_local z d = midnight z (day_number d.year d.month d.day)
