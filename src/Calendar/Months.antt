-- ===== src/Calendar/Months.antt =====
-- The first days of months are ordered as the months.
use native.Mathlib.Decide.{dec_lt}
use hotel_ms.Common.{ℕ, suc, ◌+◌, ◌-◌, ◌*◌, ◌≤◌, ◌<◌, ◌≡◌, ap, arith}
use hotel_ms.Calendar.{day_number, span, year_length, month_length}
use hotel_ms.Calendar.Days.{
  day_number_lem, span-suc, span-le-add, zero_plus, year_length-span, month_length-pos,
}

first_day :
    (y m : ℕ) → m < 12 → day_number y m 1 ≡ span year_length 0 y + span (month_length y) 0 m + 1
first_day y m h =
    day_number_lem (record { year = y; month = m; day = 1 })
      (record { month_ok = h; day_pos = omega arith; day_ok = month_length-pos y m })

-- The months of a year before its m-th one are shorter than the year.
months_lt_year : (y m : ℕ) → m < 12 → span (month_length y) 0 m < year_length y
months_lt_year y m h =
    let whole : suc m + (11 - m) ≡ 12 = omega (arith, h) in
    omega (
      arith,
      span-suc (month_length y) 0 m,
      ap (month_length y) (zero_plus m),
      month_length-pos y m,
      year_length-span y,
      ap (span (month_length y) 0) whole,
      span-le-add (month_length y) 0 (suc m) (11 - m),
    )

same_year : (y m n : ℕ) → m < n → n < 12 → day_number y m 1 < day_number y n 1
same_year y m n l h =
    let whole : suc m + (n - suc m) ≡ n = omega (arith, l) in
    omega (
      arith,
      first_day y m (omega (arith, l, h)),
      first_day y n h,
      span-suc (month_length y) 0 m,
      ap (month_length y) (zero_plus m),
      month_length-pos y m,
      ap (span (month_length y) 0) whole,
      span-le-add (month_length y) 0 (suc m) (n - suc m),
    )

later_year : (y z m n : ℕ) → y < z → m < 12 → n < 12 → day_number y m 1 < day_number z n 1
later_year y z m n l hm hn =
    let whole : suc y + (z - suc y) ≡ z = omega (arith, l) in
    omega (
      arith,
      first_day y m hm,
      first_day z n hn,
      months_lt_year y m hm,
      span-suc year_length 0 y,
      ap year_length (zero_plus y),
      ap (span year_length 0) whole,
      span-le-add year_length 0 (suc y) (z - suc y),
    )

pub month-lt :
    (y m z n : ℕ) → m < 12 → n < 12 → y * 12 + m < z * 12 + n → day_number y m 1 < day_number z n 1
month-lt y m z n hm hn l = elim (dec_lt y z) [
  | yes before ↦ later_year y z m n before hm hn
  | no other ↦
      let year : z ≡ y = omega (arith, other, l, hm, hn) in
      rw year (same_year y m n (omega (arith, year, l)) hn)
]

pub month-le :
    (y m z n : ℕ) → m < 12 → n < 12 → y * 12 + m ≤ z * 12 + n → day_number y m 1 ≤ day_number z n 1
month-le y m z n hm hn l = elim (dec_lt (y * 12 + m) (z * 12 + n)) [
  | yes before ↦ omega (arith, month-lt y m z n hm hn before)
  | no other ↦
      let year : z ≡ y = omega (arith, other, l, hm, hn) in
      let month : n ≡ m = omega (arith, year, other, l) in rw (year, month) (omega arith)
]
