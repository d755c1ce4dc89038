-- ===== src/BookingCalendar/Grid.antt =====
-- BookingCalendar.jsx: where the days of a month stand.
use hotel_ms.Common.{
  ℕ, zero, suc, ◌+◌, ◌-◌, ◌*◌, ◌/◌, ◌%◌, ◌≤◌, ◌<◌, ◌≡◌, refl, ap, ◌∙◌, some, length, get_elem?,
  arith,
}
use hotel_ms.Calendar.{new_date, full_year, get_day, month_length}
use hotel_ms.Calendar.Days.{last_day, day_number-add}
use hotel_ms.BookingCalendar.{first_day_of_month, days_in_month, total_cells, cells_from, cells}

length-cells_from : (first days i n : ℕ) → length (cells_from first days i n) ≡ n
unfolding cells_from
length-cells_from first days i zero = refl
length-cells_from first days i (suc n) = ap suc (length-cells_from first days (i + 1) n)

get_elem?-cells_from :
    (first days i n k : ℕ)
    → k < n
    → first ≤ i + k
    → i + k + 1 - first ≤ days
    → get_elem? (cells_from first days i n) k ≡ some (some (i + k + 1 - first))
unfolding cells_from
get_elem?-cells_from first days i zero k h a b = absurd (omega arith)
get_elem?-cells_from first days i (suc n) zero h a b = ground arith
get_elem?-cells_from first days i (suc n) (suc k) h a b =
    get_elem?-cells_from first days (i + 1) n k (omega arith) (omega arith) (omega arith)
    ∙ ap (λ d. some (some d)) (omega arith)

-- For a month within the year, where a year below 100 is one of the twentieth century: the grid consists of whole weeks, and every day of the month stands in
-- it, in the column of its weekday, where 0 is Sunday.
pub weeks_show_days :
    (y m d : ℕ)
    → m < 12
    → 0 < d
    → d ≤ month_length (full_year y) m
    → (length (cells y m) % 7 ≡ 0)
      × (get_elem? (cells y m) (first_day_of_month y m + (d - 1)) ≡ some (some d))
      × ((first_day_of_month y m + (d - 1)) % 7 ≡ get_day (new_date y m d))
unfolding cells total_cells
weeks_show_days y m d hm hd h =
    let f : ℕ = first_day_of_month y m in
    let total : days_in_month y m ≡ month_length (full_year y) m =
      unfold days_in_month in last_day (full_year y) m hm in
    (
      omega
          (arith, length-cells_from f (days_in_month y m) 0 ((f + days_in_month y m + 6) / 7 * 7)),
      get_elem?-cells_from f (days_in_month y m) 0 ((f + days_in_month y m + 6) / 7 * 7)
            (f + (d - 1)) (omega (arith, total)) (omega arith) (omega (arith, total))
          ∙ ap (λ e. some (some e)) (omega arith),
      unfold first_day_of_month get_day in
          omega (arith, day_number-add (full_year y) m d, day_number-add (full_year y) m 1),
    )
