-- ===== src/RangePicker/Grid.antt =====
-- DateRangePicker.jsx `renderMonth`: which days a month shows, and in which column.
use hotel_ms.Common.{
  ℕ, zero, suc, ◌+◌, ◌-◌, ◌%◌, ◌≤◌, ◌<◌, ◌≡◌, refl, ap, ◌∙◌, List, Option, none, some, length,
  length-append, get_elem?, get_elem?-append, replicate, length-replicate, arith,
}
use hotel_ms.Calendar.{Zone, Date, new_date, full_year, get_day, month_length}
use hotel_ms.Calendar.Days.{last_day, day_number-add}
use hotel_ms.RangePicker.{Picker, Cell, cell, day_cells, render_month, dim, fwd}

module _ (z : Zone) (today : Date) (s : Picker) (y m : ℕ) where
  length-day_cells : (d n : ℕ) → length (day_cells z today s y m d n) ≡ n
  unfolding day_cells
  length-day_cells d zero = refl
  length-day_cells d (suc n) = ap suc (length-day_cells (d + 1) n)

  get_elem?-day_cells :
      (d n k : ℕ)
      → k < n
      → get_elem? (day_cells z today s y m d n) k ≡ some (some (cell z today s y m (d + k)))
  unfolding day_cells
  get_elem?-day_cells d zero k h = absurd (omega arith)
  get_elem?-day_cells d (suc n) zero h = ap (λ e. some (some (cell z today s y m e))) (omega arith)
  get_elem?-day_cells d (suc n) (suc k) h =
      get_elem?-day_cells (d + 1) n k (omega arith)
      ∙ ap (λ e. some (some (cell z today s y m e))) (omega arith)

  -- The month shows its days, as many as the calendar says, behind `fwd` empty cells; each day
  -- stands in the column of its weekday, where 0 is Monday.
  pub month_grid :
      (d : ℕ)
      → m < 12
      → 0 < d
      → d ≤ month_length (full_year y) m
      → (length (render_month z today s y m) ≡ fwd y m + month_length (full_year y) m)
        × (get_elem? (render_month z today s y m) (fwd y m + (d - 1))
            ≡ some (some (cell z today s y m d)))
        × ((fwd y m + (d - 1)) % 7 ≡ (get_day (new_date y m d) + 6) % 7)
  unfolding render_month
  month_grid d hm hd h =
      let total : dim y m ≡ month_length (full_year y) m =
        unfold dim in last_day (full_year y) m hm in
      let blanks : List (Option Cell) = replicate (fwd y m) none in
      let first : length blanks ≡ fwd y m = length-replicate (fwd y m) none in
      let place : fwd y m + (d - 1) ≡ length blanks + (d - 1) = omega (arith, first) in
      (
        length-append blanks _ ∙ omega (arith, first, length-day_cells 1 (dim y m), total),
        ap (get_elem? (render_month z today s y m)) place
            ∙ get_elem?-append blanks (day_cells z today s y m 1 (dim y m)) (d - 1)
            ∙ get_elem?-day_cells 1 (dim y m) (d - 1) (omega (arith, total))
            ∙ ap (λ e. some (some (cell z today s y m e))) (omega arith),
        unfold fwd get_day in
            omega (arith, day_number-add (full_year y) m d, day_number-add (full_year y) m 1),
      )
