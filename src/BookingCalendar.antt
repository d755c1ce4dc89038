-- ===== src/BookingCalendar.antt =====
-- frontend/react-app/src/pages/admin/bookings/BookingCalendar.jsx: a month of the administrator's
-- calendar, with the bookings of each day. A date text is a calendar day, so that the order of texts
-- is the order of year, month and day.
pub mod Grid
mod Tests
use hotel_ms.Common.{
  ℕ, zero, suc, ◌+◌, ◌-◌, ◌*◌, ◌/◌, ◌==◌, ltb, leb, if◌then◌else◌, Bool, true, false, ◌&&◌, ◌||◌,
  List, [], ◌∷◌, Option, none, some, filter,
}
use hotel_ms.Calendar.{Ymd, DateText, new_date, get_day, get_date}

pub record Booking : Type 0 where
  pub id : ℕ
  pub check_in : DateText
  pub check_out : DateText

-- `<=` on date texts.
abbrev pub text_leb : Ymd → Ymd → Bool
text_leb a b =
    ltb a.year b.year
    || (a.year == b.year && (ltb a.month b.month || (a.month == b.month && leb a.day b.day)))

abbrev pub to_date_str : ℕ → ℕ → ℕ → Ymd
to_date_str y m d = record { year = y; month = m; day = d }

abbrev pub covers : Ymd → DateText → DateText → Bool
covers date (some ci) (some co) = text_leb ci date && text_leb date co
covers date (some ci) none = false
covers date none co = false

unfoldable pub bookings_for_day : List Booking → Ymd → List Booking
bookings_for_day bookings date = filter (λ b. covers date b.check_in b.check_out) bookings

pub record Month : Type 0 where
  pub year : ℕ
  pub month : ℕ
  pub bookings : List Booking
  pub loading : Bool
  pub selected_day : Option ℕ

unfoldable pub bookings_loaded : Option (List Booking) → Month → Month
bookings_loaded none s = record s { bookings = []; loading = false }
bookings_loaded (some bs) s = record s { bookings = bs; loading = false }

-- Years count from 0, as in the pickers.
unfoldable pub prev_month : Month → Month
prev_month s =
    if s.month == 0
    then record s { year = s.year - 1; month = 11; selected_day = none }
    else record s { month = s.month - 1; selected_day = none }

unfoldable pub next_month : Month → Month
next_month s =
    if s.month == 11
    then record s { year = s.year + 1; month = 0; selected_day = none }
    else record s { month = s.month + 1; selected_day = none }

unfoldable pub first_day_of_month : ℕ → ℕ → ℕ
first_day_of_month y m = get_day (new_date y m 1)

unfoldable pub days_in_month : ℕ → ℕ → ℕ
days_in_month y m = get_date (new_date y (m + 1) 0)

-- `Math.ceil(n / 7) * 7`
unfoldable pub total_cells : ℕ → ℕ → ℕ
total_cells first days = (first + days + 6) / 7 * 7

-- The loop from the i-th cell on. `dayNum` is `i - first + 1`, which is less than 1 before `first`.
unfoldable pub cells_from : ℕ → ℕ → ℕ → ℕ → List (Option ℕ)
cells_from first days i zero = []
cells_from first days i (suc rest) =
    (if ltb i first || ltb days (i + 1 - first) then none else some (i + 1 - first))
    ∷ cells_from first days (i + 1) rest

unfoldable pub cells : ℕ → ℕ → List (Option ℕ)
cells y m =
    cells_from (first_day_of_month y m) (days_in_month y m) 0
      (total_cells (first_day_of_month y m) (days_in_month y m))

-- A click on a day selects it, or takes the selection back.
unfoldable pub select_day : ℕ → Month → Month
select_day d s = record s {
  selected_day = elim s.selected_day [ none ↦ some d | some e ↦ if d == e then none else some d ];
}

unfoldable pub selected_bookings : Month → List Booking
unfolding bookings_for_day
selected_bookings s = elim s.selected_day [
  | none ↦ []
  | some d ↦ bookings_for_day s.bookings (to_date_str s.year s.month d)
]
