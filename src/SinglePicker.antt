-- ===== src/SinglePicker.antt =====
-- frontend/react-app/src/components/common/SingleDatePicker.jsx: a calendar of one month in which one
-- day is picked. Its helpers on dates are copies of those of DateRangePicker.jsx.
pub mod Pick
mod Tests
use hotel_ms.Common.{
  ℕ, zero, suc, ◌+◌, ◌-◌, ◌==◌, ltb, if◌then◌else◌, Bool, true, false, not, ◌||◌, List, [], ◌∷◌,
  ◌++◌, Option, none, some, replicate,
}
use hotel_ms.Calendar.{Zone, Date, DateText, new_date, midnight, start_of_day}
use hotel_ms.RangePicker.{to_date, to_str, dim, fwd}

pub record Picker : Type 0 where
  -- the props
  pub value : DateText
  pub earliest : DateText
  -- the state
  pub is_open : Bool
  pub view_year : ℕ
  pub view_month : ℕ

-- Years count from 0, as in the range picker.
unfoldable pub prev_month : Picker → Picker
prev_month s =
    if s.view_month == 0
    then record s { view_month = 11; view_year = s.view_year - 1 }
    else record s { view_month = s.view_month - 1 }

unfoldable pub next_month : Picker → Picker
next_month s =
    if s.view_month == 11
    then record s { view_month = 0; view_year = s.view_year + 1 }
    else record s { view_month = s.view_month + 1 }

unfoldable pub handle_day : Date → Picker → Picker
handle_day date s = record s { value = to_str (some date); is_open = false }

-- What is drawn of a day.
pub record Cell : Type 0 where
  pub number : ℕ
  pub date : Date
  pub disabled : Bool
  pub selected : Bool

-- `minDate && date < minDate`
abbrev before_min : Option Date → Date → Bool
before_min none d = false
before_min (some m) d = ltb d m

abbrev same_time : Option Date → Date → Bool
same_time none d = false
same_time (some a) d = d == a

unfoldable pub cell : Zone → Date → Picker → ℕ → ℕ → ℕ → Cell
cell z today s y m d =
    let date = start_of_day z (midnight z (new_date y m d)) in
    record {
      number = d;
      date = date;
      disabled = ltb date today || before_min (to_date z s.earliest) date;
      selected = same_time (to_date z s.value) date;
    }

unfoldable pub day_cells : Zone → Date → Picker → ℕ → ℕ → ℕ → ℕ → List (Option Cell)
day_cells z today s y m d zero = []
day_cells z today s y m d (suc rest) =
    some (cell z today s y m d) ∷ day_cells z today s y m (d + 1) rest

unfoldable pub render_month : Zone → Date → Picker → ℕ → ℕ → List (Option Cell)
render_month z today s y m = replicate (fwd y m) none ++ day_cells z today s y m 1 (dim y m)

pub data Event : Type 0 where
  click : Cell → Event
  clear toggle outside previous next : Event

unfoldable pub step : Event → Picker → Picker
unfolding handle_day prev_month next_month
step (click c) s = if not c.disabled then handle_day c.date s else s
step clear s = record s { value = none }
step toggle s = record s { is_open = not s.is_open }
step outside s = record s { is_open = false }
step previous s = prev_month s
step next s = next_month s
