-- ===== src/RangePicker.antt =====
-- frontend/react-app/src/components/common/DateRangePicker.jsx: a calendar of two months in which a
-- stay is picked by two clicks. The parent owns the two date texts and stores what `onChange` hands
-- it; they stand in the same record as the component's own state.
pub mod Clicks
pub mod Order
pub mod Months
pub mod Grid
mod Tests
use hotel_ms.Common.{
  ℕ, zero, suc, ◌+◌, ◌-◌, ◌%◌, ◌==◌, ltb, leb, if◌then◌else◌, Bool, true, false, not, ◌&&◌, ◌||◌,
  List, [], ◌∷◌, ◌++◌, map, Option, none, some, replicate,
}
use hotel_ms.Calendar.{
  Ymd, Zone, Date, DateText, new_date, get_date, get_day, midnight, start_of_day, iso_text,
  parse_local,
}

pub data Tab : Type 0 where
  calendar flexible : Tab

pub record Picker : Type 0 where
  -- the props
  pub check_in : DateText
  pub check_out : DateText
  -- the state
  pub is_open : Bool
  pub cal_tab : Tab
  pub flex_days : ℕ
  pub picking_end : Bool
  pub hover_day : Option Date
  pub view_year : ℕ
  pub view_month : ℕ

-- `dim(y, m)` and `fwd(y, m)`
unfoldable pub dim : ℕ → ℕ → ℕ
dim y m = get_date (new_date y (m + 1) 0)

unfoldable pub fwd : ℕ → ℕ → ℕ
fwd y m = (get_day (new_date y m 1) + 6) % 7

unfoldable pub to_date : Zone → DateText → Option Date
to_date z none = none
to_date z (some d) = some (start_of_day z (parse_local z d))

unfoldable pub to_str : Option Date → DateText
to_str none = none
to_str (some t) = iso_text t

-- `onChange`, which the parent answers by storing both texts.
abbrev on_change : DateText → DateText → Picker → Picker
on_change ci co s = record s { check_in = ci; check_out = co }

unfoldable pub handle_day : Zone → Date → Picker → Picker
handle_day z date s = elim (to_date z s.check_in) [
  | none ↦ record s { check_in = to_str (some date); check_out = none; picking_end = true }
  | some ci ↦
      if not s.picking_end
      then record s { check_in = to_str (some date); check_out = none; picking_end = true }
      else if ltb date ci
      then record s { check_in = to_str (some date); check_out = none }
      else record s {
        check_in = to_str (some ci);
        check_out = to_str (some date);
        picking_end = false;
        is_open = false;
      }
]

-- Years count from 0: before the January of the year 0 the model stays in that year.
unfoldable pub prev_month : Picker → Picker
prev_month s =
    if s.view_month == 0
    then record s { view_month = 11; view_year = s.view_year - 1 }
    else record s { view_month = s.view_month - 1 }

unfoldable pub next_month : Picker → Picker
next_month s =
    if s.view_month == 11
    then record s { view_month = 0; view_year = s.view_year + 1 }
    else record s { view_month = s.view_month + 1 }

-- The month on the right.
unfoldable pub right_month : Picker → ℕ
right_month s = if s.view_month == 11 then 0 else s.view_month + 1

unfoldable pub right_year : Picker → ℕ
right_year s = if s.view_month == 11 then s.view_year + 1 else s.view_year

-- `a && d.getTime() === a.getTime()`
abbrev same_time : Option Date → Date → Bool
same_time none d = false
same_time (some a) d = d == a

unfoldable pub is_start : Zone → Picker → Date → Bool
is_start z s d = same_time (to_date z s.check_in) d

unfoldable pub is_end : Zone → Picker → Date → Bool
is_end z s d = same_time (to_date z s.check_out) d

-- `coDate || (pickingEnd && hoverDay)`
abbrev range_end : Zone → Picker → Option Date
range_end z s = elim (to_date z s.check_out) [
  | none ↦ if s.picking_end then s.hover_day else none
  | some co ↦ some co
]

abbrev between : Option Date → Option Date → Date → Bool
between none e d = false
between (some a) none d = false
between (some a) (some b) d = ltb a d && ltb d b

unfoldable pub in_range : Zone → Picker → Date → Bool
in_range z s d = between (to_date z s.check_in) (range_end z s) d

-- `pickingEnd && hoverDay && ciDate && date > ciDate && date <= hoverDay`
abbrev hovered : Option Date → Option Date → Date → Bool
hovered none h d = false
hovered (some a) none d = false
hovered (some a) (some h) d = ltb a d && leb d h

pub data Colour : Type 0 where
  blue light_blue transparent white grey dark : Colour

pub data Radius : Type 0 where
  round square left right : Radius

-- What is drawn of a day; an empty cell has no day.
pub record Cell : Type 0 where
  pub number : ℕ
  pub date : Date
  pub disabled : Bool
  pub background : Colour
  pub text_colour : Colour
  pub radius : Radius
  pub bold : Bool

-- One round of the loop of `renderMonth`, for the d-th day.
unfoldable pub cell : Zone → Date → Picker → ℕ → ℕ → ℕ → Cell
cell z today s y m d =
    let offset = fwd y m in
    let date = start_of_day z (midnight z (new_date y m d)) in
    let past = ltb date today in
    let start = is_start z s date in
    let end = is_end z s date in
    let lit =
      in_range z s date || (s.picking_end && hovered (to_date z s.check_in) s.hover_day date) in
    let edge = lit && (d == 1 || (ltb 0 offset && d == 1)) in
    record {
      number = d;
      date = date;
      disabled = past;
      background = if start || end then blue else if lit then light_blue else transparent;
      text_colour = if start || end then white else if past then grey else dark;
      radius =
          if end
          then right
          else if (start && lit) || edge
          then left
          else if not (start || end) && lit
          then square
          else round;
      bold = start || end;
    }

-- The loop over the days `d`, ..., `d + rest - 1`.
unfoldable pub day_cells : Zone → Date → Picker → ℕ → ℕ → ℕ → ℕ → List (Option Cell)
day_cells z today s y m d zero = []
day_cells z today s y m d (suc rest) =
    some (cell z today s y m d) ∷ day_cells z today s y m (d + 1) rest

unfoldable pub render_month : Zone → Date → Picker → ℕ → ℕ → List (Option Cell)
render_month z today s y m = replicate (fwd y m) none ++ day_cells z today s y m 1 (dim y m)

-- The handlers of a day's button and of the rest of the component.
pub data Event : Type 0 where
  click enter : Cell → Event
  leave clear toggle outside previous next : Event
  tab : Tab → Event
  flex : ℕ → Event

unfoldable pub step : Zone → Event → Picker → Picker
unfolding handle_day prev_month next_month
step z (click c) s = if not c.disabled then handle_day z c.date s else s
step z (enter c) s = if s.picking_end then record s { hover_day = some c.date } else s
step z leave s = record s { hover_day = none }
step z clear s = record s { check_in = none; check_out = none; picking_end = false }
step z toggle s = record s { is_open = not s.is_open }
step z outside s = record s { is_open = false }
step z previous s = prev_month s
step z next s = next_month s
step z (tab t) s = record s { cal_tab = t }
step z (flex n) s = record s { flex_days = n }

unfoldable pub run : Zone → List Event → Picker → Picker
unfolding step
run z [] s = s
run z (e ∷ es) s = run z es (step z e s)
