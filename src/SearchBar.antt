-- ===== src/SearchBar.antt =====
-- frontend/react-app/src/components/public/BookingSearchBar.jsx: the search bar, with a destination
-- that is completed by requests behind a timer of 300 ms, a calendar of two months and counters of
-- guests. `todayD` and the zone are parameters; no active suggestion (-1) is `none`.
pub mod Dates
pub mod Destination
pub mod Events
pub mod Valid
mod Tests
use hotel_ms.Common.{
  ℕ, zero, suc, ◌+◌, ◌-◌, min, max, ◌==◌, ltb, leb, if◌then◌else◌, Bool, true, false, not, ◌&&◌,
  ◌||◌, List, [], ◌∷◌, ◌++◌, Option, none, some, Text, truthy, trim, get_elem?, length, replicate,
}
use hotel_ms.Calendar.{Zone, Date, DateText, new_date, midnight, start_of_day, iso_text}
use hotel_ms.RangePicker.{dim, fwd}

pub record Hotel : Type 0 where
  pub id : ℕ
  pub name : Text
  pub city : Text

pub data CalTab : Type 0 where
  calendar flexible : CalTab

pub record Bar : Type 0 where
  pub destination : Text
  pub suggestions : List Hotel
  pub show_suggestions : Bool
  pub sug_loading : Bool
  pub active_sug : Option ℕ
  -- `debounceRef`, and the queries under way
  pub timer : Option Text
  pub pending : List Text
  pub check_in : Option Date
  pub check_out : Option Date
  pub picking_end : Bool
  pub hover_day : Option Date
  pub view_year : ℕ
  pub view_month : ℕ
  pub adults : ℕ
  pub children : ℕ
  pub rooms : ℕ
  pub pets : Bool
  pub for_work : Bool
  pub show_cal : Bool
  pub show_guests : Bool
  pub cal_tab : CalTab
  pub flex_days : ℕ
  -- an exception of a handler
  pub crashed : Bool

-- `fetchSuggestions` up to its request, and what follows it. `none` stands for a failure.
unfoldable pub fetch_suggestions : Text → Bar → Bar
fetch_suggestions q s =
    if truthy (trim q)
    then record s { sug_loading = true; pending = s.pending ++ q ∷ [] }
    else record s { suggestions = []; show_suggestions = false }

unfoldable pub suggested : Option (List Hotel) → Bar → Bar
suggested none s = record s { suggestions = []; sug_loading = false }
suggested (some hotels) s = record s {
  suggestions = hotels;
  show_suggestions = true;
  active_sug = none;
  sug_loading = false;
}

abbrev pub remove_at : List Text → ℕ → List Text
remove_at [] n = []
remove_at (q ∷ qs) zero = qs
remove_at (q ∷ qs) (suc n) = q ∷ remove_at qs n

-- The n-th query under way is answered.
unfoldable pub arrive : (Text → Option (List Hotel)) → ℕ → Bar → Bar
unfolding suggested
arrive server n s = elim (get_elem? s.pending n) [
  | none ↦ s
  | some q ↦ suggested (server q) (record s { pending = remove_at s.pending n })
]

-- `handleDestChange` starts the timer anew.
unfoldable pub handle_dest_change : Text → Bar → Bar
handle_dest_change val s = record s { destination = val; timer = some val }

unfoldable pub timer_fires : Bar → Bar
unfolding fetch_suggestions
timer_fires s = elim s.timer [ none ↦ s | some q ↦ fetch_suggestions q (record s { timer = none }) ]

unfoldable pub select_suggestion : Hotel → Bar → Bar
select_suggestion h s = record s {
  destination = if truthy h.city then h.city else h.name;
  show_suggestions = false;
  suggestions = [];
  active_sug = none;
}

pub data Key : Type 0 where
  arrow_down arrow_up enter escape : Key

abbrev pub below : ℕ → Option ℕ → ℕ
below last none = min 0 last
below last (some i) = min (i + 1) last

abbrev pub above : Option ℕ → Option ℕ
above none = none
above (some i) = if i == 0 then none else some (i - 1)

abbrev pub on_key : Key → Bar → Bar
on_key arrow_down s = record s { active_sug = some (below (length s.suggestions - 1) s.active_sug) }
on_key arrow_up s = record s { active_sug = above s.active_sug }
on_key enter s = elim s.active_sug [
  | none ↦ s
  | some i ↦ elim (get_elem? s.suggestions i) [
    | none ↦ record s { crashed = true }
    | some h ↦ select_suggestion h s
  ]
]
on_key escape s = record s { show_suggestions = false }

unfoldable pub handle_dest_key_down : Key → Bar → Bar
unfolding select_suggestion
handle_dest_key_down k s =
    if not s.show_suggestions || length s.suggestions == 0 then s else on_key k s

abbrev pub on_focus : Bar → Bar
on_focus s = if truthy (trim s.destination) then record s { show_suggestions = true } else s

-- The calendar.
abbrev pub r_month : Bar → ℕ
r_month s = if s.view_month == 11 then 0 else s.view_month + 1

abbrev pub r_year : Bar → ℕ
r_year s = if s.view_month == 11 then s.view_year + 1 else s.view_year

-- Years count from 0, as in the range picker.
unfoldable pub prev_month : Bar → Bar
prev_month s =
    if s.view_month == 0
    then record s { view_month = 11; view_year = s.view_year - 1 }
    else record s { view_month = s.view_month - 1 }

unfoldable pub next_month : Bar → Bar
next_month s =
    if s.view_month == 11
    then record s { view_month = 0; view_year = s.view_year + 1 }
    else record s { view_month = s.view_month + 1 }

unfoldable pub handle_day_click : Date → Bar → Bar
handle_day_click date s = elim s.check_in [
  | none ↦ record s { check_in = some date; check_out = none; picking_end = true }
  | some ci ↦
      if not s.picking_end
      then record s { check_in = some date; check_out = none; picking_end = true }
      else if ltb date ci
      then record s { check_in = some date; check_out = none }
      else record s { check_out = some date; picking_end = false; show_cal = false }
]

-- `checkIn && d.getTime() === checkIn.getTime()`
abbrev pub same_time : Option Date → Date → Bool
same_time none d = false
same_time (some t) d = d == t

-- `checkOut || (pickingEnd && hoverDay)`
abbrev pub range_end : Bar → Option Date
range_end s = elim s.check_out [
  | some d ↦ some d
  | none ↦ if s.picking_end then s.hover_day else none
]

abbrev pub between : Option Date → Option Date → Date → Bool
between (some a) (some b) d = ltb a d && ltb d b
between (some a) none d = false
between none e d = false

unfoldable pub in_range : Bar → Date → Bool
in_range s d = between s.check_in (range_end s) d

pub record Cell : Type 0 where
  pub number : ℕ
  pub date : Date
  pub past : Bool
  pub start : Bool
  pub end : Bool
  pub range : Bool

module _ (z : Zone) (today : Date) where
  unfoldable pub cell : Bar → ℕ → ℕ → ℕ → Cell
  unfolding in_range
  cell s y m d =
      let date = start_of_day z (midnight z (new_date y m d)) in
      record {
        number = d;
        date = date;
        past = ltb date today;
        start = same_time s.check_in date;
        end = same_time s.check_out date;
        range = in_range s date;
      }

  unfoldable pub day_cells : Bar → ℕ → ℕ → ℕ → ℕ → List (Option Cell)
  unfolding cell
  day_cells s y m d zero = []
  day_cells s y m d (suc rest) = some (cell s y m d) ∷ day_cells s y m (d + 1) rest

  unfoldable pub render_month : Bar → ℕ → ℕ → List (Option Cell)
  unfolding day_cells
  render_month s y m = replicate (fwd y m) none ++ day_cells s y m 1 (dim y m)

  unfoldable pub click_day : ℕ → ℕ → ℕ → Bar → Bar
  unfolding cell handle_day_click
  click_day y m d s = let c = cell s y m d in if not c.past then handle_day_click c.date s else s

-- The search: what the address of the results says.
pub record Search : Type 0 where
  pub location : Option Text
  pub check_in : Option DateText
  pub check_out : Option DateText
  pub adults : ℕ
  pub children : ℕ
  pub rooms : ℕ

abbrev pub fmt_full : Option Date → Option DateText
fmt_full none = none
fmt_full (some d) = some (iso_text d)

unfoldable pub handle_search : Bar → Search
handle_search s = record {
  location = if truthy s.destination then some s.destination else none;
  check_in = fmt_full s.check_in;
  check_out = fmt_full s.check_out;
  adults = s.adults;
  children = s.children;
  rooms = s.rooms;
}

pub data Row : Type 0 where
  adults_row children_row rooms_row : Row

abbrev pub stepped : Bool → ℕ → ℕ → ℕ → ℕ
stepped up least most v = if up then min most (v + 1) else max least (v - 1)

unfoldable pub count : Row → Bool → Bar → Bar
count adults_row up s = record s { adults = stepped up 1 30 s.adults }
count children_row up s = record s { children = stepped up 0 10 s.children }
count rooms_row up s = record s { rooms = stepped up 1 30 s.rooms }
