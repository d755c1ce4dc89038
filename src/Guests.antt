-- ===== src/Guests.antt =====
-- frontend/react-app/src/components/common/GuestsPicker.jsx: counters for a party. The component
-- edits a copy of its props, and hands it to the parent by the button Done.
pub mod Bounds
mod Tests
use hotel_ms.Common.{
  ℕ, ◌+◌, ◌-◌, ◌==◌, min, max, if◌then◌else◌, Bool, true, false, not, List, [], ◌∷◌,
}

pub record Party : Type 0 where
  pub adults : ℕ
  pub children : ℕ
  pub rooms : ℕ
  pub pets : Bool

pub record Picker : Type 0 where
  -- the props, which the parent owns
  pub props : Party
  pub draft : Party
  pub is_open : Bool

-- The three rows of counters.
pub data Row : Type 0 where
  adults_row children_row rooms_row : Row

abbrev pub row_min : Row → ℕ
row_min adults_row = 1
row_min children_row = 0
row_min rooms_row = 1

abbrev pub row_max : Row → ℕ
row_max adults_row = 30
row_max children_row = 10
row_max rooms_row = 30

abbrev pub value : Row → Party → ℕ
value adults_row p = p.adults
value children_row p = p.children
value rooms_row p = p.rooms

abbrev pub set_value : Row → ℕ → Party → Party
set_value adults_row n p = record p { adults = n }
set_value children_row n p = record p { children = n }
set_value rooms_row n p = record p { rooms = n }

-- `set(v => Math.max(min, v - 1))` and `set(v => Math.min(max, v + 1))`
unfoldable pub minus : Row → Party → Party
minus r p = set_value r (max (row_min r) (value r p - 1)) p

unfoldable pub plus : Row → Party → Party
plus r p = set_value r (min (row_max r) (value r p + 1)) p

-- The four effects, each on its own prop: a changed prop replaces its copy.
abbrev refreshed : ℕ → ℕ → ℕ → ℕ
refreshed old new copy = if old == new then copy else new

abbrev refreshed_flag : Bool → Bool → Bool → Bool
refreshed_flag true true copy = copy
refreshed_flag false false copy = copy
refreshed_flag true false copy = false
refreshed_flag false true copy = true

unfoldable pub receive_props : Party → Picker → Picker
receive_props new s = record s {
  props = new;
  draft = record {
    adults = refreshed s.props.adults new.adults s.draft.adults;
    children = refreshed s.props.children new.children s.draft.children;
    rooms = refreshed s.props.rooms new.rooms s.draft.rooms;
    pets = refreshed_flag s.props.pets new.pets s.draft.pets;
  };
}

-- The parent stores what Done hands it, and renders the component with it.
unfoldable pub handle_done : Picker → Picker
unfolding receive_props
handle_done s = record (receive_props s.draft s) { is_open = false }

pub data Event : Type 0 where
  decrease increase : Row → Event
  toggle_pets toggle outside done : Event
  parent : Party → Event

unfoldable pub step : Event → Picker → Picker
unfolding minus plus handle_done receive_props
step (decrease r) s = record s { draft = minus r s.draft }
step (increase r) s = record s { draft = plus r s.draft }
step toggle_pets s = record s { draft = record s.draft { pets = not s.draft.pets } }
step toggle s = record s { is_open = not s.is_open }
step outside s = record s { is_open = false }
step done s = handle_done s
step (parent p) s = receive_props p s

unfoldable pub run : List Event → Picker → Picker
unfolding step
run [] s = s
run (e ∷ es) s = run es (step e s)

-- What the closed component reads out: the counts of the copy.
unfoldable pub label : Picker → ℕ × ℕ × ℕ
label s = (s.draft.adults, s.draft.children, s.draft.rooms)
