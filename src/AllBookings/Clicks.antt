-- ===== src/AllBookings/Clicks.antt =====
-- AllBookings.jsx: what the administrator clicks, and the requests that are under way with the list
-- that each has captured.
use hotel_ms.Common.{
  ℕ, zero, suc, if◌then◌else◌, Bool, List, [], ◌∷◌, ◌++◌, Option, none, some, Text, get_elem?,
}
use hotel_ms.AllBookings.{
  Status, Booking, Table, enabled, handle_status_change, confirm_yes, confirm_no, finish_change,
  select_tab, bookings_loaded, clear_filters, click_row,
}

pub record Change : Type 0 where
  pub id : ℕ
  pub status : Status
  -- `bookings` in the closure of `doStatusChange`
  pub captured : List Booking

pub record Page : Type 0 where
  pub table : Table
  pub pending : List Change

pub data Event : Type 0 where
  changes : ℕ → Status → Event
  says_yes says_no clears : Event
  answers : ℕ → Bool → Event
  selects : Option Status → Event
  loads : Option (List Booking) → Event
  clicks_row : ℕ → Event
  searches sets_from sets_to : Text → Event

-- The table after an event that is no answer, and the change that is sent with it, if one is.
unfoldable pub requested : Event → Table → Table × Option (ℕ × Status)
unfolding handle_status_change confirm_yes confirm_no select_tab bookings_loaded clear_filters
    click_row enabled
requested (changes id st) s = if enabled id s then handle_status_change id st s else (s, none)
requested says_yes s = confirm_yes s
requested says_no s = (confirm_no s, none)
requested clears s = (clear_filters s, none)
requested (answers n ok) s = (s, none)
requested (selects t) s = (select_tab t s, none)
requested (loads r) s = (bookings_loaded r s, none)
requested (clicks_row id) s = (click_row id s, none)
requested (searches t) s = (record s { search = t }, none)
requested (sets_from t) s = (record s { date_from = t }, none)
requested (sets_to t) s = (record s { date_to = t }, none)

abbrev pub sends : Table × Option (ℕ × Status) → Page → Page
sends (t, none) p = record p { table = t }
sends (t, some (id, st)) p = record {
  table = t;
  pending = p.pending ++ record { id = id; status = st; captured = p.table.bookings } ∷ [];
}

abbrev pub remove_at : List Change → ℕ → List Change
remove_at [] n = []
remove_at (r ∷ rs) zero = rs
remove_at (r ∷ rs) (suc n) = r ∷ remove_at rs n

abbrev pub settle : Option Change → ℕ → Bool → Page → Page
settle none n ok p = p
settle (some c) n ok p = record {
  table = finish_change c.id c.status c.captured ok p.table;
  pending = remove_at p.pending n;
}

-- The answer to the request at a place among those under way.
unfoldable pub arrive : ℕ → Bool → Page → Page
unfolding finish_change
arrive n ok p = settle (get_elem? p.pending n) n ok p

unfoldable pub step : Event → Page → Page
unfolding requested arrive
step (answers n ok) p = arrive n ok p
step (changes id st) p = sends (requested (changes id st) p.table) p
step says_yes p = sends (requested says_yes p.table) p
step says_no p = sends (requested says_no p.table) p
step clears p = sends (requested clears p.table) p
step (selects t) p = sends (requested (selects t) p.table) p
step (loads r) p = sends (requested (loads r) p.table) p
step (clicks_row id) p = sends (requested (clicks_row id) p.table) p
step (searches t) p = sends (requested (searches t) p.table) p
step (sets_from t) p = sends (requested (sets_from t) p.table) p
step (sets_to t) p = sends (requested (sets_to t) p.table) p

abbrev pub run : List Event → Page → Page
run [] p = p
run (e ∷ es) p = run es (step e p)
