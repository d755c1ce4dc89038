-- ===== src/AllBookings.antt =====
-- frontend/react-app/src/pages/admin/bookings/AllBookings.jsx: the table of bookings with its tabs,
-- its filters and the change of a booking's status. A request is split in two: what the handler does
-- before it, and what it does with the answer and the list that it captured.
pub mod Clicks
pub mod Counts
pub mod Cancel
mod Tests
use hotel_ms.Common.{
  ℕ, ◌+◌, ◌-◌, ◌==◌, ltb, leb, if◌then◌else◌, Bool, true, false, not, ◌&&◌, ◌||◌, List, [], ◌∷◌,
  map, Option, none, some, Text, truthy, contains, to_lower, filter, find, length, any,
}

pub data Status : Type 0 where
  pending confirmed completed cancelled : Status

abbrev pub same_status : Status → Status → Bool
same_status pending pending = true
same_status confirmed confirmed = true
same_status completed completed = true
same_status cancelled cancelled = true
same_status _ _ = false

pub record Booking : Type 0 where
  pub id : ℕ
  pub status : Status
  pub guest_name : Option Text
  pub guest_email : Option Text
  pub check_in : Option Text
  pub total_price : ℕ

-- The entries of `tabCounts`; a missing one is read as 0.
pub record TabCounts : Type 0 where
  pub all_bookings : ℕ
  pub count : Status → ℕ

pub record Table : Type 0 where
  pub bookings : List Booking
  pub loading : Bool
  -- the status of the tab, or all
  pub tab : Option Status
  pub updating : Option ℕ
  pub expanded_row : Option ℕ
  pub search : Text
  pub date_from : Text
  pub date_to : Text
  pub confirm_cancel : Option (ℕ × Status)
  pub tab_counts : TabCounts

-- `all.filter((b) => b.status === t).length`
unfoldable pub count_status : List Booking → Status → ℕ
count_status bs st = length (filter (λ b. same_status b.status st) bs)

unfoldable pub counts_of : List Booking → TabCounts
counts_of bs = record { all_bookings = length bs; count = count_status bs }

-- The order of JavaScript's `<=` on texts.
abbrev pub text_leb : Text → Text → Bool
text_leb [] t = true
text_leb (x ∷ s) [] = false
text_leb (x ∷ s) (y ∷ t) = ltb x y || (x == y && text_leb s t)

abbrev found_in : Text → Option Text → Bool
found_in q none = false
found_in q (some t) = contains q (to_lower t)

abbrev on_or_after : Text → Option Text → Bool
on_or_after from none = false
on_or_after from (some d) = truthy d && text_leb from d

abbrev on_or_before : Text → Option Text → Bool
on_or_before to none = false
on_or_before to (some d) = truthy d && text_leb d to

unfoldable pub matches : Table → Booking → Bool
matches s b =
    (not (truthy (to_lower s.search))
      || (found_in (to_lower s.search) b.guest_name || found_in (to_lower s.search) b.guest_email))
    && ((not (truthy s.date_from) || on_or_after s.date_from b.check_in)
        && (not (truthy s.date_to) || on_or_before s.date_to b.check_in))

unfoldable pub filtered : Table → List Booking
unfolding matches
filtered s = filter (matches s) s.bookings

abbrev revenue : List Booking → ℕ
revenue [] = 0
revenue (b ∷ bs) = b.total_price + revenue bs

unfoldable pub summary_revenue : Table → ℕ
summary_revenue s = revenue (filtered s)

unfoldable pub summary_confirmed : Table → ℕ
summary_confirmed s = count_status (filtered s) confirmed

unfoldable pub summary_pending : Table → ℕ
summary_pending s = count_status (filtered s) pending

-- `prev.map((b) => b.id === id ? { ...b, status } : b)`
unfoldable pub set_status : ℕ → Status → List Booking → List Booking
set_status id st [] = []
set_status id st (b ∷ bs) =
    (if b.id == id then record b { status = st } else b) ∷ set_status id st bs

abbrev pub has_id : ℕ → Booking → Bool
has_id id b = b.id == id

-- The update of the counts, where the old status is that of the captured list.
unfoldable pub decrement : Option Status → (Status → ℕ) → Status → ℕ
decrement none c st = c st
decrement (some old) c st = if same_status old st && ltb 0 (c old) then c st - 1 else c st

unfoldable pub move_count : Option Status → Status → TabCounts → TabCounts
unfolding decrement
move_count old new c = record {
  all_bookings = c.all_bookings;
  count =
      λ st. if same_status new st then decrement old c.count st + 1 else decrement old c.count st;
}

abbrev pub old_status : ℕ → List Booking → Option Status
old_status id captured = elim (find (has_id id) captured) [ none ↦ none | some b ↦ some b.status ]

unfoldable pub start_change : ℕ → Table → Table
start_change id s = record s { updating = some id }

-- The `finally` block.
abbrev settled : Table → Table
settled s = record s { updating = none; confirm_cancel = none }

unfoldable pub finish_change : ℕ → Status → List Booking → Bool → Table → Table
unfolding set_status move_count
finish_change id st captured true s = settled (record s {
  bookings = set_status id st s.bookings;
  tab_counts = move_count (old_status id captured) st s.tab_counts;
})
finish_change id st captured false s = settled s

-- `handleStatusChange`: the state, and the id of the request that it starts, if it does.
unfoldable pub handle_status_change : ℕ → Status → Table → Table × Option (ℕ × Status)
unfolding start_change
handle_status_change id st s =
    if same_status st cancelled
    then (record s { confirm_cancel = some (id, st) }, none)
    else (start_change id s, some (id, st))

abbrev is : Option ℕ → ℕ → Bool
is none id = false
is (some k) id = k == id

-- The row is in the table, and its controls are not disabled.
unfoldable pub enabled : ℕ → Table → Bool
unfolding filtered
enabled id s = not s.loading && (any (has_id id) (filtered s) && not (is s.updating id))

-- The buttons of the question before a cancellation, which stand below the row that it is about.
abbrev pub yes_for : Option (ℕ × Status) → Table → Table × Option (ℕ × Status)
yes_for none s = (s, none)
yes_for (some (id, st)) s = if enabled id s then (start_change id s, some (id, st)) else (s, none)

unfoldable pub confirm_yes : Table → Table × Option (ℕ × Status)
unfolding start_change enabled
confirm_yes s = yes_for s.confirm_cancel s

unfoldable pub confirm_no : Table → Table
confirm_no s = record s { confirm_cancel = none }

-- The effect on `[tab]` and the answer to its request.
unfoldable pub select_tab : Option Status → Table → Table
select_tab t s = record s { tab = t; loading = true; expanded_row = none }

unfoldable pub bookings_loaded : Option (List Booking) → Table → Table
bookings_loaded none s = record s { bookings = []; loading = false }
bookings_loaded (some bs) s = record s { bookings = bs; loading = false }

unfoldable pub clear_filters : Table → Table
clear_filters s = record s { search = []; date_from = []; date_to = [] }

unfoldable pub click_row : ℕ → Table → Table
click_row id s = record s {
  expanded_row = elim s.expanded_row [
    | none ↦ some id
    | some r ↦ if r == id then none else some id
  ];
}
