-- ===== src/AllBookings/Tests.antt =====
-- The table of bookings on concrete inputs, and the theorems applied to them.
use hotel_ms.Common.{◌≡◌, refl, true, false, List, [], ◌∷◌, none, some, codes, In}
use hotel_ms.AllBookings.{
  pending, confirmed, completed, cancelled, Booking, Table, count_status, counts_of, enabled,
  filtered, matches, finish_change,
}
use hotel_ms.AllBookings.Clicks.{
  Page, Event, changes, says_yes, answers, clicks_row, requested, step, run,
}
use hotel_ms.AllBookings.Counts.{counts_stay_right}
use hotel_ms.AllBookings.Cancel.{cancel_asks_first}

abbrev first_stay : Booking
first_stay = record {
  id = 11;
  status = pending;
  guest_name = some (codes "Aziza");
  guest_email = none;
  check_in = some (codes "2025-06-01");
  total_price = 120;
}

abbrev second_stay : Booking
second_stay = record first_stay {
  id = 12;
  status = confirmed;
  check_in = some (codes "2025-07-01");
}

abbrev two_stays : Table
two_stays = record {
  bookings = first_stay ∷ second_stay ∷ [];
  loading = false;
  tab = none;
  updating = none;
  expanded_row = none;
  search = codes "AZI";
  date_from = codes "2025-06-15";
  date_to = [];
  confirm_cancel = none;
  tab_counts = counts_of (first_stay ∷ second_stay ∷ []);
}

filtered-two_stays : filtered two_stays ≡ second_stay ∷ []
unfolding filtered matches
filtered-two_stays = refl

-- The first booking is changed while another change is under way, and its list is older.
abbrev older : List Booking
older = first_stay ∷ []

counts_stay_right_example :
    (finish_change 11 confirmed older true two_stays).tab_counts
    ≡ counts_of (finish_change 11 confirmed older true two_stays).bookings
counts_stay_right_example =
    counts_stay_right 11 confirmed older true two_stays ((refl, tt), (tt, tt)) refl refl refl

abbrev page : Page
page = record { table = record two_stays { search = []; date_from = [] }; pending = [] }

-- A second change of one booking with the list from before the first: one booking too many is counted
-- as confirmed.
abbrev overlapping : List Event
overlapping =
    changes 11 confirmed
    ∷ changes 12 completed
    ∷ changes 11 completed
    ∷ answers 0 true
    ∷ answers 0 true
    ∷ answers 0 true
    ∷ []

counts-overlapping :
    ((run overlapping page).table.tab_counts.count confirmed ≡ 1)
    × (count_status (run overlapping page).table.bookings confirmed ≡ 0)
unfolding step enabled filtered matches count_status counts_of
counts-overlapping = (refl, refl)

abbrev asks : List Event
asks = clicks_row 12 ∷ changes 11 cancelled ∷ []

sent_by_yes : (requested says_yes (run asks page).table).1 ≡ some (11, cancelled)
unfolding step requested enabled filtered matches
sent_by_yes = refl

cancel_asks_first_example :
    (says_yes ≡ says_yes)
    × ((run asks page).table.confirm_cancel ≡ some (11, cancelled))
    × In (changes 11 cancelled) asks
cancel_asks_first_example = cancel_asks_first asks says_yes page 11 refl sent_by_yes
