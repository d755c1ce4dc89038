-- ===== src/SearchBar/Tests.antt =====
-- The search bar on concrete inputs, and the theorems applied to them.
use hotel_ms.Common.{ℕ, ◌≡◌, refl, false, List, [], ◌∷◌, Option, none, some, Text, codes}
use hotel_ms.Calendar.{east}
use hotel_ms.SearchBar.{Hotel, Bar, calendar, arrow_down, enter}
use hotel_ms.SearchBar.Events.{run, step, typed, timer_ends, answered, key_down}

abbrev inn : Hotel
inn = record { id = 1; name = codes "Inn"; city = codes "Khiva" }

abbrev plaza : Hotel
plaza = record { id = 2; name = codes "Plaza"; city = codes "Bukhara" }

abbrev empty_bar : Bar
empty_bar = record {
  destination = [];
  suggestions = [];
  show_suggestions = false;
  sug_loading = false;
  active_sug = none;
  timer = none;
  pending = [];
  check_in = none;
  check_out = none;
  picking_end = false;
  hover_day = none;
  view_year = 2026;
  view_month = 4;
  adults = 2;
  children = 0;
  rooms = 1;
  pets = false;
  for_work = false;
  show_cal = false;
  show_guests = false;
  cal_tab = calendar;
  flex_days = 0;
  crashed = false;
}

-- Every text finds the inn, but the one letter "B" the plaza.
abbrev server : Text → Option (List Hotel)
server [] = none
server (c ∷ []) = some (plaza ∷ [])
server (c ∷ d ∷ s) = some (inn ∷ plaza ∷ [])

abbrev now : ℕ
now = 1000000000

enter-picks :
    (run
      (east 300)
      now
      server
      (typed (codes "Kh") ∷ timer_ends ∷ answered 0 ∷ key_down arrow_down ∷ key_down enter ∷ [])
      empty_bar).destination
    ≡ codes "Khiva"
unfolding step
enter-picks = refl
